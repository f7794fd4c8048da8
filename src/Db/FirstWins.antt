-- ===== src/Db/FirstWins.antt =====
-- The terminal transitions of runs and of tool calls: whichever comes first wins.
use swift_agent.Common.{
  String, Bool, false, ◌≡◌, refl, ap, ◌∙◌, List, [], ◌∷◌, some, arith, All, if◌then◌else◌,
}
use swift_agent.Json.{Json}
use swift_agent.Shared.{RunStatus, completed, failed, cancelled, timed_out, ToolCallStatus}
use swift_agent.Db.Table.{update_where, All-update_where}
use swift_agent.Db.Runs.{RunRow, TokenUsage, is_live, is_running}
use swift_agent.Db.Runs
use swift_agent.Db.ToolCalls.{ToolCallRow, is_open, is_started}
use swift_agent.Db.ToolCalls

-- An update that hits no row changes nothing.
update_where-miss {ℓ} :
    {R : Type ℓ} (hit : R → Bool) (set : R → R) (rows : List R)
    → All (λ r. hit r ≡ false) rows
    → update_where hit set rows ≡ rows
unfolding update_where
update_where-miss hit set [] h = refl
update_where-miss hit set (r ∷ rs) (p, h) = ground (arith, update_where-miss hit set rs h)

-- The four terminal writes of run-repo.ts.
pub data RunWrite : Type 0 where
  completes : TokenUsage → RunWrite
  fails cancels expires : RunWrite

unfoldable pub write_run : String → RunWrite → List RunRow → List RunRow
unfolding Runs.complete Runs.fail Runs.cancel Runs.timeout Runs.finish
write_run run_id (completes usage) rows = Runs.complete run_id usage rows
write_run run_id fails rows = Runs.fail run_id rows
write_run run_id cancels rows = Runs.cancel run_id rows
write_run run_id expires rows = Runs.timeout run_id rows

unfoldable pub write_runs : String → List RunWrite → List RunRow → List RunRow
unfolding write_run
write_runs run_id [] rows = rows
write_runs run_id (x ∷ xs) rows = write_runs run_id xs (write_run run_id x rows)

-- No row of the run is `running`.
abbrev pub IsOver : String → List RunRow → Type 0
IsOver run_id rows = All (λ r. is_live run_id r ≡ false) rows

over_row :
    (run_id : String) (to : RunStatus) (r : RunRow)
    → is_running to ≡ false
    → is_live run_id (if is_live run_id r then record r { status = to } else r) ≡ false
over_row run_id to r t = ground arith

over_completed :
    (run_id : String) (usage : TokenUsage) (r : RunRow)
    → is_live run_id
        (if is_live run_id r then record r { status = completed; token_usage = some usage } else r)
      ≡ false
over_completed run_id usage r = ground arith

All-any {ℓ} : {R : Type ℓ} (rows : List R) → All (λ _. Unit {0}) rows
All-any [] = tt
All-any (r ∷ rs) = (tt, All-any rs)

write_run-IsOver :
    (run_id : String) (x : RunWrite) (rows : List RunRow) → IsOver run_id (write_run run_id x rows)
unfolding write_run
write_run-IsOver run_id (completes usage) rows =
    All-update_where _ _ (λ _. Unit {0}) _ rows (λ r _. over_completed run_id usage r)
      (All-any rows)
write_run-IsOver run_id fails rows =
    All-update_where _ _ (λ _. Unit {0}) _ rows (λ r _. over_row run_id failed r refl)
      (All-any rows)
write_run-IsOver run_id cancels rows =
    All-update_where _ _ (λ _. Unit {0}) _ rows (λ r _. over_row run_id cancelled r refl)
      (All-any rows)
write_run-IsOver run_id expires rows =
    All-update_where _ _ (λ _. Unit {0}) _ rows (λ r _. over_row run_id timed_out r refl)
      (All-any rows)

write_run-over :
    (run_id : String) (x : RunWrite) (rows : List RunRow)
    → IsOver run_id rows
    → write_run run_id x rows ≡ rows
unfolding write_run
write_run-over run_id (completes usage) rows h = update_where-miss _ _ rows h
write_run-over run_id fails rows h = update_where-miss _ _ rows h
write_run-over run_id cancels rows h = update_where-miss _ _ rows h
write_run-over run_id expires rows h = update_where-miss _ _ rows h

write_runs-over :
    (run_id : String) (xs : List RunWrite) (rows : List RunRow)
    → IsOver run_id rows
    → write_runs run_id xs rows ≡ rows
unfolding write_runs
write_runs-over run_id [] rows h = refl
write_runs-over run_id (x ∷ xs) rows h =
    ap (write_runs run_id xs) (write_run-over run_id x rows h) ∙ write_runs-over run_id xs rows h

-- After one terminal write of a run (`complete`, `fail`, `cancel` or `timeout`) any sequence of
-- further terminal writes of the same run leaves the table exactly as it is.
pub write_runs-first_wins :
    (run_id : String) (x : RunWrite) (xs : List RunWrite) (rows : List RunRow)
    → write_runs run_id (x ∷ xs) rows ≡ write_run run_id x rows
unfolding write_runs
write_runs-first_wins run_id x xs rows =
    write_runs-over run_id xs (write_run run_id x rows) (write_run-IsOver run_id x rows)

closed_row :
    (call_id : String) (output : Json) (to : ToolCallStatus) (r : ToolCallRow)
    → is_started to ≡ false
    → is_open call_id
        (if is_open call_id r then record r { output = some output; status = to } else r)
      ≡ false
closed_row call_id output to r t = ground arith

-- Once `updateResult` has recorded a completed or failed call, neither a second `updateResult`
-- (whatever its output and status) nor `fail` of the same call changes the table.
pub update_result-first_wins :
    (call_id : String) (output output' : Json) (to to' : ToolCallStatus) (rows : List ToolCallRow)
    → is_started to ≡ false
    → let recorded = ToolCalls.update_result call_id output to rows in
      (ToolCalls.update_result call_id output' to' recorded ≡ recorded)
      × (ToolCalls.fail call_id recorded ≡ recorded)
unfolding ToolCalls.update_result ToolCalls.fail
update_result-first_wins call_id output output' to to' rows t =
    (update_where-miss _ _ _ closed, update_where-miss _ _ _ closed)
  where
    closed : All (λ r. is_open call_id r ≡ false) (ToolCalls.update_result call_id output to rows)
    closed =
        All-update_where _ _ (λ _. Unit {0}) _ rows (λ r _. closed_row call_id output to r t)
          (All-any rows)
