-- ===== src/Runtime/Loop/Settled.antt =====
-- The run's row when the loop has ended, and the event that tells its status.
use swift_agent.Common.{
  ℕ, String, ◌≡◌, refl, sym, subst, ◌∙◌, ◌≤◌, List, [], ◌∷◌, ◌++◌, Option, none, some, arith,
  eq_iff, All, All-append, ◌⊎◌, inl, inr, if◌then◌else◌,
}
use swift_agent.Shared.{ChatEvent, Fault, RunStatus, running, completed, failed}
use swift_agent.Db.Table.{All-update_where}
use swift_agent.Db.Runs.{RunRow, TokenUsage, is_live, is_running}
use swift_agent.Db.Runs
use swift_agent.Runtime.Exec.{Outcome, returned, thrown, stopped, catch, finally}
use swift_agent.Runtime.Exec.Rules.{Holds}
use swift_agent.Runtime.Loop.Defs.{
  World, LoopState, db, write_or_throw, safe, write_if, tick, deliver,
}
use swift_agent.Runtime.Loop.Walk.{Stable}
use swift_agent.Runtime.Loop.Closing.{
  Closes, Write, completes, fails, cancels, expires, Told, Told-later, closes-caught,
}
use swift_agent.Runtime.Loop.Run.{
  attempt, on_error, close_open_calls, finalize, fail_call, run_agent_loop,
}

-- Every row of this run has the status.
abbrev pub RowsAre : World → RunStatus → List RunRow → Type 0
RowsAre w st rows = All (λ r. r.run_id ≡ w.run_id → r.status ≡ st) rows

abbrev pub IsLive : World → LoopState → Type 0
IsLive w s = RowsAre w running s.runs

-- The last event tells the status that the run's row has.
pub record Settled (w : World) (s : LoopState) : Type 0 where
  pub before : List ChatEvent
  pub last : ChatEvent
  pub status : RunStatus
  pub split : s.events ≡ before ++ last ∷ []
  pub told : Told w s last status
  pub rows : RowsAre w status s.runs

abbrev LiveOrSettled : World → LoopState → Type 0
LiveOrSettled w s = IsLive w s ⊎ Settled w s

IsLive-Stable : (w : World) → Stable w (IsLive w)
unfolding Runs.create
IsLive-Stable w = record {
  ticks = λ s h. h;
  delivers = λ e s t h. h;
  appends = λ m s h. h;
  texts = λ t s h. h;
  usages = λ u s h. h;
  collects = λ c s h. h;
  counts = λ s h. h;
  deadlines = λ f s h. h;
  creates = λ s h.
      All-append (λ r. r.run_id ≡ w.run_id → r.status ≡ running) s.runs _ h ((λ e. refl), tt);
  opens = λ p input s h. h;
  closes = λ p output to s t h. h;
  executes = λ p s valid h. h;
}

module _ (w : World) where
  finishes_row :
      (to : RunStatus) (r : RunRow)
      → (r.run_id ≡ w.run_id → r.status ≡ running)
      → (if is_live w.run_id r then record r { status = to } else r).run_id ≡ w.run_id
      → (if is_live w.run_id r then record r { status = to } else r).status ≡ to
  finishes_row to r h = ground (arith, eq_iff r.run_id w.run_id)

  completes_row :
      (usage : TokenUsage) (r : RunRow)
      → (r.run_id ≡ w.run_id → r.status ≡ running)
      → (if is_live w.run_id r
          then record r { status = completed; token_usage = some usage }
          else r).run_id
        ≡ w.run_id
      → (if is_live w.run_id r
          then record r { status = completed; token_usage = some usage }
          else r).status
        ≡ completed
  completes_row usage r h = ground (arith, eq_iff r.run_id w.run_id)

  RowsAre-finish :
      (to : RunStatus) (rows : List RunRow)
      → RowsAre w running rows
      → RowsAre w to (Runs.finish w.run_id to rows)
  unfolding Runs.finish
  RowsAre-finish to rows h = All-update_where _ _ _ _ rows (finishes_row to) h

  RowsAre-Write :
      {f : LoopState → LoopState} {st : RunStatus}
      → Write w f st
      → (s : LoopState) → IsLive w s
      → RowsAre w st (f s).runs
  unfolding Runs.complete Runs.fail Runs.cancel Runs.timeout
  RowsAre-Write (completes usage) s h = All-update_where _ _ _ _ s.runs (completes_row usage) h
  RowsAre-Write fails s h = RowsAre-finish failed s.runs h
  RowsAre-Write cancels s h = RowsAre-finish RunStatus.cancelled s.runs h
  RowsAre-Write expires s h = RowsAre-finish RunStatus.timed_out s.runs h

  -- The rows have the status, and the event tells it.
  abbrev Tells : ChatEvent → RunStatus → LoopState → Type 0
  Tells e st s = RowsAre w st s.runs × Told w s e st

  Write-Told :
      {f : LoopState → LoopState} {st : RunStatus}
      → Write w f st
      → (e : ChatEvent) (to : RunStatus) (s : LoopState) → Told w s e to
      → Told w (f (tick s)) e to
  Write-Told {f} (completes usage) e to s told =
      Told-later w s (f (tick s)) e to refl (omega arith) told
  Write-Told {f} fails e to s told = Told-later w s (f (tick s)) e to refl (omega arith) told
  Write-Told {f} cancels e to s told = Told-later w s (f (tick s)) e to refl (omega arith) told
  Write-Told {f} expires e to s told = Told-later w s (f (tick s)) e to refl (omega arith) told

  Write-done :
      {f : LoopState → LoopState} {st : RunStatus}
      → Write w f st
      → (e : ChatEvent) (o : Option Fault) (s : LoopState) → o ≡ none
      → IsLive w s
      → ((s : LoopState) → Told w s e st)
      → Holds
          (λ _. Tells e st)
          (IsLive w)
          (LiveOrSettled w)
          (write_or_throw f o s).0
          (write_or_throw f o s).1
  Write-done {f} wr e none s ok h told = (RowsAre-Write wr s h, told (f s))
  Write-done wr e (some f) s ok h told = cc

  save_done :
      {f : LoopState → LoopState} {st : RunStatus}
      → Write w f st
      → (e : ChatEvent) (o : Option Fault) (s : LoopState) → o ≡ none
      → IsLive w s
      → Told w s e st
      → Tells e st (write_if f o (tick s))
  save_done wr e none s ok h told = (RowsAre-Write wr (tick s) h, Write-Told wr e _ s told)
  save_done wr e (some f) s ok h told = cc

  IsLive-Closes :
      ((n : ℕ) → w.db_fault n ≡ none) → Closes w (IsLive w) Tells (Settled w) (LiveOrSettled w)
  unfolding db safe
  IsLive-Closes ok = record {
    stable = IsLive-Stable w;
    request = λ s h. h;
    leaves = λ s h. inl h;
    writes = λ f e st wr d. record { at = λ s h. Write-done wr e _ (tick s) (ok s.moment) h d };
    saves = λ f e st wr s h d. save_done wr e _ s (ok s.moment) h d;
    posts = λ e st t s h. record {
      before = s.events;
      last = e;
      status = st;
      split = refl;
      told = Told-later w s (deliver e s) e st refl (omega arith) h.1;
      rows = h.0;
    };
    posts_leave = λ s h. inr h;
  }

-- A later state of the loop that keeps the runs, the events and the deadline that fired.
pub record Later (s t : LoopState) : Type 0 where
  pub same_runs : t.runs ≡ s.runs
  pub same_events : t.events ≡ s.events
  pub same_deadline : t.deadline_hit ≡ s.deadline_hit
  pub not_before : s.moment ≤ t.moment

pub Later-Settled : (w : World) (s t : LoopState) → Later s t → Settled w s → Settled w t
Later-Settled w s t l h = record {
  before = h.before;
  last = h.last;
  status = h.status;
  split = l.same_events ∙ h.split;
  told = Told-later w s t h.last h.status l.same_deadline l.not_before h.told;
  rows = subst (RowsAre w h.status) (sym l.same_runs) h.rows;
}

-- The `finally` block leaves the runs and the events alone.
module _ (w : World) where
  write_if-Later :
      (id : String) (o : Option Fault) (s : LoopState)
      → Later s (write_if (fail_call w id) o (tick s))
  write_if-Later id none s = record {
    same_runs = refl;
    same_events = refl;
    same_deadline = refl;
    not_before = omega arith;
  }
  write_if-Later id (some e) s = record {
    same_runs = refl;
    same_events = refl;
    same_deadline = refl;
    not_before = omega arith;
  }

  close_open_calls-Settled :
      (ids : List String) (s : LoopState) → Settled w s → Settled w (close_open_calls w ids s)
  unfolding close_open_calls safe
  close_open_calls-Settled [] s h = h
  close_open_calls-Settled (id ∷ ids) s h =
      close_open_calls-Settled ids _
        (Later-Settled w s _ (write_if-Later id (w.db_fault s.moment) s) h)

  abbrev pub SettledWhenReturned : Outcome (Unit {0}) × LoopState → Type 0
  SettledWhenReturned (r, s) = Holds (λ _. Settled w) (λ _. ⊥) (λ _. Unit {0}) r s

  finalize-Settled :
      (r : Outcome (Unit {0})) (s : LoopState)
      → Holds (λ _. Settled w) (λ _. ⊥) (LiveOrSettled w) r s
      → SettledWhenReturned (r, finalize w s)
  unfolding finalize
  finalize-Settled (returned a) s h = close_open_calls-Settled s.open_tool_calls s h
  finalize-Settled (thrown f) s h = h
  finalize-Settled stopped s h = tt

-- Where the writes of the database succeed and the run's row, if there is one, is `running` at the
-- start: unless the consumer leaves at a `yield`, the loop returns; its last event is terminal and
-- tells the status that the run's row then has. After `message_completed` the row is `completed`.
-- After `run_failed` the row is `failed` under the code MAX_ITERATIONS, or it goes with what
-- `classifyTerminal` finds at one of the loop's moments, of the deadline that fired and of the abort
-- signal: a deadline, and the row is `timed_out` under TIMED_OUT; an abort, and it is `cancelled`
-- under CANCELLED; neither, and it is `failed` (under a code of which nothing is said: the error's own).
pub run_agent_loop-Settled :
    (w : World) (prepared : Option String) (content : String) (s : LoopState)
    → ((n : ℕ) → w.db_fault n ≡ none)
    → IsLive w s
    → SettledWhenReturned w (run_agent_loop w prepared content s)
unfolding run_agent_loop finally
run_agent_loop-Settled w prepared content s ok h =
    let (r, t) = catch (attempt w prepared content) (on_error w) s in
    finalize-Settled w r t (
      (closes-caught w (IsLive w) _ (Settled w) (LiveOrSettled w) (IsLive-Closes w ok) prepared
          content).at
        s h)
