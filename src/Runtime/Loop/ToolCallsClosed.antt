-- ===== src/Runtime/Loop/ToolCallsClosed.antt =====
-- No tool call is left `started` when the loop has ended.
use swift_agent.Common.{
  ℕ, String, true, false, ◌≡◌, List, [], ◌∷◌, Option, none, some, arith, eq_iff, All, All-append,
  has_string, add_string, remove_string, has_string-add_self, has_string-add_of,
  has_string-remove_of, if◌then◌else◌, All-mono, ◌+◌, ◌≤◌, ap, sym, subst, inl, inr, Bool-cases,
  false≢true,
}
use swift_agent.Json.{Json}
use swift_agent.Shared.{ToolCallStatus, failed}
use swift_agent.Db.Table.{All-update_where}
use swift_agent.Db.ToolCalls.{ToolCallRow, is_started, is_open}
use swift_agent.Db.ToolCalls
use swift_agent.Runtime.Exec.{catch, finally}
use swift_agent.Runtime.Loop.Defs.{World, LoopState, PreparedCall, safe, write_if}
use swift_agent.Runtime.Loop.Calls.{open_call, close_call}
use swift_agent.Runtime.Loop.Walk.{Stable}
use swift_agent.Runtime.Loop.Whole.{Keeps-caught}
use swift_agent.Runtime.Loop.Run.{
  attempt, on_error, close_open_calls, finalize, fail_call, run_agent_loop,
}

-- A row that is still started is in the list.
abbrev pub Covers : List String → ToolCallRow → Type 0
Covers ids r = is_started r.status ≡ true → has_string r.call_id ids ≡ true

abbrev pub Tracked : LoopState → Type 0
Tracked s = All (Covers s.open_tool_calls) s.tool_calls

-- The row is not `started`.
abbrev pub IsClosed : ToolCallRow → Type 0
IsClosed r = is_started r.status ≡ false

opens_row :
    (id : String) (ids : List String) (r : ToolCallRow)
    → Covers ids r
    → Covers (add_string id ids) r
opens_row id ids r h q = has_string-add_of r.call_id id ids (h q)

open_call-Tracked :
    (w : World) (p : PreparedCall) (input : Json) (s : LoopState)
    → Tracked s
    → Tracked (open_call w p input s)
unfolding ToolCalls.create
open_call-Tracked w p input s h =
    All-append (Covers (add_string p.swift_call_id s.open_tool_calls)) s.tool_calls _
      (All-mono (opens_row p.swift_call_id s.open_tool_calls) s.tool_calls h)
      ((λ q. has_string-add_self p.swift_call_id s.open_tool_calls), tt)

closes_row :
    (id : String) (ids : List String) (output : Json) (to : ToolCallStatus)
    → is_started to ≡ false
    → (r : ToolCallRow) → Covers ids r
    → Covers
        (remove_string id ids)
        (if is_open id r then record r { output = some output; status = to } else r)
closes_row id ids output to t r h =
    ground (arith, eq_iff r.call_id id, eq_iff id r.call_id, has_string-remove_of r.call_id id ids)

close_call-Tracked :
    (w : World) (p : PreparedCall) (output : Json) (to : ToolCallStatus) (s : LoopState)
    → is_started to ≡ false
    → Tracked s
    → Tracked (close_call w p output to s)
unfolding ToolCalls.update_result
close_call-Tracked w p output to s t h =
    All-update_where _ _ (Covers s.open_tool_calls)
      (Covers (remove_string p.swift_call_id s.open_tool_calls)) s.tool_calls
      (closes_row p.swift_call_id s.open_tool_calls output to t) h

Tracked-Stable : (w : World) → Stable w Tracked
Tracked-Stable w = record {
  ticks = λ s h. h;
  delivers = λ e s t h. h;
  appends = λ m s h. h;
  texts = λ t s h. h;
  usages = λ u s h. h;
  collects = λ c s h. h;
  counts = λ s h. h;
  deadlines = λ f s h. h;
  creates = λ s h. h;
  opens = open_call-Tracked w;
  closes = close_call-Tracked w;
  executes = λ p s valid h. h;
}

-- The writes of the database succeed from a moment on.
abbrev pub WritesFrom : World → ℕ → Type 0
WritesFrom w m = (n : ℕ) → m ≤ n → w.db_fault n ≡ none

safe_writes :
    (w : World) (f : LoopState → LoopState) (s : LoopState)
    → w.db_fault s.moment ≡ none
    → safe w f s ≡ f (record s { moment = s.moment + 1 })
unfolding safe
safe_writes w f s e = ap (λ o. write_if f o (record s { moment = s.moment + 1 })) e

fails_row :
    (id : String) (ids : List String) (r : ToolCallRow)
    → Covers (id ∷ ids) r
    → Covers ids (if is_open id r then record r { status = failed } else r)
fails_row id ids r h = ground (arith, eq_iff r.call_id id, eq_iff id r.call_id)

covered_by_none : (r : ToolCallRow) → Covers [] r → IsClosed r
covered_by_none r h = elim (Bool-cases (is_started r.status)) [
  | inl e ↦ absurd (false≢true (h e))
  | inr e ↦ e
]

close_open_calls-closes :
    (w : World) (ids : List String) (s : LoopState)
    → WritesFrom w s.moment
    → All (Covers ids) s.tool_calls
    → All IsClosed (close_open_calls w ids s).tool_calls
unfolding close_open_calls
close_open_calls-closes w [] s ok h = All-mono covered_by_none s.tool_calls h
close_open_calls-closes w (id ∷ ids) s ok h =
    subst (λ x. All IsClosed (close_open_calls w ids x).tool_calls)
      (sym (safe_writes w (fail_call w id) s (ok s.moment (omega arith))))
      (close_open_calls-closes w ids _ (λ n m. ok n (omega arith))
        (unfold ToolCalls.fail in
          All-update_where _ _ (Covers (id ∷ ids)) (Covers ids) s.tool_calls (fails_row id ids) h))

-- The state when the `finally` block begins.
abbrev pub before_finally : World → Option String → String → LoopState → LoopState
before_finally w prepared content s = (catch (attempt w prepared content) (on_error w) s).1

-- Whether the loop completes, fails, is cancelled, times out or is left by its consumer at a
-- `yield`: once it has ended, no row of the tool_calls table is `started`, provided that at the
-- start every `started` row was tracked as open, and that the writes of the `finally` block succeed
-- (earlier writes may fail).
pub run_agent_loop-closes_calls :
    (w : World) (prepared : Option String) (content : String) (s : LoopState)
    → Tracked s
    → WritesFrom w (before_finally w prepared content s).moment
    → All IsClosed (run_agent_loop w prepared content s).1.tool_calls
unfolding run_agent_loop finally finalize
run_agent_loop-closes_calls w prepared content s h ok =
    let r = before_finally w prepared content s in
    close_open_calls-closes w r.open_tool_calls r ok (
      (Keeps-caught w Tracked (Tracked-Stable w) (λ e s h. h) (λ s h. h) (λ rows s h. h) prepared
          content).at
        s h)
