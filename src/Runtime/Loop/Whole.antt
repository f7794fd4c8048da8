-- ===== src/Runtime/Loop/Whole.antt =====
-- The walk carried through the terminal writes, the `catch` and the `finally`, for conditions that
-- those keep as well.
use swift_agent.Common.{◌+◌, String, Bool, true, false, List, [], ◌∷◌, Option, none, some}
use swift_agent.Shared.{ChatEvent, Fault}
use swift_agent.Db.Runs.{RunRow}
use swift_agent.Db.ToolCalls.{ToolCallRow}
use swift_agent.Db.ToolCalls
use swift_agent.Runtime.Exec.{catch, finally}
use swift_agent.Runtime.Exec.Rules.{Keeps, Keeps-bind, Keeps-gets, Keeps-catch, Keeps-modify}
use swift_agent.Runtime.Loop.Defs.{World, LoopState, safe, write_if, emit, resume, deliver}
use swift_agent.Runtime.Loop.Walk.{
  Stable, Keeps-db, Keeps-generate_id, Keeps-prologue, Keeps-rounds, Keeps-persist_text,
}
use swift_agent.Runtime.Loop.Run.{
  epilogue, attempt, on_error, report, Cause, timed_out, cancelled, failure, close_open_calls,
  finalize, run_agent_loop,
}

abbrev pub set_runs : List RunRow → LoopState → LoopState
set_runs rows s = record s { runs = rows }

abbrev pub fail_row : String → LoopState → LoopState
fail_row id s = record s { tool_calls = ToolCalls.fail id s.tool_calls }

module _ (w : World) (P : LoopState → Type 0) (st : Stable w P) where
  write_if_keeps :
      (f : LoopState → LoopState) (o : Option Fault) (s : LoopState)
      → ((s : LoopState) → P s → P (f s))
      → P s
      → P (write_if f o s)
  write_if_keeps f none s k p = k s p
  write_if_keeps f (some e) s k p = p

  pub safe_keeps :
      (f : LoopState → LoopState) (s : LoopState)
      → ((s : LoopState) → P s → P (f s))
      → P s
      → P (safe w f s)
  unfolding safe
  safe_keeps f s k p = write_if_keeps f _ _ k (st.ticks s p)

module _ (w : World) (P : LoopState → Type 0) (st : Stable w P)
    (ends : (e : ChatEvent) (s : LoopState) → P s → P (deliver e s))
    (request : (s : LoopState) → P s → P (record s { requests = s.requests + 1 }))
    (sets : (rows : List RunRow) (s : LoopState) → P s → P (set_runs rows s)) where
  resume_keeps : (b : Bool) (s : LoopState) → P s → P (resume b s).1
  resume_keeps true s p = p
  resume_keeps false s p = p

  Keeps-end : (e : ChatEvent) → Keeps P (emit w e)
  unfolding emit
  Keeps-end e = record { at = λ s p. resume_keeps _ _ (ends e s p) }

  Keeps-epilogue : (id : String) (over : Bool) → Keeps P (epilogue w id over)
  unfolding epilogue
  Keeps-epilogue id true = Keeps-bind _ _ (Keeps-gets _) λ text.
      Keeps-bind _ _ (Keeps-persist_text w P st id text)
        λ _. Keeps-bind _ _ (Keeps-db w P st _ (λ s. sets _ s)) λ _. Keeps-end _
  Keeps-epilogue id false = Keeps-bind _ _ (Keeps-gets _) λ text.
      Keeps-bind _ _ (Keeps-persist_text w P st id text) λ _.
        Keeps-bind _ _ (Keeps-gets _)
          λ usage. Keeps-bind _ _ (Keeps-db w P st _ (λ s. sets _ s)) λ _. Keeps-end _

  Keeps-attempt :
      (prepared : Option String) (content : String) → Keeps P (attempt w prepared content)
  unfolding attempt
  Keeps-attempt prepared content = Keeps-bind _ _ (Keeps-prologue w P st prepared content) λ _.
      Keeps-bind _ _ (Keeps-generate_id w P st) λ id.
        Keeps-bind _ _ (Keeps-rounds w P st request id _)
          λ _. Keeps-bind _ _ (Keeps-gets _) λ over. Keeps-epilogue id over

  Keeps-report : (error : Fault) (cause : Cause) → Keeps P (report w error cause)
  unfolding report
  Keeps-report error (timed_out fired) =
      Keeps-bind _ _ (Keeps-modify _ (λ s. safe_keeps w P st _ s (λ s. sets _ s))) λ _. Keeps-end _
  Keeps-report error cancelled =
      Keeps-bind _ _ (Keeps-modify _ (λ s. safe_keeps w P st _ s (λ s. sets _ s))) λ _. Keeps-end _
  Keeps-report error failure =
      Keeps-bind _ _ (Keeps-modify _ (λ s. safe_keeps w P st _ s (λ s. sets _ s))) λ _. Keeps-end _

  Keeps-on_error : (error : Fault) → Keeps P (on_error w error)
  unfolding on_error
  Keeps-on_error error = Keeps-bind _ _ (Keeps-gets _) λ cause. Keeps-report error cause

  pub Keeps-caught :
      (prepared : Option String) (content : String)
      → Keeps P (catch (attempt w prepared content) (on_error w))
  Keeps-caught prepared content = Keeps-catch _ _ (Keeps-attempt prepared content) Keeps-on_error

module _ (w : World) (P : LoopState → Type 0) (st : Stable w P)
    (ends : (e : ChatEvent) (s : LoopState) → P s → P (deliver e s))
    (request : (s : LoopState) → P s → P (record s { requests = s.requests + 1 }))
    (sets : (rows : List RunRow) (s : LoopState) → P s → P (set_runs rows s))
    (fails : (id : String) (s : LoopState) → P s → P (fail_row id s)) where
  close_open_calls-keeps : (ids : List String) (s : LoopState) → P s → P (close_open_calls w ids s)
  unfolding close_open_calls
  close_open_calls-keeps [] s p = p
  close_open_calls-keeps (id ∷ ids) s p =
      close_open_calls-keeps ids _ (safe_keeps w P st _ s (fails id) p)

  finalize_keeps : (s : LoopState) → P s → P (finalize w s)
  unfolding finalize
  finalize_keeps s p = close_open_calls-keeps s.open_tool_calls s p

  pub run_agent_loop-Keeps :
      (prepared : Option String) (content : String) → Keeps P (run_agent_loop w prepared content)
  unfolding run_agent_loop finally
  run_agent_loop-Keeps prepared content = record {
    at = λ s p. finalize_keeps _ ((Keeps-caught w P st ends request sets prepared content).at s p);
  }
