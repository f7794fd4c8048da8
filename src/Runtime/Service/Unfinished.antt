-- ===== src/Runtime/Service/Unfinished.antt =====
-- run-execution-service.ts: a run that fails between its setup and its loop.
use swift_agent.Common.{
  ℕ, false, ◌≡◌, refl, ap, subst, none, [], ◌∷◌, sym, inl, inr, ◌++◌, has_string, remove_string,
  get_key-delete_same,
}
use swift_agent.Shared.{Fault, running}
use swift_agent.Db.Runs
use swift_agent.Db.Runs.{RunRow, is_live, is_running}
use swift_agent.Runtime.Exec.{Outcome, returned, thrown, stopped, throw}
use swift_agent.Runtime.Exec.Rules.{Holds}
use swift_agent.Runtime.Loop.Defs.{World, LoopState, create_message, M}
use swift_agent.Runtime.Engine.{AgentRecord, execute_prepared_run}
use swift_agent.Runtime.Service.{
  Service, after_setup, Drive, drive, setup, start_locked, cancel_if, finish_drive, free,
  request_cancel, request_at,
}
use swift_agent.Runtime.Service.Terminal.{db-returns, db_then, Returns}

-- The row that the setup of a run inserts.
abbrev pub new_run : World → AgentRecord → RunRow
new_run w a = record {
  run_id = w.run_id;
  session_id = w.session_id;
  status = running;
  model = a.model;
  token_usage = none;
}

-- What a run leaves that failed with `f` before its loop: its row is `running`, nothing was told,
-- and no request to cancel the run does anything any more.
abbrev pub LeftRunning :
    World → AgentRecord → Fault → LoopState → Outcome (Unit {0}) × (Service × LoopState) → Type 0
LeftRunning w a f s (r, (v, t)) =
    (r ≡ thrown f)
    × (t.runs ≡ s.runs ++ new_run w a ∷ [])
    × (t.events ≡ s.events)
    × (request_cancel w.run_id v ≡ v)

module _ (w : World) (a : AgentRecord) (f : Fault) where
  drive-LeftRunning :
      (d : Drive) (s t : LoopState)
      → d.prereqs ≡ inl f
      → has_string w.run_id d.drained.cancelled_runs ≡ false
      → t.runs ≡ s.runs ++ new_run w a ∷ []
      → t.events ≡ s.events
      → LeftRunning w a f s (drive w d t)
  unfolding drive finish_drive free execute_prepared_run throw request_cancel
  drive-LeftRunning d s t failed quiet rows silent =
      let v : Service =
        free w.session_id w.run_id
          (record d.drained { cancelled_runs = remove_string w.run_id d.drained.cancelled_runs }) in
      let gone : request_cancel w.run_id v ≡ v =
        ap (λ o. request_at w.run_id o v) (get_key-delete_same w.run_id d.drained.active_runs) in
      subst
        (λ o. LeftRunning w a f s (
          let (r, u) =
            execute_prepared_run w o d.total_run_ms d.armed d.disposed d.signal d.user_message_id
              d.content t in
          (r, finish_drive w d.drained u)))
        (sym failed)
        (subst (λ c. LeftRunning w a f s (thrown f, (v, cancel_if w c t))) (sym quiet)
          (refl, rows, silent, gone))

  after_setup-LeftRunning :
      (d : Drive) (v : Service) (s : LoopState) (r : Outcome (Unit {0})) (t : LoopState)
      → d.prereqs ≡ inl f
      → has_string w.run_id d.drained.cancelled_runs ≡ false
      → Holds
          (λ _ t. (t.runs ≡ s.runs ++ new_run w a ∷ []) × (t.events ≡ s.events))
          (λ _. ⊥)
          (λ _. ⊥)
          r
          t
      → LeftRunning w a f s (after_setup w d v (r, t))
  after_setup-LeftRunning d v s (returned u) t failed quiet h =
      drive-LeftRunning d s t failed quiet h.0 h.1
  after_setup-LeftRunning d v s (thrown g) t failed quiet h = absurd h
  after_setup-LeftRunning d v s stopped t failed quiet h = absurd h

-- Where the session and the agent resolve for the setup of a run but not again for its loop, the
-- writes of the database succeed and no cancellation is requested: the start throws the fault, the
-- run has a row that is still `running`, no event was told, and as the registry has forgotten the
-- run, a later request to cancel it does nothing.
pub start_locked-leaves_running :
    (w : World) (a : AgentRecord) (f : Fault) (d : Drive) (v : Service) (s : LoopState)
    → ((n : ℕ) → w.db_fault n ≡ none)
    → d.prereqs ≡ inl f
    → has_string w.run_id d.drained.cancelled_runs ≡ false
    → LeftRunning w a f s (start_locked w (inr a) d v s)
unfolding start_locked setup create_message Runs.create
start_locked-leaves_running w a f d v s ok failed quiet =
    let m : M (Unit {0}) = setup w (inr a) d.user_message_id d.content in
    let Inserted : LoopState → Type 0 =
      λ t. (t.runs ≡ s.runs ++ new_run w a ∷ []) × (t.events ≡ s.events) in
    after_setup-LeftRunning w a f d v s (m s).0 (m s).1 failed quiet (
      db_then w ok Inserted _ _ s
        (subst (Returns w ok Inserted) (sym (db-returns w ok _ _)) (refl, refl)))
