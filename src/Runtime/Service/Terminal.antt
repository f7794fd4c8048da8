-- ===== src/Runtime/Service/Terminal.antt =====
-- run-execution-service.ts: what `start` leaves in the run's row.
use swift_agent.Common.{
  ℕ, String, Bool, true, false, ◌≡◌, refl, ap, subst, none, some, List, [], ◌∷◌, sym, false≢true,
  arith, eq_iff, All, All-append, All-mono, inl, inr, if◌then◌else◌, has_string, get_key,
  get_key-delete_same,
}
use swift_agent.Shared.{
  ChatEvent, message_started, token, tool_call_started, tool_call_completed, message_completed,
  run_failed, RunStatus, running, total_run,
}
use swift_agent.Db.Runs
use swift_agent.Db.Runs.{RunRow, is_live, is_running}
use swift_agent.Db.Table.{All-update_where}
use swift_agent.Runtime.Exec.{Outcome, returned, thrown, stopped, continue, ◌>>=◌}
use swift_agent.Runtime.Exec.Rules.{Holds}
use swift_agent.Runtime.Loop.Closing.{Told, Told-later, Says}
use swift_agent.Runtime.Loop.Defs.{
  World, LoopState, tick, safe, db, write_if, write_or_throw, create_message, M,
}
use swift_agent.Runtime.Loop.Run.{cancel_run, run_agent_loop, Cause, timed_out, cancelled, failure}
use swift_agent.Runtime.Loop.Settled.{
  RowsAre, IsLive, Settled, SettledWhenReturned, run_agent_loop-Settled,
}
use swift_agent.Runtime.Engine.{AgentRecord, execute_prepared_run, run_of}
use swift_agent.Runtime.Deadlines.{Signal, any_signal, arm_controller}
use swift_agent.Runtime.Service.{
  Service, after_setup, Drive, drive, setup, start_locked, cancel_if, finish_drive, free,
}

-- No row of the run is `running`.
abbrev pub IsOver : World → LoopState → Type 0
IsOver w s = All (λ r. r.run_id ≡ w.run_id → is_running r.status ≡ false) s.runs

all_unit : (rows : List RunRow) → All (λ r. Unit {0}) rows
all_unit [] = tt
all_unit (r ∷ rows) = (tt, all_unit rows)

Says-over : (c : Cause) (code : String) (st : RunStatus) → Says c code st → is_running st ≡ false
Says-over (timed_out fired) code st (same, told) = ap is_running told
Says-over cancelled code st (same, told) = ap is_running told
Says-over failure code st told = ap is_running told

told_over :
    (w : World) (s : LoopState) (e : ChatEvent) (st : RunStatus)
    → Told w s e st
    → is_running st ≡ false
told_over w u (message_completed m r s) st told = ap is_running told
told_over w u (run_failed r s code m) st (inl (same, told)) = ap is_running told
told_over w u (run_failed r s code m) st (inr (k, below, says)) = Says-over _ code st says
told_over w u (message_started m r s) st told = absurd told
told_over w u (token r s m t) st told = absurd told
told_over w u (tool_call_started c r s t) st told = absurd told
told_over w u (tool_call_completed c r s t x) st told = absurd told

-- The signal of the loop that `drive` starts: the caller's and the total deadline's.
abbrev pub signal_of : World → Drive → Signal
signal_of w d =
    any_signal d.signal (arm_controller w.timeout_text total_run d.total_run_ms d.armed d.disposed)

module _ (w : World) where
  -- The guard of `cancel` leaves a row alone that tells another status than `running`.
  cancelled_row :
      (st : RunStatus) (r : RunRow)
      → is_running st ≡ false
      → (r.run_id ≡ w.run_id → r.status ≡ st)
      → (if is_live w.run_id r then record r { status = RunStatus.cancelled } else r).run_id
        ≡ w.run_id
      → (if is_live w.run_id r then record r { status = RunStatus.cancelled } else r).status ≡ st
  cancelled_row st r over h = ground (arith, over, h, eq_iff r.run_id w.run_id)

  ended_row :
      (r : RunRow)
      → (if is_live w.run_id r then record r { status = RunStatus.cancelled } else r).run_id
        ≡ w.run_id
      → is_running
          (if is_live w.run_id r then record r { status = RunStatus.cancelled } else r).status
        ≡ false
  ended_row r = ground (arith, eq_iff r.run_id w.run_id)

  cancel-RowsAre :
      (st : RunStatus) (rows : List RunRow)
      → is_running st ≡ false
      → RowsAre w st rows
      → RowsAre w st (Runs.cancel w.run_id rows)
  unfolding Runs.cancel Runs.finish
  cancel-RowsAre st rows over h = All-update_where _ _ _ _ rows (λ r. cancelled_row st r over) h

  -- What a run leaves: its row tells what the last event of its loop told, unless the consumer
  -- left; after a requested cancellation the row is over in any case; and the registry has
  -- forgotten the run.
  abbrev pub Left : World → Service → Outcome (Unit {0}) × (Service × LoopState) → Type 0
  Left loop drained (r, (v, t)) =
      SettledWhenReturned loop (r, t)
      × (has_string w.run_id drained.cancelled_runs ≡ true → IsOver w t)
      × (get_key w.run_id v.active_runs ≡ none)

  module _ (ok : (n : ℕ) → w.db_fault n ≡ none) where
    cancel_if-Settled :
        (b : AgentRecord) (signal : Signal) (c : Bool) (s : LoopState)
        → Settled (run_of w b signal) s
        → Settled (run_of w b signal) (cancel_if w c s)
    unfolding safe
    cancel_if-Settled b signal false s h = h
    cancel_if-Settled b signal true s h =
        let loop : World = run_of w b signal in
        let over = told_over loop s h.last h.status h.told in
        let t : LoopState = cancel_run w (tick s) in
        subst (λ o. Settled loop (write_if (cancel_run w) o (tick s))) (sym (ok s.moment))
          (record {
            before = h.before;
            last = h.last;
            status = h.status;
            split = h.split;
            told = Told-later loop s t h.last h.status refl (omega arith) h.told;
            rows = cancel-RowsAre h.status s.runs over h.rows;
          })

    cancel_if-IsOver : (b : Bool) (s : LoopState) → b ≡ true → IsOver w (cancel_if w b s)
    unfolding safe Runs.cancel Runs.finish
    cancel_if-IsOver false s e = absurd (false≢true e)
    cancel_if-IsOver true s e =
        subst (λ o. IsOver w (write_if (cancel_run w) o (tick s))) (sym (ok s.moment))
          (All-update_where _ _ (λ r. Unit {0}) _ s.runs (λ r u. ended_row r) (all_unit s.runs))

    pub db-returns :
        (f : LoopState → LoopState) (s : LoopState) → db w f s ≡ (returned tt, f (tick s))
    unfolding db
    db-returns f s = ap (λ o. write_or_throw f o (tick s)) (ok s.moment)

    -- What holds of the state in which an action returns; it does not throw.
    abbrev pub Returns : (LoopState → Type 0) → Outcome (Unit {0}) × LoopState → Type 0
    Returns P (r, s) = Holds (λ _. P) (λ _. ⊥) (λ _. ⊥) r s

    pub db_then :
        (P : LoopState → Type 0) (f : LoopState → LoopState) (rest : Unit {0} → M (Unit {0}))
        (s : LoopState)
        → Returns P (rest tt (f (tick s)))
        → Returns P ((db w f >>= rest) s)
    unfolding ◌>>=◌
    db_then P f rest s h = subst (λ p. Returns P (continue p.0 rest p.1)) (sym (db-returns f s)) h

    setup-IsLive :
        (a : AgentRecord) (user_message_id content : String) (s : LoopState)
        → All (λ r. r.run_id ≡ w.run_id → ⊥) s.runs
        → Returns (IsLive w) (setup w (inr a) user_message_id content s)
    unfolding setup create_message Runs.create
    setup-IsLive a user_message_id content s fresh = db_then (IsLive w) _ _ s (
        subst (Returns (IsLive w)) (sym (db-returns _ _)) (
          All-append (λ r. r.run_id ≡ w.run_id → r.status ≡ running) s.runs _
            (All-mono (λ r no e. absurd (no e)) s.runs fresh) ((λ e. refl), tt)))

    finished-Settled :
        (b : AgentRecord) (signal : Signal) (c : Bool) (r : Outcome (Unit {0})) (s : LoopState)
        → SettledWhenReturned (run_of w b signal) (r, s)
        → SettledWhenReturned (run_of w b signal) (r, cancel_if w c s)
    finished-Settled b signal c (returned u) s h = cancel_if-Settled b signal c s h
    finished-Settled b signal c (thrown f) s h = h
    finished-Settled b signal c stopped s h = tt

    drive-Left :
        (b : AgentRecord) (d : Drive) (s : LoopState)
        → d.prereqs ≡ inr b
        → IsLive w s
        → Left (run_of w b (signal_of w d)) d.drained (drive w d s)
    unfolding drive finish_drive free execute_prepared_run
    drive-Left b d s resolved live =
        let signal : Signal = signal_of w d in
        let c : Bool = has_string w.run_id d.drained.cancelled_runs in
        let m : M (Unit {0}) =
          run_agent_loop (run_of w b signal) (some d.user_message_id) d.content in
        subst
          (λ o. Left (run_of w b (signal_of w d)) d.drained (
            let (r, t) =
              execute_prepared_run w o d.total_run_ms d.armed d.disposed d.signal d.user_message_id
                d.content s in
            (r, finish_drive w d.drained t)))
          (sym resolved)
          (
            finished-Settled b signal c (m s).0 (m s).1 (
                run_agent_loop-Settled (run_of w b signal) (some d.user_message_id) d.content s ok
                  live),
            cancel_if-IsOver c (m s).1,
            get_key-delete_same w.run_id d.drained.active_runs,
          )

    after_setup-Left :
        (b : AgentRecord) (d : Drive) (v : Service) (r : Outcome (Unit {0})) (s : LoopState)
        → d.prereqs ≡ inr b
        → Returns (IsLive w) (r, s)
        → Left (run_of w b (signal_of w d)) d.drained (after_setup w d v (r, s))
    after_setup-Left b d v (returned u) s resolved live = drive-Left b d s resolved live
    after_setup-Left b d v (thrown f) s resolved live = absurd live
    after_setup-Left b d v stopped s resolved live = absurd live

-- A run that starts under a new id, where its session and agent resolve both times and the writes
-- of the database succeed: unless the streaming caller leaves, the loop returns, and the run's row
-- has the status that the last event tells (`completed`; `failed` at the iteration limit; else
-- `timed_out`, `cancelled` or `failed` as the loop classified its end by the deadlines and the
-- abort signal), also when a cancellation was requested meanwhile; if one was requested, no row of the run is `running` however the loop ended; and the registry has
-- forgotten the run.
pub start_locked-Left :
    (w : World) (a b : AgentRecord) (d : Drive) (v : Service) (s : LoopState)
    → ((n : ℕ) → w.db_fault n ≡ none)
    → All (λ r. r.run_id ≡ w.run_id → ⊥) s.runs
    → d.prereqs ≡ inr b
    → Left w (run_of w b (signal_of w d)) d.drained (start_locked w (inr a) d v s)
unfolding start_locked
start_locked-Left w a b d v s ok fresh resolved =
    let m : M (Unit {0}) = setup w (inr a) d.user_message_id d.content in
    after_setup-Left w ok b d v (m s).0 (m s).1 resolved
      (setup-IsLive w ok a d.user_message_id d.content s fresh)
