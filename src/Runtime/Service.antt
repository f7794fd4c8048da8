-- ===== src/Runtime/Service.antt =====
-- packages/runtime/src/run-execution-service.ts: the owner of run ids, session locks and abort
-- controllers. An operation is the steps between its awaits, so that operations interleave.
pub mod Steps
pub mod Exclusive
pub mod Terminal
pub mod Unfinished
use swift_agent.Common.{
  ℕ, ◌+◌, String, Bool, true, false, List, [], ◌∷◌, Option, none, some, ◌⊎◌, inl, inr,
  if◌then◌else◌, has_string, add_string, remove_string, get_key, set_key, delete_key,
}
use swift_agent.Shared.{Fault}
use swift_agent.Db.Runs
use swift_agent.Runtime.Deadlines.{Signal}
use swift_agent.Runtime.Engine.{AgentRecord, execute_prepared_run}
use swift_agent.Runtime.Exec.{Outcome, returned, thrown, stopped, throw, ◌>>=◌, ◌>>◌}
use swift_agent.Runtime.Loop.Defs.{World, LoopState, M, db, safe, create_message, user}
use swift_agent.Runtime.Loop.Run.{create_run, cancel_run}
use swift_agent.Runtime.SessionLock.{SessionLock, acquire, release}

-- `made` counts the abort controllers, `aborted` holds those that were aborted.
pub record Service : Type 0 where
  pub lock : SessionLock
  pub active_runs : List (String × ℕ)
  pub cancelled_runs : List String
  pub made : ℕ
  pub aborted : List ℕ

abbrev pub grant : String → (Fault ⊎ ℕ) × SessionLock → Service → Option Fault × Service
grant run_id (inl f, l) v = (some f, record v { lock = l })
grant run_id (inr abort, l) v = (
  none,
  record v { lock = l; active_runs = set_key run_id v.made v.active_runs; made = v.made + 1 },
)

-- `start`, up to its first await: the fault is thrown to the caller.
unfoldable pub start : String → String → Service → Option Fault × Service
start session_id run_id v = grant run_id (acquire session_id run_id v.lock) v

-- What every exit of a run does, the `catch` of the setup included.
unfoldable pub free : String → String → Service → Service
free session_id run_id v = record v {
  active_runs = delete_key run_id v.active_runs;
  lock = release session_id run_id v.lock;
}

abbrev pub request_at : String → Option ℕ → Service → Service
request_at run_id none v = v
request_at run_id (some abort) v = record v {
  cancelled_runs = add_string run_id v.cancelled_runs;
  aborted = abort ∷ v.aborted;
}

-- `requestCancel`
unfoldable pub request_cancel : String → Service → Service
request_cancel run_id v = request_at run_id (get_key run_id v.active_runs) v

-- The setup of a run, on what `resolveRunPrereqs` answers: the run's row, then the user's message.
unfoldable pub setup : World → Fault ⊎ AgentRecord → String → String → M (Unit {0})
setup w (inl f) user_message_id content = throw f
setup w (inr a) user_message_id content = do
  db w (create_run (record w { model = a.model }))
  create_message w user_message_id user content

-- The `finally` of `drive` on the database: a requested cancellation is written, best effort.
abbrev pub cancel_if : World → Bool → LoopState → LoopState
cancel_if w true s = safe w (cancel_run w) s
cancel_if w false s = s

-- The `finally` of `drive`, when the events are drained.
unfoldable pub finish_drive : World → Service → LoopState → Service × LoopState
finish_drive w v s = (
  free w.session_id w.run_id
      (record v { cancelled_runs = remove_string w.run_id v.cancelled_runs }),
  cancel_if w (has_string w.run_id v.cancelled_runs) s,
)

-- What the second `resolveRunPrereqs` answers, the total deadline with the times at which it is
-- armed and disposed of, the signal, the message, and the service when the events are drained.
pub record Drive : Type 0 where
  pub prereqs : Fault ⊎ AgentRecord
  pub total_run_ms : Option ℕ
  pub armed : ℕ
  pub disposed : ℕ
  pub signal : Signal
  pub user_message_id : String
  pub content : String
  pub drained : Service

unfoldable pub drive : World → Drive → LoopState → Outcome (Unit {0}) × (Service × LoopState)
unfolding finish_drive
drive w d s =
    let (r, t) =
      execute_prepared_run w d.prereqs d.total_run_ms d.armed d.disposed d.signal d.user_message_id
        d.content s in
    (r, finish_drive w d.drained t)

abbrev pub after_setup :
    World
    → Drive
    → Service
    → Outcome (Unit {0}) × LoopState
    → Outcome (Unit {0}) × (Service × LoopState)
after_setup w d v (returned u, s) = drive w d s
after_setup w d v (thrown f, s) = (thrown f, (free w.session_id w.run_id v, s))
after_setup w d v (stopped, s) = (stopped, (free w.session_id w.run_id v, s))

-- `start` after the lock: `v` is the service when the setup throws.
unfoldable pub start_locked :
    World
    → Fault ⊎ AgentRecord
    → Drive
    → Service
    → LoopState
    → Outcome (Unit {0}) × (Service × LoopState)
unfolding drive
start_locked w first d v s = after_setup w d v (setup w first d.user_message_id d.content s)
