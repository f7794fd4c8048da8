-- ===== src/Runtime/Engine.antt =====
-- packages/runtime/src/engine.ts: what a run needs, and the two ways to run the loop. The reads of
-- the database and the resolver of executors are arguments: each answers or throws.
use swift_agent.Common.{ℕ, String, List, Option, none, some, ◌⊎◌, inl, inr, ◌<>◌}
use swift_agent.Shared.{Fault, total_run}
use swift_agent.Runtime.Deadlines.{Signal, any_signal, arm_controller}
use swift_agent.Runtime.Exec.{Outcome, throw}
use swift_agent.Runtime.Tools.{ToolDefinition}
use swift_agent.Runtime.Loop.Defs.{World, LoopState, M}
use swift_agent.Runtime.Loop.Run.{run_agent_loop}
use swift_agent.Runtime.SessionLock.{SessionLock, acquire, release}

pub data SessionStatus : Type 0 where
  active closed : SessionStatus

pub record SessionRecord : Type 0 where
  pub session_id : String
  pub agent_id : String
  pub status : SessionStatus

pub record AgentRecord : Type 0 where
  pub agent_id : String
  pub model : String
  pub tools : List ToolDefinition

abbrev pub swift_error : String → String → Fault
swift_error code message = record { code = some code; message = message; scope = none }

-- The executor that the resolver answers is the `execute` of the world.
abbrev pub with_executor : AgentRecord → Option Fault → Fault ⊎ AgentRecord
with_executor a none = inr a
with_executor a (some f) = inl f

module _ (agents : String → Fault ⊎ Option AgentRecord)
    (resolver : AgentRecord → Option Fault) where
  abbrev pub check_agent : String → Fault ⊎ Option AgentRecord → Fault ⊎ AgentRecord
  check_agent agent_id (inl f) = inl f
  check_agent agent_id (inr none) =
      inl (swift_error "NOT_FOUND" ("Agent " <> agent_id <> " not found"))
  check_agent agent_id (inr (some a)) = with_executor a (resolver a)

  abbrev pub check_active : SessionRecord → SessionStatus → Fault ⊎ AgentRecord
  check_active s active = check_agent s.agent_id (agents s.agent_id)
  check_active s closed =
      inl (swift_error "VALIDATION" ("Session " <> s.session_id <> " is closed, not active"))

  -- `resolveRunPrereqs`, on what the read of the session answers.
  unfoldable pub resolve_run_prereqs : String → Fault ⊎ Option SessionRecord → Fault ⊎ AgentRecord
  resolve_run_prereqs session_id (inl f) = inl f
  resolve_run_prereqs session_id (inr none) =
      inl (swift_error "NOT_FOUND" ("Session " <> session_id <> " not found"))
  resolve_run_prereqs session_id (inr (some s)) = check_active s s.status

-- The run of an agent under a signal.
abbrev pub run_of : World → AgentRecord → Signal → World
run_of w a signal = record w { model = a.model; tools = a.tools; abort_signal = signal }

-- `executePreparedRun`, with the times at which the total deadline is armed and disposed of.
unfoldable pub execute_prepared_run :
    World → Fault ⊎ AgentRecord → Option ℕ → ℕ → ℕ → Signal → String → String → M (Unit {0})
execute_prepared_run w (inl f) total_run_ms armed disposed signal user_message_id content = throw f
execute_prepared_run w (inr a) total_run_ms armed disposed signal user_message_id content =
    run_agent_loop
      (run_of w a
        (any_signal signal (arm_controller w.timeout_text total_run total_run_ms armed disposed)))
      (some user_message_id) content

-- `AgentEngine.run`, the entry point that locks the session itself: the lock and the state are
-- passed on; a conflict throws before anything else.
abbrev pub run_locked : World → Fault ⊎ AgentRecord → Signal → String → M (Unit {0})
run_locked w (inl f) signal content = throw f
run_locked w (inr a) signal content = run_agent_loop (run_of w a signal) none content

abbrev pub run_acquired :
    World
    → Fault ⊎ AgentRecord
    → Signal
    → String
    → (Fault ⊎ ℕ) × SessionLock
    → LoopState
    → (Outcome (Unit {0}) × LoopState) × SessionLock
run_acquired w prereqs signal content (inl f, l) s = (throw f s, l)
run_acquired w prereqs signal content (inr abort, l) s =
    (run_locked w prereqs signal content s, release w.session_id w.run_id l)

unfoldable pub run :
    World
    → Fault ⊎ AgentRecord
    → Signal
    → String
    → SessionLock
    → LoopState
    → (Outcome (Unit {0}) × LoopState) × SessionLock
run w prereqs signal content l =
    run_acquired w prereqs signal content (acquire w.session_id w.run_id l)
