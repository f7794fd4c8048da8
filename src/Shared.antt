-- ===== src/Shared.antt =====
-- packages/shared: the events of a run, the statuses that are persisted, and errors.
use swift_agent.Common.{String, Option, none}

-- types/run.ts
pub data RunStatus : Type 0 where
  running completed failed cancelled timed_out : RunStatus

-- types/tool-call.ts
pub data ToolCallStatus : Type 0 where
  started completed failed : ToolCallStatus

-- types/events.ts: the six events; all carry the run and the session.
pub data ChatEvent : Type 0 where
  message_started : (message_id run_id session_id : String) → ChatEvent
  token : (run_id session_id message_id text : String) → ChatEvent
  tool_call_started : (call_id run_id session_id tool_name : String) → ChatEvent
  tool_call_completed : (call_id run_id session_id tool_name : String) → ToolCallStatus → ChatEvent
  message_completed : (message_id run_id session_id : String) → ChatEvent
  run_failed : (run_id session_id code message : String) → ChatEvent

-- runtime/src/deadlines.ts: the scope of a deadline
pub data DeadlineScope : Type 0 where
  model_call tool_call total_run : DeadlineScope

-- A thrown error: the code of a `SwiftAgentError` (none for any other error), the message, and the
-- scope if it is a `RunTimeoutError`.
pub record Fault : Type 0 where
  pub code : Option String
  pub message : String
  pub scope : Option DeadlineScope

-- The plain `Error`.
abbrev pub plain_error : String → Fault
plain_error text = record { code = none; message = text; scope = none }
