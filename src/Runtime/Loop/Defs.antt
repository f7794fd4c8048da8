-- ===== src/Runtime/Loop/Defs.antt =====
-- The state and the environment of `runAgentLoop`, and its awaited primitives.
use swift_agent.Common.{ℕ, ◌+◌, String, Bool, true, false, List, [], ◌∷◌, ◌++◌, Option, none, some}
use swift_agent.Json.{Json, JsonText}
use swift_agent.Shared.{ChatEvent, DeadlineScope, Fault}
use swift_agent.Db.Runs.{RunRow}
use swift_agent.Db.ToolCalls.{ToolCallRow}
use swift_agent.Runtime.Deadlines.{Signal}
use swift_agent.Runtime.Exec.{Outcome, returned, thrown, stopped, Exec}
use swift_agent.Runtime.Tools.{ToolDefinition, ToolSchema, Compiler}

-- packages/shared/src/types/message.ts
pub data MessageRole : Type 0 where
  system user assistant tool : MessageRole

pub record MessageRecord : Type 0 where
  pub message_id : String
  pub session_id : String
  pub run_id : Option String
  pub role : MessageRole
  pub content : String

-- The usage that a stream reports; each count may be missing.
pub record Usage : Type 0 where
  pub input_tokens : Option ℕ
  pub output_tokens : Option ℕ
  pub total_tokens : Option ℕ

pub record ToolCallChunk : Type 0 where
  pub tool_name : String
  pub call_id : String
  pub arguments : Option Json

pub data Chunk : Type 0 where
  token : String → Chunk
  tool_call : ToolCallChunk → Chunk
  finish : Usage → Chunk

-- What a provider streams, and how the stream ends.
pub record Stream : Type 0 where
  pub chunks : List Chunk
  pub failure : Option Fault

pub record PreparedCall : Type 0 where
  pub swift_call_id : String
  pub provider_call_id : String
  pub tool_name : String
  pub arguments : Option Json

pub data ToolCallResult : Type 0 where
  success : Json → ToolCallResult
  failure : String → ToolCallResult

-- An executor answers or throws.
pub data ExecutorAnswer : Type 0 where
  answers : ToolCallResult → ExecutorAnswer
  throws : Fault → ExecutorAnswer

-- The run, its options, and all that it meets: at the n-th moment the clock, the faults of the
-- database, a consumer that leaves at a `yield`, the streams, the tool runs and the random ids.
-- `no_input` is the fault of an insert of a tool call without arguments: the column is NOT NULL.
pub record World : Type 0 where
  pub session_id : String
  pub run_id : String
  pub model : String
  pub tools : List ToolDefinition
  pub max_tool_iterations : ℕ
  pub model_timeout_ms : Option ℕ
  pub tool_timeout_ms : Option ℕ
  pub abort_signal : Signal
  pub now : ℕ → ℕ
  pub db_fault : ℕ → Option Fault
  pub no_input : Fault
  pub consumer_leaves : ℕ → Bool
  pub provider_fault : Option Fault
  pub generate : List MessageRecord → List ToolSchema → ℕ → Stream
  pub execute : PreparedCall → ℕ → ExecutorAnswer
  pub fresh_id : ℕ → String
  pub json : JsonText
  pub compile : Compiler
  pub trim : String → String
  pub timeout_text : DeadlineScope → ℕ → String
  pub limit_text : ℕ → String

-- The database, what was streamed out, and the variables of the loop. `requests` and `executed`
-- record the calls of the provider and of the executor.
pub record LoopState : Type 0 where
  pub moment : ℕ
  pub messages : List MessageRecord
  pub runs : List RunRow
  pub tool_calls : List ToolCallRow
  pub events : List ChatEvent
  pub open_tool_calls : List String
  pub deadline_hit : Option Fault
  pub assistant_text : String
  pub last_usage : Usage
  pub chunks : List ToolCallChunk
  pub iteration_count : ℕ
  pub requests : ℕ
  pub executed : List PreparedCall

abbrev pub M : Type 0 → Type 0
M A = Exec LoopState A

abbrev pub tick : LoopState → LoopState
tick s = record s { moment = s.moment + 1 }

-- An awaited write of the database.
abbrev pub write_or_throw :
    (LoopState → LoopState) → Option Fault → LoopState → Outcome (Unit {0}) × LoopState
write_or_throw f none s = (returned tt, f s)
write_or_throw f (some e) s = (thrown e, s)

unfoldable pub db : World → (LoopState → LoopState) → M (Unit {0})
db w f s = write_or_throw f (w.db_fault s.moment) (tick s)

-- An awaited write that the database refuses.
unfoldable pub refused : Fault → M (Unit {0})
refused e s = (thrown e, tick s)

-- `safe(() => write)`: a failure is swallowed.
abbrev pub write_if : (LoopState → LoopState) → Option Fault → LoopState → LoopState
write_if f none s = f s
write_if f (some e) s = s

unfoldable pub safe : World → (LoopState → LoopState) → LoopState → LoopState
safe w f s = write_if f (w.db_fault s.moment) (tick s)

-- `yield event`: the event is out; the consumer may leave.
abbrev pub deliver : ChatEvent → LoopState → LoopState
deliver e s = record s { events = s.events ++ e ∷ []; moment = s.moment + 1 }

abbrev pub resume : Bool → LoopState → Outcome (Unit {0}) × LoopState
resume true s = (stopped, s)
resume false s = (returned tt, s)

unfoldable pub emit : World → ChatEvent → M (Unit {0})
emit w e s = resume (w.consumer_leaves s.moment) (deliver e s)

-- The time, and a random id.
unfoldable pub clock : World → M ℕ
clock w s = (returned (w.now s.moment), tick s)

unfoldable pub generate_id : World → M String
generate_id w s = (returned (w.fresh_id s.moment), tick s)

abbrev pub append_message : MessageRecord → LoopState → LoopState
append_message m s = record s { messages = s.messages ++ m ∷ [] }

-- `deps.db.messages.create`
unfoldable pub create_message : World → String → MessageRole → String → M (Unit {0})
unfolding db
create_message w message_id role content = db w (
    append_message (record {
      message_id = message_id;
      session_id = w.session_id;
      run_id = some w.run_id;
      role = role;
      content = content;
    }))
