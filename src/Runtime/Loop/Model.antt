-- ===== src/Runtime/Loop/Model.antt =====
-- One model call of the loop: the stream under its deadline.
use swift_agent.Common.{◌<>◌, ℕ, ◌+◌, String, List, [], ◌∷◌, ◌++◌, Option, none, some, keep, str_eq}
use swift_agent.Shared.{ChatEvent, DeadlineScope, Fault}
use swift_agent.Runtime.Deadlines.{aborted, derive_call_deadline, timeout_reason}
use swift_agent.Runtime.Exec.{
  Outcome, returned, thrown, pure, throw, gets, modify, catch, ◌>>=◌, ◌>>◌,
}
use swift_agent.Runtime.Tools.{to_model_tool_schemas}
use swift_agent.Runtime.Loop.Defs.{
  World, LoopState, M, tick, emit, clock, MessageRecord, Chunk, tool_call, finish, Stream,
}
use swift_agent.Runtime.Loop.Defs

abbrev pub raise_if : Option Fault → LoopState → Outcome (Unit {0}) × LoopState
raise_if none s = (returned tt, s)
raise_if (some f) s = (thrown f, s)

-- An error that is thrown, if there is one.
abbrev pub throw_if_some : Option Fault → M (Unit {0})
throw_if_some none = pure tt
throw_if_some (some f) = throw f

-- `if (fired) deadlineHit = fired`
abbrev pub note_deadline : Option Fault → LoopState → LoopState
note_deadline none s = s
note_deadline (some f) s = record s { deadline_hit = some f }

module _ (w : World) where
  -- `throwIfAborted`
  unfoldable pub throw_if_aborted : M (Unit {0})
  throw_if_aborted s = raise_if (aborted w.abort_signal (w.now s.moment)) (tick s)

  -- One chunk of the stream.
  unfoldable pub handle_chunk : String → Chunk → M (Unit {0})
  handle_chunk assistant_message_id (Chunk.token text) = do
    modify λ s. record s { assistant_text = s.assistant_text <> text }
    emit w (ChatEvent.token w.run_id w.session_id assistant_message_id text)
  handle_chunk assistant_message_id (tool_call chunk) =
      modify λ s. record s { chunks = s.chunks ++ chunk ∷ [] }
  handle_chunk assistant_message_id (finish usage) = modify λ s. record s { last_usage = usage }

  -- `for await (const chunk of stream)`
  unfoldable pub consume : String → List Chunk → Option Fault → M (Unit {0})
  unfolding throw_if_aborted handle_chunk
  consume assistant_message_id [] ending = throw_if_some ending
  consume assistant_message_id (c ∷ cs) ending = do
    throw_if_aborted
    handle_chunk assistant_message_id c
    consume assistant_message_id cs ending

  -- The `catch` of the model call: a fired deadline is noted, and the error goes on.
  unfoldable pub on_model_error : ℕ → Fault → M (Unit {0})
  on_model_error armed error = do
    time ← clock w
    modify (
        note_deadline (
          timeout_reason
            (derive_call_deadline w.timeout_text w.abort_signal DeadlineScope.model_call
              w.model_timeout_ms armed time)
            time))
    throw error

  -- `deps.db.messages.listBySession(ctx.sessionId)`
  abbrev pub of_session : List MessageRecord → List MessageRecord
  of_session = keep λ m. str_eq m.session_id w.session_id

  abbrev pub open_stream : LoopState → Stream
  open_stream s = w.generate (of_session s.messages) (to_model_tool_schemas w.tools) s.moment

  -- The read of the history, `resolveForModel`, the request and its stream.
  unfoldable pub model_call : String → M (Unit {0})
  unfolding consume on_model_error
  model_call assistant_message_id = do
    Defs.db w λ s. record s { chunks = [] }
    throw_if_some w.provider_fault
    stream ← gets open_stream
    modify λ s. record s { requests = s.requests + 1 }
    armed ← clock w
    catch (consume assistant_message_id stream.chunks stream.failure) (on_model_error armed)
