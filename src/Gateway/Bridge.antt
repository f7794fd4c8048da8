-- ===== src/Gateway/Bridge.antt =====
-- packages/gateway/src/session-bridge.ts (class SessionBridge): the replay buffer and the frames
-- of a session's runs. `runtime.start` is a component of its own: here its events arrive through
-- `on_event` and it settles through `on_settled`, so that the messages of several tabs interleave.
pub mod Replay
use swift_agent.Common.{
  ℕ, ◌+◌, String, Bool, true, false, not, Option, none, some, List, [], ◌∷◌, ◌++◌, ltb, str_eq,
  length, if◌then◌else◌, get_key, set_key, delete_key,
}
use swift_agent.Shared.{ChatEvent, Fault}
use swift_agent.Gateway.Connections.{
  Manager, Frame, chat, error_event, broadcast, safe_send, send_each, get_connections,
}
use swift_agent.Gateway.Channels.{Channels, publish}

pub record ReplayBuffer : Type 0 where
  pub run_id : String
  pub events : List ChatEvent

-- `cancels` records the calls of `runtime.requestCancel`.
pub record Bridge : Type 0 where
  pub connections : Manager
  pub channels : Channels
  pub max_replay_buffer_size : ℕ
  pub replay_buffers : List (String × ReplayBuffer)
  pub cancels : List String

-- `event.runId`: every event of the protocol has one.
abbrev pub run_id_of : ChatEvent → String
run_id_of (ChatEvent.message_started _ run _) = run
run_id_of (ChatEvent.token run _ _ _) = run
run_id_of (ChatEvent.tool_call_started _ run _ _) = run
run_id_of (ChatEvent.tool_call_completed _ run _ _ _) = run
run_id_of (ChatEvent.message_completed _ run _) = run
run_id_of (ChatEvent.run_failed run _ _ _) = run

-- The buffer of the event's run: the one there is, or a new one.
abbrev pub current_buffer : String → Option ReplayBuffer → ReplayBuffer
current_buffer run none = record { run_id = run; events = [] }
current_buffer run (some b) =
    if str_eq b.run_id run then b else record { run_id = run; events = [] }

abbrev pub push_event : ℕ → ChatEvent → ReplayBuffer → ReplayBuffer
push_event size e b =
    if ltb (length b.events) size then record b { events = b.events ++ e ∷ [] } else b

unfoldable pub buffer_event : String → ChatEvent → Bridge → Bridge
buffer_event sid e b = if str_eq (run_id_of e) "" then b else record b {
  replay_buffers =
      set_key sid
        (push_event b.max_replay_buffer_size e
          (current_buffer (run_id_of e) (get_key sid b.replay_buffers)))
        b.replay_buffers;
}

-- `hasActiveRun`
abbrev pub is_buffered : Option ReplayBuffer → Bool
is_buffered none = false
is_buffered (some b) = true

unfoldable pub has_active_run : String → Bridge → Bool
has_active_run sid b = is_buffered (get_key sid b.replay_buffers)

-- `clearReplayBuffer`
unfoldable pub clear_replay_buffer : String → Bridge → Bridge
clear_replay_buffer sid b = record b { replay_buffers = delete_key sid b.replay_buffers }

abbrev pub request_cancel : Option ReplayBuffer → Bridge → Bridge
request_cancel none b = b
request_cancel (some buffer) b =
    if str_eq buffer.run_id "" then b else record b { cancels = b.cancels ++ buffer.run_id ∷ [] }

-- `handleCancel`
unfoldable pub handle_cancel : String → Bridge → Bridge
handle_cancel sid b = request_cancel (get_key sid b.replay_buffers) b

abbrev pub is_conflict : Option String → Bool
is_conflict none = false
is_conflict (some code) = str_eq code "CONFLICT"

module _ (sends : ℕ → Bool) where
  -- `onEvent`
  unfoldable pub on_event : String → ChatEvent → Bridge → Bridge
  unfolding buffer_event
  on_event sid e b =
      let c = buffer_event sid e b in
      record c {
        connections = broadcast sends sid e c.connections;
        channels = publish sid e c.channels;
      }

  abbrev pub send_error : String → ℕ → String → String → Bridge → Bridge
  send_error sid ws code message b = record b {
    connections = safe_send sends sid ws (error_event code message) b.connections;
  }

  -- `runtime.start` drains or throws: the branches of `handleSendMessage`. `emitted` says whether
  -- an event of this call came before.
  unfoldable pub on_settled : String → ℕ → Bool → Option Fault → Bridge → Bridge
  unfolding clear_replay_buffer
  on_settled sid sender emitted none b = clear_replay_buffer sid b
  on_settled sid sender emitted (some err) b =
      let c = clear_replay_buffer sid b in
      if is_conflict err.code
      then send_error sid sender "RUN_IN_PROGRESS" err.message c
      else if emitted
      then record c {
        connections =
            send_each sends sid (error_event "RUN_FAILED" err.message)
              (get_connections sid c.connections) c.connections;
      }
      else send_error sid sender "RUNTIME_ERROR" err.message c

  unfoldable pub on_events : String → List ChatEvent → Bridge → Bridge
  unfolding on_event
  on_events sid [] b = b
  on_events sid (e ∷ es) b = on_events sid es (on_event sid e b)

  abbrev pub any_event : List ChatEvent → Bool
  any_event [] = false
  any_event (e ∷ es) = true

  -- `handleSendMessage`, for a `runtime.start` that emits these events and settles so.
  unfoldable pub handle_send_message : String → ℕ → List ChatEvent → Option Fault → Bridge → Bridge
  unfolding on_events on_settled
  handle_send_message sid sender es outcome b =
      on_settled sid sender (any_event es) outcome (on_events sid es b)

  -- The loop of `replayEvents`, and the number it returns.
  abbrev pub send_all : String → ℕ → List ChatEvent → Manager → Manager
  send_all sid ws [] m = m
  send_all sid ws (e ∷ es) m = send_all sid ws es (safe_send sends sid ws (chat e) m)

  abbrev pub replay_buffer : String → ℕ → Option ReplayBuffer → Bridge → Bridge × ℕ
  replay_buffer sid ws none b = (b, 0)
  replay_buffer sid ws (some buffer) b =
      (record b { connections = send_all sid ws buffer.events b.connections }, length buffer.events)

  -- `replayEvents`
  unfoldable pub replay_events : String → ℕ → Bridge → Bridge × ℕ
  replay_events sid ws b = replay_buffer sid ws (get_key sid b.replay_buffers) b
