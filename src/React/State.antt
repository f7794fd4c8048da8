-- ===== src/React/State.antt =====
-- packages/react/src/state.ts and types.ts: the chat state, and the reducer over the server's
-- events and the client's own actions.
pub mod Streaming
use swift_agent.Common.{
  String, Bool, true, false, ◌&&◌, Option, none, some, List, [], ◌∷◌, ◌++◌, map, str_eq,
  if◌then◌else◌, ◌<>◌,
}
use swift_agent.Shared.{ChatEvent, ToolCallStatus}

pub data ConnectionStatus : Type 0 where
  connecting connected disconnected : ConnectionStatus

pub record ToolCallInfo : Type 0 where
  pub call_id : String
  pub tool_name : String
  pub status : ToolCallStatus

pub data Role : Type 0 where
  user assistant tool : Role

pub data MessageStatus : Type 0 where
  pending streaming complete : MessageStatus

pub record ChatMessage : Type 0 where
  pub id : String
  pub role : Role
  pub content : String
  pub status : MessageStatus
  pub tool_calls : Option (List ToolCallInfo)

pub record ChatState : Type 0 where
  pub messages : List ChatMessage
  pub is_streaming : Bool
  pub last_error : Option String
  pub connection_status : ConnectionStatus

pub data ChatAction : Type 0 where
  send_user : (id content : String) → ChatAction
  reset_error : ChatAction
  set_connection : ConnectionStatus → ChatAction
  event : ChatEvent → ChatAction

abbrev pub initial_chat_state : ChatState
initial_chat_state = record {
  messages = [];
  is_streaming = false;
  last_error = none;
  connection_status = disconnected;
}

abbrev pub is_user : Role → Bool
is_user user = true
is_user _ = false

abbrev pub is_assistant : Role → Bool
is_assistant assistant = true
is_assistant _ = false

abbrev pub is_pending : MessageStatus → Bool
is_pending pending = true
is_pending _ = false

abbrev pub is_streaming_status : MessageStatus → Bool
is_streaming_status streaming = true
is_streaming_status _ = false

-- The functions that the cases pass to `messages.map`.
unfoldable pub settle_user : ChatMessage → ChatMessage
settle_user m = if is_user m.role && is_pending m.status then record m { status = complete } else m

unfoldable pub add_text : String → String → ChatMessage → ChatMessage
add_text message_id text m =
    if str_eq m.id message_id && is_streaming_status m.status
    then record m { content = m.content <> text }
    else m

abbrev pub calls_or_empty : Option (List ToolCallInfo) → List ToolCallInfo
calls_or_empty none = []
calls_or_empty (some calls) = calls

unfoldable pub add_call : String → String → ChatMessage → ChatMessage
add_call call_id tool_name m =
    if is_assistant m.role && is_streaming_status m.status
    then record m {
      tool_calls = some (
          calls_or_empty m.tool_calls
          ++ record { call_id = call_id; tool_name = tool_name; status = ToolCallStatus.started }
            ∷ []);
    }
    else m

abbrev pub set_call_status : String → ToolCallStatus → ToolCallInfo → ToolCallInfo
set_call_status call_id status tc =
    if str_eq tc.call_id call_id then record tc { status = status } else tc

abbrev pub map_calls :
    (ToolCallInfo → ToolCallInfo) → Option (List ToolCallInfo) → Option (List ToolCallInfo)
map_calls f none = none
map_calls f (some calls) = some (map f calls)

unfoldable pub end_call : String → ToolCallStatus → ChatMessage → ChatMessage
end_call call_id status m =
    if is_assistant m.role
    then record m { tool_calls = map_calls (set_call_status call_id status) m.tool_calls }
    else m

unfoldable pub complete_message : String → ChatMessage → ChatMessage
complete_message message_id m = if str_eq m.id message_id then record m { status = complete } else m

unfoldable pub stop_streaming : ChatMessage → ChatMessage
stop_streaming m = if is_streaming_status m.status then record m { status = complete } else m

-- The cases of the server's events.
unfoldable pub on_event : ChatState → ChatEvent → ChatState
on_event s (ChatEvent.message_started message_id _ _) = record s {
  is_streaming = true;
  messages =
      map settle_user s.messages
      ++ record {
        id = message_id;
        role = assistant;
        content = "";
        status = streaming;
        tool_calls = none;
      }
        ∷ [];
}
on_event s (ChatEvent.token _ _ message_id text) = record s {
  messages = map (add_text message_id text) s.messages;
}
on_event s (ChatEvent.tool_call_started call_id _ _ tool_name) = record s {
  messages = map (add_call call_id tool_name) s.messages;
}
on_event s (ChatEvent.tool_call_completed call_id _ _ _ status) = record s {
  messages = map (end_call call_id status) s.messages;
}
on_event s (ChatEvent.message_completed message_id _ _) = record s {
  messages = map (complete_message message_id) s.messages;
  is_streaming = false;
}
on_event s (ChatEvent.run_failed _ _ code message) = record s {
  is_streaming = false;
  last_error = some ("[" <> code <> "] " <> message);
  messages = map stop_streaming s.messages;
}

unfoldable pub chat_reducer : ChatState → ChatAction → ChatState
unfolding on_event
chat_reducer s (send_user id content) = record s {
  is_streaming = true;
  last_error = none;
  messages =
      s.messages
      ++ record { id = id; role = user; content = content; status = pending; tool_calls = none }
        ∷ [];
}
chat_reducer s reset_error = record s { last_error = none }
chat_reducer s (set_connection status) = record s { connection_status = status }
chat_reducer s (event e) = on_event s e

-- A sequence of dispatched actions.
unfoldable pub dispatch_all : List ChatAction → ChatState → ChatState
unfolding chat_reducer
dispatch_all [] s = s
dispatch_all (a ∷ rest) s = dispatch_all rest (chat_reducer s a)
