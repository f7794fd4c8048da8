-- ===== src/Runtime/Context.antt =====
-- packages/runtime/src/context-builder.ts: the messages that a provider is given, from the stored
-- history. What is read of parsed JSON is a `Json`, since the casts check nothing.
pub mod Turns
use swift_agent.Common.{
  String, Bool, true, false, not, ◌&&◌, ◌||◌, List, [], ◌∷◌, ◌++◌, Option, none, some, str_eq,
  if◌then◌else◌,
}
use swift_agent.Json.{
  Json, null, bool, num, str, arr, obj, Items, nil, cons, Fields, property, JsonText,
}
use swift_agent.Runtime.Loop.Defs.{MessageRole, MessageRecord, system, user, assistant, tool}

-- packages/models/src/types.ts
pub record ContextCall : Type 0 where
  pub call_id : Json
  pub tool_name : Json
  pub arguments : Option Json

pub record ModelMessage : Type 0 where
  pub role : MessageRole
  pub content : Json
  pub tool_call_id : Option Json
  pub tool_name : Option Json
  pub tool_calls : Option (List ContextCall)

abbrev pub plain : MessageRole → Json → ModelMessage
plain role content = record {
  role = role;
  content = content;
  tool_call_id = none;
  tool_name = none;
  tool_calls = none;
}

-- `value ?? other`, on `undefined` as `none`.
abbrev pub coalesce : Option Json → Option Json → Option Json
coalesce none other = other
coalesce (some null) other = other
coalesce (some j) other = some j

abbrev pub or_empty : Option Json → Json
or_empty none = str ""
or_empty (some null) = str ""
or_empty (some j) = j

abbrev pub is_truthy : Json → Bool
is_truthy null = false
is_truthy (bool b) = b
is_truthy (num n) = not (str_eq n "0" || str_eq n "-0")
is_truthy (str s) = not (str_eq s "")
is_truthy _ = true

-- Whether two values are the same key of a `Map`; two objects never are.
abbrev pub same_key : Json → Json → Bool
same_key (str s) (str t) = str_eq s t
same_key (num s) (num t) = str_eq s t
same_key (bool true) (bool b) = b
same_key (bool false) (bool b) = not b
same_key null null = true
same_key _ _ = false

-- `legacyToolNameByCallId`, the latest entry first.
abbrev pub LegacyNames : Type 0
LegacyNames = List (Json × Json)

unfoldable pub name_of : Json → LegacyNames → Option Json
name_of call_id [] = none
name_of call_id ((k, name) ∷ names) =
    if same_key k call_id then some name else name_of call_id names

abbrev pub remember : Json → Json → LegacyNames → LegacyNames
remember call_id name names =
    if is_truthy call_id && is_truthy name then (call_id, name) ∷ names else names

-- The fields that a tool call of an assistant message is read from; `null` has none, and reading
-- one throws.
abbrev pub fields_of : Json → Option (String → Option Json)
fields_of null = none
fields_of (obj fs) = some (λ key. property key fs)
fields_of _ = some (λ key. none)

abbrev pub call_of : (String → Option Json) → ContextCall
call_of get = record {
  call_id = or_empty (coalesce (get "providerCallId") (get "callId"));
  tool_name = or_empty (get "toolName");
  arguments = get "arguments";
}

abbrev pub prepend :
    ContextCall → Option (List ContextCall) × LegacyNames → Option (List ContextCall) × LegacyNames
prepend c (none, names) = (none, names)
prepend c (some cs, names) = (some (c ∷ cs), names)

-- `toolCalls.map(…)`: `none` where it throws, with the names noted so far.
unfoldable pub map_calls : Items → LegacyNames → Option (List ContextCall) × LegacyNames
map_calls nil names = (some [], names)
map_calls (cons j js) names = elim (fields_of j) [
  | none ↦ (none, names)
  | some get ↦
      let c : ContextCall = call_of get in
      prepend c (map_calls js (remember c.call_id c.tool_name names))
]

abbrev pub assistant_of :
    String → Json → Option (List ContextCall) × LegacyNames → ModelMessage × LegacyNames
assistant_of content text (none, names) = (plain assistant (str content), names)
assistant_of content text (some calls, names) =
    (record (plain assistant text) { tool_calls = some calls }, names)

-- The test of the shape: `text` and `toolCalls` are there, and the latter is an array.
abbrev pub calls_of : String → Option Json → Option Json → LegacyNames → ModelMessage × LegacyNames
calls_of content (some text) (some (arr calls)) names =
    assistant_of content text (map_calls calls names)
calls_of content _ _ names = (plain assistant (str content), names)

abbrev pub parsed_assistant : String → Option Json → LegacyNames → ModelMessage × LegacyNames
parsed_assistant content (some (obj fs)) names =
    calls_of content (property "text" fs) (property "toolCalls" fs) names
parsed_assistant content _ names = (plain assistant (str content), names)

-- `findToolName`
abbrev pub find_tool_name : Option Json → LegacyNames → Option Json
find_tool_name none names = none
find_tool_name (some call_id) names = name_of call_id names

abbrev pub tool_of : Json → Option Json → Option Json → LegacyNames → ModelMessage
tool_of result call_id name names = record (plain tool result) {
  tool_call_id = call_id;
  tool_name = coalesce name (find_tool_name call_id names);
}

-- The test of the shape: `result` and one of the two ids are there.
abbrev pub result_of :
    String → Option Json → Option Json → Option Json → Option Json → LegacyNames → ModelMessage
result_of content none provider_call_id tool_call_id name names = plain tool (str content)
result_of content (some result) none none name names = plain tool (str content)
result_of content (some result) none (some t) name names = tool_of result (some t) name names
result_of content (some result) (some p) t name names =
    tool_of result (coalesce (some p) t) name names

abbrev pub parsed_tool : String → Option Json → LegacyNames → ModelMessage
parsed_tool content (some (obj fs)) names =
    result_of content (property "result" fs) (property "providerCallId" fs)
      (property "toolCallId" fs) (property "toolName" fs) names
parsed_tool content _ names = plain tool (str content)

-- `if (this.agent.systemPrompt)`
abbrev pub system_message : String → List ModelMessage
system_message prompt = if str_eq prompt "" then [] else plain system (str prompt) ∷ []

module _ (json : JsonText) where
  unfoldable pub map_assistant_message : MessageRecord → LegacyNames → ModelMessage × LegacyNames
  map_assistant_message m names = parsed_assistant m.content (json.parse m.content) names

  unfoldable pub map_tool_message : MessageRecord → LegacyNames → ModelMessage
  map_tool_message m names = parsed_tool m.content (json.parse m.content) names

  -- The `switch` on the role: what it pushes, and the names.
  unfoldable pub map_message :
      MessageRole → MessageRecord → LegacyNames → List ModelMessage × LegacyNames
  unfolding map_assistant_message map_tool_message
  map_message system m names = ([], names)
  map_message user m names = (plain user (str m.content) ∷ [], names)
  map_message assistant m names =
      let (message, names') = map_assistant_message m names in (message ∷ [], names')
  map_message tool m names = (map_tool_message m names ∷ [], names)

  unfoldable pub map_messages : List MessageRecord → LegacyNames → List ModelMessage
  unfolding map_message
  map_messages [] names = []
  map_messages (m ∷ ms) names =
      let (pushed, names') = map_message m.role m names in pushed ++ map_messages ms names'

  unfoldable pub build :
      String → (List MessageRecord → List MessageRecord) → List MessageRecord → List ModelMessage
  unfolding map_messages
  build system_prompt trim history = system_message system_prompt ++ map_messages (trim history) []
