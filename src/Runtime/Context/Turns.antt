-- ===== src/Runtime/Context/Turns.antt =====
-- The history that the loop stores, read back by the context builder.
use swift_agent.Common.{◌≡◌, String, List, [], ◌∷◌, ◌++◌, map, none, some}
use swift_agent.Json.{Json, str}
use swift_agent.Runtime.Loop.Defs.{
  World, MessageRole, MessageRecord, user, assistant, tool, PreparedCall,
}
use swift_agent.Runtime.Loop.Calls.{assistant_json, tool_json}
use swift_agent.Runtime.Context.{ContextCall, ModelMessage, plain}

-- A call with its result, and the id of the message that stores the result.
abbrev pub Answered : Type 0
Answered = String × (PreparedCall × String)

abbrev pub call_in : Answered → PreparedCall
call_in (id, (p, result)) = p

-- What the loop stores: the user's message, a final text, and a round of calls with its results,
-- each under the id of its message.
pub data Turn : Type 0 where
  asks replies : (message_id content : String) → Turn
  round : (message_id text : String) → List Answered → Turn

module _ (w : World) where
  abbrev pub stored : MessageRole → String → String → MessageRecord
  stored role message_id content = record {
    message_id = message_id;
    session_id = w.session_id;
    run_id = some w.run_id;
    role = role;
    content = content;
  }

  abbrev pub stored_result : Answered → MessageRecord
  stored_result (id, (p, result)) = stored tool id (w.json.stringify (tool_json w p result))

  abbrev pub stored_turn : Turn → List MessageRecord
  stored_turn (asks id content) = stored user id content ∷ []
  stored_turn (replies id content) = stored assistant id content ∷ []
  stored_turn (round id text calls) =
      stored assistant id (w.json.stringify (assistant_json w text (map call_in calls)))
      ∷ map stored_result calls

  unfoldable pub history_of : List Turn → List MessageRecord
  history_of [] = []
  history_of (t ∷ ts) = stored_turn t ++ history_of ts

  abbrev pub told_call : PreparedCall → ContextCall
  told_call p = record {
    call_id = str p.provider_call_id;
    tool_name = str p.tool_name;
    arguments = p.arguments;
  }

  abbrev pub told_result : Answered → ModelMessage
  told_result (id, (p, result)) = record {
    role = tool;
    content = str result;
    tool_call_id = some (str p.provider_call_id);
    tool_name = some (str p.tool_name);
    tool_calls = none;
  }

  -- What the provider is told of a turn: the provider's own ids and the names of the tools.
  abbrev pub told_turn : Turn → List ModelMessage
  told_turn (asks id content) = plain user (str content) ∷ []
  told_turn (replies id content) = plain assistant (str content) ∷ []
  told_turn (round id text calls) =
      record (plain assistant (str text)) {
        tool_calls = some (map (λ c. told_call (call_in c)) calls);
      }
      ∷ map told_result calls

  unfoldable pub told : List Turn → List ModelMessage
  told [] = []
  told (t ∷ ts) = told_turn t ++ told ts

  -- `JSON.parse` reads back what `JSON.stringify` wrote for the turn; a final text is no JSON.
  abbrev pub AreResults : List Answered → Type 0
  AreResults [] = Unit
  AreResults ((id, (p, result)) ∷ cs) =
      (w.json.parse (w.json.stringify (tool_json w p result)) ≡ some (tool_json w p result))
      × AreResults cs

  abbrev pub IsReadable : Turn → Type 0
  IsReadable (asks id content) = Unit
  IsReadable (replies id content) = w.json.parse content ≡ none
  IsReadable (round id text calls) =
      (w.json.parse (w.json.stringify (assistant_json w text (map call_in calls)))
        ≡ some (assistant_json w text (map call_in calls)))
      × AreResults calls

  abbrev pub AreReadable : List Turn → Type 0
  AreReadable [] = Unit
  AreReadable (t ∷ ts) = IsReadable t × AreReadable ts
