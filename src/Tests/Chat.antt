-- ===== src/Tests/Chat.antt =====
-- A chat with one pending message of the user, and the theorems of the reducer on it.
use swift_agent.Common.{◌≡◌, refl, [], ◌∷◌, ◌++◌, map, none, true}
use swift_agent.React.State.{
  ChatState, user, pending, complete, connected, settle_user, dispatch_all,
}
use swift_agent.React.State.Streaming.{
  answer_actions, opening, dispatch_all-streams_answer, dispatch_all-loses_answer,
}

abbrev asked : ChatState
asked = record {
  messages =
      record { id = "u"; role = user; content = "2 + 2"; status = pending; tool_calls = none } ∷ [];
  is_streaming = true;
  last_error = none;
  connection_status = connected;
}

dispatch_all-streams_answer_example :
    (dispatch_all (answer_actions "a" "a" ("fo" ∷ "ur" ∷ [])) asked).messages
    ≡ map settle_user asked.messages
      ++ record (opening "a") { content = "four"; status = complete } ∷ []
dispatch_all-streams_answer_example =
    dispatch_all-streams_answer "a" ("fo" ∷ "ur" ∷ []) asked (refl, tt)

dispatch_all-loses_answer_example :
    (dispatch_all (answer_actions "m" "a" ("fo" ∷ "ur" ∷ [])) asked).messages
    ≡ map settle_user asked.messages ++ opening "m" ∷ []
dispatch_all-loses_answer_example =
    dispatch_all-loses_answer "m" "a" ("fo" ∷ "ur" ∷ []) asked (refl, tt) refl
