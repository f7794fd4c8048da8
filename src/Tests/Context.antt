-- ===== src/Tests/Context.antt =====
-- A conversation with one tool call, read back.
use swift_agent.Common.{String, List, [], ◌∷◌, Option, none, some, str_eq, if◌then◌else◌}
use swift_agent.Json.{Json, obj, end, field}
use swift_agent.Runtime.Loop.Defs.{World, PreparedCall}
use swift_agent.Runtime.Loop.Calls.{assistant_json, tool_json}
use swift_agent.Runtime.Context.Turns.{Turn, asks, replies, round}
use swift_agent.Tests.Run.{demo}

abbrev sum_call : PreparedCall
sum_call = record {
  swift_call_id = "tc_1";
  provider_call_id = "p1";
  tool_name = "add";
  arguments = some (obj end);
}

-- The two texts that the conversation holds.
abbrev text_of : Json → String
text_of (obj (field key j fs)) = if str_eq key "text" then "calls" else "result"
text_of _ = "result"

abbrev parse_text : String → Option Json
parse_text t =
    if str_eq t "calls"
    then some (assistant_json demo "" (sum_call ∷ []))
    else if str_eq t "result"
    then some (tool_json demo sum_call "4")
    else none

abbrev reading : World
reading = record demo { json = record { stringify = text_of; parse = parse_text } }

abbrev conversation : List Turn
conversation =
    asks "m1" "2 + 2" ∷ round "m2" "" (("m3", (sum_call, "4")) ∷ []) ∷ replies "m4" "four" ∷ []
