-- ===== src/Tests/Executors.antt =====
-- Two agents with runners of their own, and one that has none.
use swift_agent.Common.{refl, List, [], ◌∷◌, none, some, get_key, set_key}
use swift_agent.Json.{obj, end}
use swift_agent.Runtime.Tools.{ToolDefinition}
use swift_agent.Runtime.Executors.{ToolAgent, remote, resolve}
use swift_agent.Runtime.Executors.Binding.{Serves, resolve-Serves}

abbrev first : ToolAgent
first = record { agent_id = "agt_1"; tool_runner_url = some "https://one"; tools = [] }

abbrev second : ToolAgent
second = record { agent_id = "agt_2"; tool_runner_url = some "https://two"; tools = [] }

resolve-Serves_example : Serves (remote "https://two" "agt_2") second
unfolding resolve get_key set_key
resolve-Serves_example =
    resolve-Serves none 5 (first ∷ second ∷ []) second (remote "https://two" "agt_2")
      (refl, (refl, tt)) refl refl

abbrev alone : ToolAgent
alone = record { agent_id = "agt_3"; tool_runner_url = none; tools = [] }

abbrev added : List ToolDefinition
added = record { name = "add"; description = "adds"; input_schema = obj end } ∷ []
