-- ===== src/Runtime/Executors.antt =====
-- packages/runtime/src/tool-executor-resolver.ts, tool-executor-factory.ts and tool-executor-local.ts:
-- which executor serves the tool calls of an agent.
pub mod Binding
use swift_agent.Common.{
  ℕ, String, Bool, true, false, List, [], ◌∷◌, ◌++◌, Option, none, some, str_eq, ltb, length, ◌⊎◌,
  inl, inr, ◌<>◌, if◌then◌else◌, has_string, get_key, set_key,
}
use swift_agent.Json.{Json}
use swift_agent.Shared.{Fault, plain_error}
use swift_agent.Runtime.Tools.{ToolDefinition}
use swift_agent.Runtime.Loop.Defs.{ToolCallResult, success, failure}
use swift_agent.Runtime.Engine.{swift_error}

pub record ToolAgent : Type 0 where
  pub agent_id : String
  pub tool_runner_url : Option String
  pub tools : List ToolDefinition

-- A remote executor is bound to a URL and to the agent whose tokens it mints; a local one to the
-- names of its handlers.
pub data Executor : Type 0 where
  remote : (url agent_id : String) → Executor
  local : (handlers : List String) → Executor

abbrev pub url_or_local : Option String → String
url_or_local none = "local"
url_or_local (some url) = url

unfoldable pub cache_key : ToolAgent → String
cache_key a = a.agent_id <> (":" <> url_or_local a.tool_runner_url)

-- `createToolExecutor`
abbrev pub create_tool_executor : ToolAgent → String → Executor
create_tool_executor a url = if str_eq url "" then local [] else remote url a.agent_id

abbrev pub Cache : Type 0
Cache = List (String × Executor)

abbrev pub keep_executor : ToolAgent → Executor → Cache → (Fault ⊎ Executor) × Cache
keep_executor a e c = (inr e, set_key (cache_key a) e c)

-- Rules 3 and 4.
abbrev pub without_handlers : ToolAgent → List ToolDefinition → Cache → (Fault ⊎ Executor) × Cache
without_handlers a [] c = keep_executor a (local []) c
without_handlers a (t ∷ ts) c =
    (inl (swift_error "VALIDATION" ("No execution configuration for agent " <> a.agent_id)), c)

-- Rule 2, on `registerLocalTools`, if there is one: the count that it answers and the handlers.
abbrev pub resolve_local :
    ToolAgent → Option (ToolAgent → ℕ × List String) → Cache → (Fault ⊎ Executor) × Cache
resolve_local a none c = without_handlers a a.tools c
resolve_local a (some register) c =
    if ltb 0 (register a).0
    then keep_executor a (local (register a).1) c
    else without_handlers a a.tools c

module _ (register_local_tools : Option (ToolAgent → ℕ × List String)) where
  -- Rule 1, on the URL.
  abbrev pub resolve_new : ToolAgent → Option String → Cache → (Fault ⊎ Executor) × Cache
  resolve_new a none c = resolve_local a register_local_tools c
  resolve_new a (some url) c =
      if str_eq url ""
      then resolve_local a register_local_tools c
      else keep_executor a (create_tool_executor a url) c

  abbrev pub resolve_cached : ToolAgent → Option Executor → Cache → (Fault ⊎ Executor) × Cache
  resolve_cached a (some e) c = (inr e, c)
  resolve_cached a none c = resolve_new a a.tool_runner_url c

  -- `resolve`
  unfoldable pub resolve : ToolAgent → Cache → (Fault ⊎ Executor) × Cache
  unfolding cache_key
  resolve a c = resolve_cached a (get_key (cache_key a) c) c

-- `registerTool`: it throws on a name that is taken.
unfoldable pub register_tool : String → List String → Fault ⊎ List String
register_tool name handlers =
    if has_string name handlers
    then inl (plain_error ("Tool already registered: " <> name))
    else inr (handlers ++ name ∷ [])

-- What wins the race of a handler with the timer and the abort.
pub data Race : Type 0 where
  handled : Json → Race
  threw : (message : String) → Race
  timed_out aborted : Race

abbrev pub race_result : (ℕ → String) → ℕ → Race → ToolCallResult
race_result show timeout_ms (handled output) = success output
race_result show timeout_ms (threw message) = failure message
race_result show timeout_ms timed_out =
    failure ("Tool execution timed out after " <> (show timeout_ms <> "ms"))
race_result show timeout_ms aborted = failure "Aborted"

-- `LocalToolExecutor.execute`
unfoldable pub execute_local :
    (ℕ → String) → ℕ → List String → Bool → String → Race → ToolCallResult
execute_local show timeout_ms handlers is_aborted tool_name race =
    if is_aborted
    then failure "Aborted"
    else if has_string tool_name handlers
    then race_result show timeout_ms race
    else failure ("Unknown tool: " <> tool_name)
