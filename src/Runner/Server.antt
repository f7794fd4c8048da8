-- ===== src/Runner/Server.antt =====
-- packages/sdk/src/tool-runner.ts: the route of a tool call, up to the run under its idempotency key.
pub mod Scope
use swift_agent.Common.{
  ℕ, String, Bool, true, false, not, ◌&&◌, ◌||◌, Option, none, some, ◌⊎◌, inl, inr, ◌<>◌, str_eq,
  starts_with, text_from, if◌then◌else◌,
}
use swift_agent.Json.{Json, obj, Fields, property}
use swift_agent.Shared.{Fault}
use swift_agent.Runner.{RequestContext, RunnerRequest, RunnerTokenClaims, parse_request, is_literal}
use swift_agent.Runner.Token.{verify_runner_token}

pub record Incoming : Type 0 where
  pub tool_name : String
  pub authorization : Option String
  pub body : Json

-- An error reply, or a run of the tool under the key.
pub data Decision : Type 0 where
  replies : (status : ℕ) → (code message : String) → Decision
  executes : (idempotency_key tool_name : String) → (data_ : Json) → RequestContext → Decision

-- The runner's identity, the check of tokens for an audience by `jose`, and the registry: the tools'
-- schemas, which answer the parsed input or nothing.
pub record Runner : Type 0 where
  pub expected_audience : String
  pub expected_workspace_id : String
  pub jwt_verify : String → String → String ⊎ Fields
  pub registry : String → Option (Option Json → Option Json)

abbrev pub unauthorized : String → Decision
unauthorized message = replies 401 "UNAUTHORIZED" message

abbrev pub has_wrong_version : Json → Bool
has_wrong_version (obj fs) = not (is_literal "1" (property "version" fs))
has_wrong_version (Json.arr js) = true
has_wrong_version _ = false

abbrev pub is_other : RunnerTokenClaims → String → RunnerRequest → Bool
is_other claims tool_name r =
    not (str_eq claims.agent_id r.context.agent_id)
    || (not (str_eq claims.run_id r.context.run_id)
        || (not (str_eq claims.call_id r.context.call_id)
            || (not (str_eq claims.tool_name tool_name)
                || not (str_eq claims.idempotency_key r.idempotency_key))))

abbrev pub run_valid : String → RunnerRequest → Option Json → Decision
run_valid tool_name r none =
    replies 400 "VALIDATION" ("Input validation failed for tool \"" <> tool_name <> "\"")
run_valid tool_name r (some data_) = executes r.idempotency_key tool_name data_ r.context

abbrev pub run_known : String → RunnerRequest → Option (Option Json → Option Json) → Decision
run_known tool_name r none = replies 404 "NOT_FOUND" ("Tool \"" <> tool_name <> "\" not found")
run_known tool_name r (some parse) = run_valid tool_name r (parse r.input)

module _ (v : Runner) where
  abbrev pub run_verified : String → RunnerRequest → Fault ⊎ RunnerTokenClaims → Decision
  run_verified tool_name r (inl fault) = unauthorized fault.message
  run_verified tool_name r (inr claims) =
      if is_other claims tool_name r
      then unauthorized "Runner token scope does not match request"
      else run_known tool_name r (v.registry tool_name)

  abbrev pub run_parsed : String → String → Json → Option RunnerRequest → Decision
  run_parsed tool_name token body none = replies 400 "VALIDATION" (
      if has_wrong_version body
      then "Unsupported runner protocol version"
      else "Invalid request body")
  run_parsed tool_name token body (some r) = run_verified tool_name r (
      verify_runner_token v.expected_audience v.expected_workspace_id
        (v.jwt_verify token v.expected_audience))

  abbrev pub run_bearing : Incoming → Option String → Decision
  run_bearing q none = unauthorized "Invalid or missing authorization"
  run_bearing q (some header) =
      if starts_with header "Bearer "
      then run_parsed q.tool_name (text_from 7 header) q.body (parse_request q.body)
      else unauthorized "Invalid or missing authorization"

  -- `app.post('/tools/:toolName')`, up to `idempotency.run`.
  unfoldable pub handle : Incoming → Decision
  unfolding parse_request verify_runner_token
  handle q = run_bearing q q.authorization
