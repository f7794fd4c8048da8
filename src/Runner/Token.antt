-- ===== src/Runner/Token.antt =====
-- packages/sdk/src/runner-token.ts and packages/runtime/src/runner-credentials.ts: scoped runner
-- tokens. The signature, the expiry and the audience are checked by the library `jose`.
use swift_agent.Common.{String, Bool, ◌||◌, ◌⊎◌, inl, inr, ◌<>◌, str_eq, if◌then◌else◌}
use swift_agent.Json.{str, Fields, field, property}
use swift_agent.Shared.{Fault}
use swift_agent.Runtime.Engine.{swift_error}
use swift_agent.Runner.{RunnerTokenClaims, text_of, is_literal}

-- The payload that is signed; `registered` holds the audience and the times that `jose` adds.
unfoldable pub mint_runner_token : RunnerTokenClaims → Fields → Fields
mint_runner_token c registered = field "workspaceId" (str c.workspace_id) (
    field "agentId" (str c.agent_id) (
      field "runId" (str c.run_id) (
        field "callId" (str c.call_id) (
          field "idempotencyKey" (str c.idempotency_key)
            (field "toolName" (str c.tool_name) registered)))))

unfoldable pub claims_of : String → Fields → RunnerTokenClaims
claims_of audience payload = record {
  aud = audience;
  workspace_id = text_of (property "workspaceId" payload);
  agent_id = text_of (property "agentId" payload);
  run_id = text_of (property "runId" payload);
  call_id = text_of (property "callId" payload);
  idempotency_key = text_of (property "idempotencyKey" payload);
  tool_name = text_of (property "toolName" payload);
}

-- Whether a required claim is missing.
abbrev pub is_unscoped : RunnerTokenClaims → Bool
is_unscoped c =
    str_eq c.workspace_id ""
    || (str_eq c.agent_id ""
        || (str_eq c.run_id ""
            || (str_eq c.call_id "" || (str_eq c.idempotency_key "" || str_eq c.tool_name ""))))

abbrev pub unauthorized : String → Fault
unauthorized detail = swift_error "UNAUTHORIZED" detail

abbrev pub scoped : RunnerTokenClaims → Fault ⊎ RunnerTokenClaims
scoped c =
    if is_unscoped c then inl (unauthorized "Runner token missing required scope claims") else inr c

-- `verifyRunnerToken`, on what `jwtVerify` answers: a message or the payload.
unfoldable pub verify_runner_token : String → String → String ⊎ Fields → Fault ⊎ RunnerTokenClaims
unfolding claims_of
verify_runner_token audience workspace_id (inl message) =
    inl (unauthorized ("Runner token verification failed: " <> message))
verify_runner_token audience workspace_id (inr payload) =
    if is_literal workspace_id (property "workspaceId" payload)
    then scoped (claims_of audience payload)
    else inl (unauthorized "Runner token workspace mismatch")
