-- ===== src/Runner/Delivery.antt =====
-- The executor's request at the runner: apps/server/src/container.ts (`mintToken`),
-- runner-credentials.ts, tool-executor-remote.ts, runner-token.ts and tool-runner.ts together.
use swift_agent.Common.{
  ◌≡◌, refl, sym, ap, ◌∙◌, String, Bool, true, false, not, ◌&&◌, ◌||◌, Option, none, some, inl, inr,
  ◌<>◌, str_eq, eq_iff, eq_refl, starts_with, starts_with-append, text_from, text_from-append,
  Bool-cases, false≢true, if◌then◌else◌, arith,
}
use swift_agent.Json.{Json, str, obj, Fields, property, field, end, optional_field}
use swift_agent.Runner.{
  RequestContext, RunnerRequest, RunnerTokenClaims, parse_request, request_in, context_of,
  is_request, is_context, has_only,
}
use swift_agent.Runner.Token.{
  mint_runner_token, verify_runner_token, claims_of, is_unscoped, scoped, unauthorized,
}
use swift_agent.Runner.Server
use swift_agent.Runner.Server.{
  Incoming, Decision, executes, Runner, is_other, run_known, run_valid, run_verified, run_parsed,
  run_bearing, handle,
}
use swift_agent.Runner.Client.{ToolCall, ToolCallContext, request_json, record_json, context_json}

-- The agent as the runtime knows it.
pub record RemoteAgent : Type 0 where
  pub agent_id : String
  pub workspace_id : String
  pub tool_runner_url : String

-- The claims that `mintToken` signs for a call.
abbrev pub call_claims : RemoteAgent → ToolCall → ToolCallContext → RunnerTokenClaims
call_claims a call ctx = record {
  aud = a.tool_runner_url;
  workspace_id = a.workspace_id;
  agent_id = a.agent_id;
  run_id = ctx.run_id;
  call_id = call.call_id;
  idempotency_key = call.call_id;
  tool_name = call.tool_name;
}

-- The request as the route meets it.
abbrev pub delivered : RemoteAgent → ToolCall → ToolCallContext → String → Incoming
delivered a call ctx token = record {
  tool_name = call.tool_name;
  authorization = some ("Bearer " <> token);
  body = request_json a.agent_id call ctx;
}

abbrev pub call_context : RemoteAgent → ToolCall → ToolCallContext → RequestContext
call_context a call ctx = record {
  session_id = ctx.session_id;
  agent_id = a.agent_id;
  run_id = ctx.run_id;
  call_id = call.call_id;
  user_id = ctx.user_id;
  metadata = record_json ctx.metadata;
}

-- Ids as the runtime makes them, and names that are not empty.
pub record IsCallable (a : RemoteAgent) (call : ToolCall) (ctx : ToolCallContext) : Type 0 where
  pub session : starts_with ctx.session_id "ses_" ≡ true
  pub agent : starts_with a.agent_id "agt_" ≡ true
  pub run : starts_with ctx.run_id "run_" ≡ true
  pub id : starts_with call.call_id "tc_" ≡ true
  pub workspace : str_eq a.workspace_id "" ≡ false
  pub tool : str_eq call.tool_name "" ≡ false

-- A text that starts with a text that is not empty is not empty.
prefixed_filled :
    (s start : String)
    → starts_with s start ≡ true
    → starts_with "" start ≡ false
    → str_eq s "" ≡ false
prefixed_filled s start h k = elim (Bool-cases (str_eq s "")) [
  | inl empty ↦
      absurd (false≢true (sym k ∙ ap (λ t. starts_with t start) (sym ((eq_iff s "").0 empty)) ∙ h))
  | inr filled ↦ filled
]

abbrev envelope : String → Option Json → Fields → Fields
envelope id o context =
    field "version" (str "1") (
      field "idempotencyKey" (str id)
        (optional_field "input" o (field "context" (obj context) end)))

envelope-context :
    (id : String) (o : Option Json) (context : Fields)
    → property "context" (envelope id o context) ≡ some (obj context)
unfolding property
envelope-context id none context = refl
envelope-context id (some j) context = refl

envelope-input :
    (id : String) (o : Option Json) (context : Fields)
    → property "input" (envelope id o context) ≡ o
unfolding property
envelope-input id none context = refl
envelope-input id (some j) context = refl

is_request-envelope :
    (id : String) (o : Option Json) (context : Fields)
    → str_eq id "" ≡ false
    → is_request (envelope id o context) ≡ true
unfolding is_request has_only property
is_request-envelope id none context filled = ap (λ b. not b && true) filled
is_request-envelope id (some j) context filled = ap (λ b. not b && true) filled

none_empty :
    (a b c d e f : Bool)
    → a ≡ false
    → b ≡ false
    → c ≡ false
    → d ≡ false
    → e ≡ false
    → f ≡ false
    → (a || (b || (c || (d || (e || f))))) ≡ false
none_empty a b c d e f h1 h2 h3 h4 h5 h6 = ground (arith, h1, h2, h3, h4, h5, h6)

abbrev four : Bool → Bool → Bool → Bool → Bool
four a b c d = a && (b && (c && (d && true)))

four-true : (a b c d : Bool) → a ≡ true → b ≡ true → c ≡ true → d ≡ true → four a b c d ≡ true
four-true a b c d h1 h2 h3 h4 = ground (arith, h1, h2, h3, h4)

module _ (a : RemoteAgent) (call : ToolCall) (ctx : ToolCallContext)
    (ok : IsCallable a call ctx) where
  abbrev context_with : Option String → Option Fields → Fields
  context_with user metadata =
      context_json a.agent_id call (record ctx { user_id = user; metadata = metadata })

  ids_true :
      four
        (starts_with ctx.session_id "ses_")
        (starts_with a.agent_id "agt_")
        (starts_with ctx.run_id "run_")
        (starts_with call.call_id "tc_")
      ≡ true
  ids_true = four-true _ _ _ _ ok.session ok.agent ok.run ok.id

  is_context-json : (u : Option String) (m : Option Fields) → is_context (context_with u m) ≡ true
  unfolding is_context has_only property
  is_context-json none none = ids_true
  is_context-json (some s) none = ids_true
  is_context-json none (some fs) = ids_true
  is_context-json (some s) (some fs) = ids_true

  context_of-json :
      (u : Option String) (m : Option Fields)
      → context_of (context_with u m)
        ≡ call_context a call (record ctx { user_id = u; metadata = m })
  unfolding property
  context_of-json none none = refl
  context_of-json (some s) none = refl
  context_of-json none (some fs) = refl
  context_of-json (some s) (some fs) = refl

  abbrev sent : RunnerRequest
  sent = record {
    idempotency_key = call.call_id;
    input = call.arguments;
    context = call_context a call ctx;
  }

  request_in-sent :
      request_in
        (envelope call.call_id call.arguments (context_with ctx.user_id ctx.metadata))
        (some (obj (context_with ctx.user_id ctx.metadata)))
      ≡ some sent
  unfolding property
  request_in-sent =
      let c : Fields = context_with ctx.user_id ctx.metadata in
      let fs : Fields = envelope call.call_id call.arguments c in
      let got : Option Json → RequestContext → Option RunnerRequest =
        λ o x. some (record { idempotency_key = call.call_id; input = o; context = x }) in
      ap (λ b. if b && is_context c then got (property "input" fs) (context_of c) else none)
        (is_request-envelope call.call_id call.arguments c
          (prefixed_filled call.call_id "tc_" ok.id refl))
      ∙ ap (λ b. if b then got (property "input" fs) (context_of c) else none)
          (is_context-json ctx.user_id ctx.metadata)
      ∙ ap (λ o. got o (context_of c)) (envelope-input call.call_id call.arguments c)
      ∙ ap (got call.arguments) (context_of-json ctx.user_id ctx.metadata)

  parse_request-delivered : parse_request (request_json a.agent_id call ctx) ≡ some sent
  unfolding parse_request request_json
  parse_request-delivered =
      ap (request_in (envelope call.call_id call.arguments (context_with ctx.user_id ctx.metadata)))
        (envelope-context call.call_id call.arguments (context_with ctx.user_id ctx.metadata))
      ∙ request_in-sent

  verify-minted :
      (registered : Fields)
      → verify_runner_token a.tool_runner_url a.workspace_id
          (inr (mint_runner_token (call_claims a call ctx) registered))
        ≡ inr (call_claims a call ctx)
  unfolding verify_runner_token mint_runner_token claims_of property
  verify-minted registered =
      ap
        (λ b.
          if b
          then scoped (call_claims a call ctx)
          else inl (unauthorized "Runner token workspace mismatch"))
        (eq_refl a.workspace_id)
      ∙ ap
          (λ b.
            if b
            then inl (unauthorized "Runner token missing required scope claims")
            else inr (call_claims a call ctx))
          (is_unscoped-claims)
    where
      is_unscoped-claims : is_unscoped (call_claims a call ctx) ≡ false
      is_unscoped-claims =
          none_empty _ _ _ _ _ _ ok.workspace (prefixed_filled a.agent_id "agt_" ok.agent refl)
            (prefixed_filled ctx.run_id "run_" ok.run refl)
            (prefixed_filled call.call_id "tc_" ok.id refl)
            (prefixed_filled call.call_id "tc_" ok.id refl) ok.tool

  is_other-sent : is_other (call_claims a call ctx) call.tool_name sent ≡ false
  is_other-sent =
      ground (
        arith,
        eq_refl a.agent_id,
        eq_refl ctx.run_id,
        eq_refl call.call_id,
        eq_refl call.tool_name,
      )

-- A call of the executor, with a token that the runtime signed for it and a runner that is
-- provisioned with the agent's URL as its audience and the agent's workspace: the token's check
-- passes every guard, and the route runs the tool of the call, with the input that the tool's
-- schema parses, under the call's id as its key and in the call's context.
pub handle-delivered :
    (a : RemoteAgent) (call : ToolCall) (ctx : ToolCallContext) (v : Runner) (token : String)
    (registered : Fields) (parse : Option Json → Option Json) (d : Json)
    → IsCallable a call ctx
    → v.expected_audience ≡ a.tool_runner_url
    → v.expected_workspace_id ≡ a.workspace_id
    → v.jwt_verify token a.tool_runner_url
      ≡ inr (mint_runner_token (call_claims a call ctx) registered)
    → v.registry call.tool_name ≡ some parse
    → parse call.arguments ≡ some d
    → handle v (delivered a call ctx token)
      ≡ executes call.call_id call.tool_name d (call_context a call ctx)
unfolding handle
handle-delivered a call ctx v token registered parse d ok audience workspace signed known parsed =
    let q : Incoming = delivered a call ctx token in
    ap
      (λ b.
        if b
        then run_parsed v call.tool_name (text_from 7 ("Bearer " <> token)) q.body
            (parse_request q.body)
        else Server.unauthorized "Invalid or missing authorization")
      (starts_with-append "Bearer " token)
    ∙ ap (λ tk. run_parsed v call.tool_name tk q.body (parse_request q.body))
        (text_from-append "Bearer " token)
    ∙ ap (run_parsed v call.tool_name token q.body) (parse_request-delivered a call ctx ok)
    ∙ ap (λ o. run_verified v call.tool_name (sent a call ctx ok) o)
        (ap (λ aud. verify_runner_token aud v.expected_workspace_id (v.jwt_verify token aud))
            audience
          ∙ ap
              (λ ws.
                verify_runner_token a.tool_runner_url ws (v.jwt_verify token a.tool_runner_url))
              workspace
          ∙ ap (verify_runner_token a.tool_runner_url a.workspace_id) signed
          ∙ verify-minted a call ctx ok registered)
    ∙ ap
        (λ b.
          if b
          then Server.unauthorized "Runner token scope does not match request"
          else run_known call.tool_name (sent a call ctx ok) (v.registry call.tool_name))
        (is_other-sent a call ctx ok)
    ∙ ap (run_known call.tool_name (sent a call ctx ok)) known
    ∙ ap (run_valid call.tool_name (sent a call ctx ok)) parsed
