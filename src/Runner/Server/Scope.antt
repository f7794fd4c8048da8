-- ===== src/Runner/Server/Scope.antt =====
-- tool-runner.ts and runner-token.ts: what a tool's handler runs under.
use swift_agent.Common.{
  ◌≡◌, refl, sym, ap, subst, String, Bool, true, false, not, Option, none, some, ◌⊎◌, inl, inr,
  str_eq, eq_iff, starts_with, text_from, ◌||◌, false≢true, if_cases,
}
use swift_agent.Json.{Json, str, Fields, property}
use swift_agent.Shared.{Fault}
use swift_agent.Runner.{
  RequestContext, RunnerRequest, RunnerTokenClaims, parse_request, text_of, is_literal,
}
use swift_agent.Runner.Token.{verify_runner_token, claims_of, is_unscoped}
use swift_agent.Runner.Server.{
  Incoming, Decision, executes, Runner, is_other, run_valid, run_known, run_verified, run_parsed,
  run_bearing, handle,
}

-- The invocation is the one that a token of this runner was signed for.
pub record IsScoped (v : Runner) (q : Incoming) (key name : String) (c : RequestContext)
    : Type 0 where
  pub header : String
  pub payload : Fields
  pub bearer : q.authorization ≡ some header
  pub starts : starts_with header "Bearer " ≡ true
  pub verified : v.jwt_verify (text_from 7 header) v.expected_audience ≡ inr payload
  pub workspace : property "workspaceId" payload ≡ some (str v.expected_workspace_id)
  pub agent : property "agentId" payload ≡ some (str c.agent_id)
  pub run : property "runId" payload ≡ some (str c.run_id)
  pub call : property "callId" payload ≡ some (str c.call_id)
  pub keyed : property "idempotencyKey" payload ≡ some (str key)
  pub named : property "toolName" payload ≡ some (str name)
  pub routed : q.tool_name ≡ name

filled_text :
    (o : Option Json) (x : String)
    → str_eq (text_of o) "" ≡ false
    → str_eq (text_of o) x ≡ true
    → o ≡ some (str x)
filled_text none x full same = absurd (false≢true (sym full))
filled_text (some (str s)) x full same = ap (λ t. some (str t)) ((eq_iff s x).0 same)
filled_text (some Json.null) x full same = absurd (false≢true (sym full))
filled_text (some (Json.bool b)) x full same = absurd (false≢true (sym full))
filled_text (some (Json.num b)) x full same = absurd (false≢true (sym full))
filled_text (some (Json.arr b)) x full same = absurd (false≢true (sym full))
filled_text (some (Json.obj b)) x full same = absurd (false≢true (sym full))

literal_text : (o : Option Json) (x : String) → is_literal x o ≡ true → o ≡ some (str x)
literal_text (some (str s)) x same = ap (λ t. some (str t)) ((eq_iff s x).0 same)
literal_text none x same = absurd (false≢true same)
literal_text (some Json.null) x same = absurd (false≢true same)
literal_text (some (Json.bool b)) x same = absurd (false≢true same)
literal_text (some (Json.num b)) x same = absurd (false≢true same)
literal_text (some (Json.arr b)) x same = absurd (false≢true same)
literal_text (some (Json.obj b)) x same = absurd (false≢true same)

run_valid-executes :
    (name : String) (r : RunnerRequest) (o : Option Json) (key n : String) (d : Json)
    (c : RequestContext)
    → run_valid name r o ≡ executes key n d c
    → (r.idempotency_key ≡ key) × (name ≡ n) × (r.context ≡ c)
run_valid-executes name r none key n d c h = cc
run_valid-executes name r (some e) key n d c h = (cc, cc, cc)

run_known-executes :
    (name : String) (r : RunnerRequest) (o : Option (Option Json → Option Json)) (key n : String)
    (d : Json) (c : RequestContext)
    → run_known name r o ≡ executes key n d c
    → (r.idempotency_key ≡ key) × (name ≡ n) × (r.context ≡ c)
run_known-executes name r none key n d c h = cc
run_known-executes name r (some parse) key n d c h =
    run_valid-executes name r (parse r.input) key n d c h

-- `verifyRunnerToken` answers the claims of a verified payload, all of them filled.
abbrev IsVerified : String → String → String ⊎ Fields → RunnerTokenClaims → Type 0
IsVerified audience workspace o claims =
    (payload : Fields) × (o ≡ inr payload)
    × (property "workspaceId" payload ≡ some (str workspace))
    × (is_unscoped (claims_of audience payload) ≡ false)
    × (claims_of audience payload ≡ claims)

verify-claims :
    (audience workspace : String) (o : String ⊎ Fields) (claims : RunnerTokenClaims)
    → verify_runner_token audience workspace o ≡ inr claims
    → IsVerified audience workspace o claims
unfolding verify_runner_token
verify-claims audience workspace (inl message) claims h = cc
verify-claims audience workspace (inr payload) claims h =
    if_cases
      (λ (x : Fault ⊎ RunnerTokenClaims).
        x ≡ inr claims → IsVerified audience workspace (inr payload) claims)
      (is_literal workspace (property "workspaceId" payload))
      (λ same.
        if_cases
          (λ (x : Fault ⊎ RunnerTokenClaims).
            x ≡ inr claims → IsVerified audience workspace (inr payload) claims)
          (is_unscoped (claims_of audience payload)) (λ un k. cc)
          (λ full k. (
            payload,
            refl,
            literal_text (property "workspaceId" payload) workspace same,
            full,
            cc,
          )))
      (λ other h'. cc) h

or_false : (a b : Bool) → (a || b) ≡ false → (a ≡ false) × (b ≡ false)
or_false true b h = cc
or_false false b h = (refl, h)

not-false : (a : Bool) → not a ≡ false → a ≡ true
not-false true h = refl
not-false false h = cc

-- The claims of a scope that is filled and is not another.
same_scope :
    (v : Runner) (q : Incoming) (r : RunnerRequest) (header : String) (payload : Fields)
    → q.authorization ≡ some header
    → starts_with header "Bearer " ≡ true
    → v.jwt_verify (text_from 7 header) v.expected_audience ≡ inr payload
    → property "workspaceId" payload ≡ some (str v.expected_workspace_id)
    → is_unscoped (claims_of v.expected_audience payload) ≡ false
    → is_other (claims_of v.expected_audience payload) q.tool_name r ≡ false
    → IsScoped v q r.idempotency_key q.tool_name r.context
unfolding claims_of
same_scope v q r header payload bearer starts verified workspace full same =
    let (f1, full1) = or_false _ _ full in
    let (f2, full2) = or_false _ _ full1 in
    let (f3, full3) = or_false _ _ full2 in
    let (f4, full4) = or_false _ _ full3 in
    let (f5, f6) = or_false _ _ full4 in
    let (s1, same1) = or_false _ _ same in
    let (s2, same2) = or_false _ _ same1 in
    let (s3, same3) = or_false _ _ same2 in
    let (s4, s5) = or_false _ _ same3 in
    record {
      header = header;
      payload = payload;
      bearer = bearer;
      starts = starts;
      verified = verified;
      workspace = workspace;
      agent = filled_text _ _ f2 (not-false _ s1);
      run = filled_text _ _ f3 (not-false _ s2);
      call = filled_text _ _ f4 (not-false _ s3);
      keyed = filled_text _ _ f5 (not-false _ s5);
      named = filled_text _ _ f6 (not-false _ s4);
      routed = refl;
    }

abbrev IsAccepted :
    Runner → Incoming → RunnerRequest → Fault ⊎ RunnerTokenClaims → Decision → Type 0
IsAccepted v q r o decision =
    (claims : RunnerTokenClaims) × (o ≡ inr claims)
    × (is_other claims q.tool_name r ≡ false)
    × (run_known q.tool_name r (v.registry q.tool_name) ≡ decision)

verified-executes :
    (v : Runner) (q : Incoming) (r : RunnerRequest) (o : Fault ⊎ RunnerTokenClaims)
    (key name : String) (d : Json) (c : RequestContext)
    → run_verified v q.tool_name r o ≡ executes key name d c
    → IsAccepted v q r o (executes key name d c)
verified-executes v q r (inl fault) key name d c h = cc
verified-executes v q r (inr claims) key name d c h =
    if_cases
      (λ (x : Decision).
        x ≡ executes key name d c → IsAccepted v q r (inr claims) (executes key name d c))
      (is_other claims q.tool_name r) (λ other k. cc) (λ same k. (claims, refl, same, k)) h

parsed-IsScoped :
    (v : Runner) (q : Incoming) (header key name : String) (o : Option RunnerRequest) (d : Json)
    (c : RequestContext)
    → q.authorization ≡ some header
    → starts_with header "Bearer " ≡ true
    → run_parsed v q.tool_name (text_from 7 header) q.body o ≡ executes key name d c
    → IsScoped v q key name c
parsed-IsScoped v q header key name none d c bearer starts h = cc
parsed-IsScoped v q header key name (some r) d c bearer starts h =
    let (claims, verified, same, runs) = verified-executes v q r _ key name d c h in
    let (payload, signed, workspace, full, mine) =
      verify-claims v.expected_audience v.expected_workspace_id _ claims verified in
    let (keys, names, contexts) =
      run_known-executes q.tool_name r (v.registry q.tool_name) key name d c runs in
    let scoped_ : IsScoped v q r.idempotency_key q.tool_name r.context =
      same_scope v q r header payload bearer starts signed workspace full
        (subst (λ cl. is_other cl q.tool_name r ≡ false) (sym mine) same) in
    subst (λ k. IsScoped v q k name c) keys
      (subst (λ n. IsScoped v q r.idempotency_key n c) names
        (subst (λ x. IsScoped v q r.idempotency_key q.tool_name x) contexts scoped_))

bearing-IsScoped :
    (v : Runner) (q : Incoming) (o : Option String) (key name : String) (d : Json)
    (c : RequestContext)
    → q.authorization ≡ o
    → run_bearing v q o ≡ executes key name d c
    → IsScoped v q key name c
bearing-IsScoped v q none key name d c bearer h = cc
bearing-IsScoped v q (some header) key name d c bearer h =
    if_cases (λ (x : Decision). x ≡ executes key name d c → IsScoped v q key name c)
      (starts_with header "Bearer ")
      (λ starts k. parsed-IsScoped v q header key name (parse_request q.body) d c bearer starts k)
      (λ no k. cc) h

-- Where the route runs a tool, the request has a bearer token that the check for this runner's
-- audience accepts, and the token's claims are this runner's workspace and the agent, run, call,
-- idempotency key and tool of the request that is run.
pub handle-IsScoped :
    (v : Runner) (q : Incoming) (key name : String) (d : Json) (c : RequestContext)
    → handle v q ≡ executes key name d c
    → IsScoped v q key name c
unfolding handle
handle-IsScoped v q key name d c h = bearing-IsScoped v q q.authorization key name d c refl h
