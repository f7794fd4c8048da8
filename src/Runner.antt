-- ===== src/Runner.antt =====
-- The tool-runner boundary: packages/shared/src/types/runner-protocol.ts, the runtime's side of it
-- and the customer's.
pub mod Token
pub mod Server
pub mod Cache
pub mod Client
pub mod Delivery
use swift_agent.Common.{
  String, Bool, true, false, not, ◌&&◌, List, [], ◌∷◌, Option, none, some, str_eq, starts_with,
  if◌then◌else◌, has_string,
}
use swift_agent.Json.{Json, str, obj, Fields, end, field, property}

pub record RequestContext : Type 0 where
  pub session_id : String
  pub agent_id : String
  pub run_id : String
  pub call_id : String
  pub user_id : Option String
  pub metadata : Option Json

pub record RunnerRequest : Type 0 where
  pub idempotency_key : String
  pub input : Option Json
  pub context : RequestContext

pub record RunnerTokenClaims : Type 0 where
  pub aud : String
  pub workspace_id : String
  pub agent_id : String
  pub run_id : String
  pub call_id : String
  pub idempotency_key : String
  pub tool_name : String

-- A field that is a text, or the empty text.
abbrev pub text_of : Option Json → String
text_of (some (str s)) = s
text_of _ = ""

abbrev pub optional_text_of : Option Json → Option String
optional_text_of (some (str s)) = some s
optional_text_of _ = none

-- `z.literal`, `z.string().startsWith`, `z.string().min(1)`, `z.string().optional()` and
-- `z.record(…).optional()` on a property.
abbrev pub is_literal : String → Option Json → Bool
is_literal text (some (str s)) = str_eq s text
is_literal text _ = false

abbrev pub is_prefixed : String → Option Json → Bool
is_prefixed start (some (str s)) = starts_with s start
is_prefixed start _ = false

abbrev pub is_filled : Option Json → Bool
is_filled (some (str s)) = not (str_eq s "")
is_filled _ = false

abbrev pub is_optional_text : Option Json → Bool
is_optional_text none = true
is_optional_text (some (str s)) = true
is_optional_text _ = false

abbrev pub is_optional_record : Option Json → Bool
is_optional_record none = true
is_optional_record (some (obj fs)) = true
is_optional_record _ = false

-- `.strict()`: no other key.
unfoldable pub has_only : List String → Fields → Bool
has_only keys end = true
has_only keys (field k j fs) = has_string k keys && has_only keys fs

-- `RunnerRequestContextSchema`
unfoldable pub is_context : Fields → Bool
unfolding has_only
is_context fs =
    is_prefixed "ses_" (property "sessionId" fs)
    && (is_prefixed "agt_" (property "agentId" fs)
        && (is_prefixed "run_" (property "runId" fs)
            && (is_prefixed "tc_" (property "callId" fs)
                && (is_optional_text (property "userId" fs)
                    && (is_optional_record (property "metadata" fs)
                        && has_only
                            ("sessionId" ∷ "agentId" ∷ "runId" ∷ "callId" ∷ "userId" ∷ "metadata"
                              ∷ [])
                            fs)))))

abbrev pub context_of : Fields → RequestContext
context_of fs = record {
  session_id = text_of (property "sessionId" fs);
  agent_id = text_of (property "agentId" fs);
  run_id = text_of (property "runId" fs);
  call_id = text_of (property "callId" fs);
  user_id = optional_text_of (property "userId" fs);
  metadata = property "metadata" fs;
}

-- `RunnerRequestSchema`, but for its context.
unfoldable pub is_request : Fields → Bool
unfolding has_only
is_request fs =
    is_literal "1" (property "version" fs)
    && (is_filled (property "idempotencyKey" fs)
        && has_only ("version" ∷ "idempotencyKey" ∷ "input" ∷ "context" ∷ []) fs)

abbrev pub request_in : Fields → Option Json → Option RunnerRequest
request_in fs (some (obj context)) =
    if is_request fs && is_context context
    then some (record {
      idempotency_key = text_of (property "idempotencyKey" fs);
      input = property "input" fs;
      context = context_of context;
    })
    else none
request_in fs _ = none

-- `ToolRunnerRequestSchema.safeParse`
unfoldable pub parse_request : Json → Option RunnerRequest
unfolding is_request is_context
parse_request (obj fs) = request_in fs (property "context" fs)
parse_request _ = none
