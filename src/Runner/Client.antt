-- ===== src/Runner/Client.antt =====
-- packages/runtime/src/tool-executor-remote.ts: a tool call over HTTP, with its retries.
pub mod Retries
use swift_agent.Common.{
  ℕ, zero, suc, ◌+◌, String, Bool, true, false, not, ◌&&◌, List, [], ◌∷◌, ◌++◌, Option, none, some,
  ◌⊎◌, inl, inr, ◌<>◌, str_eq, ltb, leb, length, byte_length, if◌then◌else◌,
}
use swift_agent.Json.{Json, null, str, obj, Fields, end, field, property, JsonText, optional_field}
use swift_agent.Shared.{Fault}
use swift_agent.Runtime.Deadlines.{Signal}
use swift_agent.Runner.{RunnerTokenClaims, is_literal, has_only}

-- packages/runtime/src/tool-executor.ts. A missing `output` or `arguments` is `none`.
pub record ToolCall : Type 0 where
  pub call_id : String
  pub tool_name : String
  pub arguments : Option Json

pub record ToolCallContext : Type 0 where
  pub session_id : String
  pub run_id : String
  pub user_id : Option String
  pub metadata : Option Fields

pub data Result : Type 0 where
  answers : Option Json → Result
  fails : String → Result

abbrev pub text_json : Option String → Option Json
text_json none = none
text_json (some s) = some (str s)

abbrev pub record_json : Option Fields → Option Json
record_json none = none
record_json (some fs) = some (obj fs)

abbrev pub context_json : String → ToolCall → ToolCallContext → Fields
context_json agent_id call ctx = field "sessionId" (str ctx.session_id) (
    field "agentId" (str agent_id) (
      field "runId" (str ctx.run_id) (
        field "callId" (str call.call_id) (
          optional_field "userId" (text_json ctx.user_id)
            (optional_field "metadata" (record_json ctx.metadata) end)))))

-- The envelope, as `JSON.stringify` sees it: without the keys that are `undefined`.
unfoldable pub request_json : String → ToolCall → ToolCallContext → Json
request_json agent_id call ctx = obj (
    field "version" (str "1") (
      field "idempotencyKey" (str call.call_id) (
        optional_field "input" call.arguments
          (field "context" (obj (context_json agent_id call ctx)) end))))

-- `readBoundedText`, on the bytes of the chunks; `none` where the limit is passed.
unfoldable pub read_chunks : ℕ → List ℕ → List (List ℕ) → Option (List ℕ)
read_chunks max_bytes total [] = some total
read_chunks max_bytes total (chunk ∷ chunks) =
    let rest = read_chunks max_bytes (total ++ chunk) chunks in
    if ltb max_bytes (length total + length chunk) then none else rest

-- `RunnerSuccessResponseSchema`: the result, which may be missing.
abbrev pub success_of : Json → Option (Option Json)
success_of (obj fs) =
    if is_literal "1" (property "version" fs) && has_only ("version" ∷ "result" ∷ []) fs
    then some (property "result" fs)
    else none
success_of _ = none

-- `RunnerErrorResponseSchema`: the error's message.
abbrev pub message_in : Option Json → Option Json → Option String
message_in (some (str code)) (some (str message)) = some message
message_in _ _ = none

abbrev pub error_in : Option Json → Option String
error_in (some (obj error)) = message_in (property "code" error) (property "message" error)
error_in _ = none

abbrev pub error_of : Json → Option String
error_of (obj fs) =
    if is_literal "1" (property "version" fs) && has_only ("version" ∷ "error" ∷ []) fs
    then error_in (property "error" fs)
    else none
error_of _ = none

pub data Interpreted : Type 0 where
  done : Result → Interpreted
  retry : String → Interpreted

abbrev pub failed_result : Option String → Result
failed_result (some message) = fails message
failed_result none = fails "Invalid runner response"

abbrev pub success_result : Json → Option (Option Json) → Result
success_result json (some output) = answers output
success_result json none = failed_result (error_of json)

abbrev pub or_text : Option String → String → String
or_text (some message) text = message
or_text none text = text

-- The numbers that messages show, the decoding of bytes, and JSON.
pub record Texts : Type 0 where
  pub show : ℕ → String
  pub decode : List ℕ → String
  pub json : JsonText

module _ (t : Texts) where
  abbrev pub parsed_text : String → Option Json
  parsed_text text = if str_eq text "" then some (obj end) else t.json.parse text

  abbrev pub is_success_status : ℕ → Bool
  is_success_status status = leb 200 status && ltb status 300

  abbrev pub interpret_json : ℕ → Option Json → Interpreted
  interpret_json status none =
      if leb 500 status
      then retry ("HTTP " <> t.show status <> ": malformed response")
      else done (fails "Invalid runner response")
  interpret_json status (some json) =
      if is_success_status status
      then done (success_result json (success_of json))
      else let message = or_text (error_of json) ("Tool runner returned " <> t.show status) in
        if leb 400 status && ltb status 500 then done (fails message) else retry message

  -- `interpret`
  unfoldable pub interpret : ℕ → String → Interpreted
  unfolding has_only
  interpret status text = interpret_json status (parsed_text text)

-- What a fetch comes to: a response with its body, if any, an abort of the attempt's signal, or
-- another error.
pub data Fetched : Type 0 where
  responds : (status : ℕ) → Option (List (List ℕ)) → Fetched
  aborts : Fetched
  breaks : (message : String) → Fetched

-- At each attempt: the fetch, and whether the caller's signal is aborted then and after the delay.
pub record Net : Type 0 where
  pub fetch : ℕ → Fetched
  pub aborted_at : ℕ → Bool
  pub aborted_after : ℕ → Bool

abbrev pub max_output_bytes : ℕ
max_output_bytes = 1048576

module _ (t : Texts) (net : Net) where
  abbrev pub body_text : Option (List (List ℕ)) → Option String
  body_text none = some ""
  body_text (some chunks) = elim (read_chunks max_output_bytes [] chunks) [
    | none ↦ none
    | some bytes ↦ some (t.decode bytes)
  ]

  abbrev pub interpret_body : ℕ → Option String → Interpreted
  interpret_body status none = done (fails "Tool runner response exceeds limit")
  interpret_body status (some text) = interpret t status text

  -- One pass of the loop: a result, or the error to remember.
  abbrev pub attempted : Fetched → Bool → Interpreted
  attempted (responds status body) aborted = interpret_body status (body_text body)
  attempted aborts true = done (fails "Aborted")
  attempted aborts false = retry "Tool execution timed out"
  attempted (breaks message) aborted = retry ("Connection error: " <> message)

  unfoldable pub attempt : ℕ → Interpreted
  unfolding interpret read_chunks
  attempt n = attempted (net.fetch n) (net.aborted_at n)

  -- What follows an attempt: `rest` is the loop from the next one.
  abbrev pub after_attempt : ℕ → ℕ → ℕ → Result × ℕ → Interpreted → Result × ℕ
  after_attempt total left n rest (done result) = (result, 1)
  after_attempt total zero n rest (retry error) =
      (fails ("Tool runner unreachable after " <> t.show total <> " attempts: " <> error), 1)
  after_attempt total (suc left) n rest (retry error) =
      if net.aborted_after n then (fails "Aborted", 1) else (rest.0, 1 + rest.1)

  -- The `for` loop from attempt n, with `left` attempts after it: the result, and the fetches made.
  unfoldable pub send_from : ℕ → ℕ → ℕ → Result × ℕ
  unfolding attempt
  send_from total zero n = after_attempt total zero n (fails "", 0) (attempt n)
  send_from total (suc left) n =
      let rest = send_from total left (n + 1) in after_attempt total (suc left) n rest (attempt n)

  -- `sendWithRetries`
  unfoldable pub send_with_retries : ℕ → Result × ℕ
  unfolding send_from
  send_with_retries max_retries = send_from (1 + max_retries) max_retries 1

-- A step of the executor that can throw.
abbrev pub with_token : Texts → Net → ℕ → String ⊎ String → Result × ℕ
with_token t net max_retries (inl error) =
    (fails ("Failed to mint runner credentials: " <> error), 0)
with_token t net max_retries (inr token) = send_with_retries t net max_retries

abbrev pub with_target : Texts → Net → ℕ → String ⊎ Unit {0} → String ⊎ String → Result × ℕ
with_target t net max_retries (inl error) token = (fails error, 0)
with_target t net max_retries (inr target) token = with_token t net max_retries token

abbrev pub or_null : Option Json → Json
or_null none = null
or_null (some j) = j

abbrev pub max_input_bytes : ℕ
max_input_bytes = 262144

-- `execute`, on the signal, what the check of the target answers, and what `mintToken` answers.
unfoldable pub execute :
    Texts → Net → ℕ → Bool → ToolCall → String ⊎ Unit {0} → String ⊎ String → Result × ℕ
unfolding send_with_retries
execute t net max_retries aborted call target token =
    if aborted
    then (fails "Aborted", 0)
    else if ltb max_input_bytes (byte_length (t.json.stringify (or_null call.arguments)))
    then (fails "Tool input exceeds limit", 0)
    else with_target t net max_retries target token
