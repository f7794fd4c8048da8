-- ===== src/Runtime/Loop/Calls.antt =====
-- The tool calls of one round.
use swift_agent.Common.{
  ◌<>◌, ◌+◌, String, List, [], ◌∷◌, ◌++◌, Option, none, some, add_string, remove_string,
}
use swift_agent.Json.{Json, str, arr, obj, Items, nil, cons, field, end, optional_field}
use swift_agent.Shared.{
  DeadlineScope, ToolCallStatus, completed, failed, tool_call_started, tool_call_completed,
}
use swift_agent.Db.ToolCalls
use swift_agent.Runtime.Deadlines.{derive_call_deadline, timeout_reason}
use swift_agent.Runtime.Exec.{pure, gets, modify, ◌>>=◌, ◌>>◌}
use swift_agent.Runtime.Tools.{ToolValidationError, build_tool_index, validate_tool_call}
use swift_agent.Runtime.Loop.Defs.{
  World, LoopState, M, db, refused, emit, clock, generate_id, create_message, PreparedCall,
  ToolCallChunk, ToolCallResult, success, failure, ExecutorAnswer, answers, throws,
}
use swift_agent.Runtime.Loop.Defs
use swift_agent.Runtime.Loop.Model.{note_deadline, throw_if_some}

module _ (w : World) where
  -- `toolCallChunks.map(…)`: every call gets an id of our own.
  unfoldable pub prepare : List ToolCallChunk → M (List PreparedCall)
  prepare [] = pure []
  prepare (tc ∷ tcs) = do
    id ← generate_id w
    rest ← prepare tcs
    pure (
        record {
          swift_call_id = id;
          provider_call_id = tc.call_id;
          tool_name = tc.tool_name;
          arguments = tc.arguments;
        }
        ∷ rest)

  -- The JSON that the assistant message persists.
  unfoldable pub calls_json : List PreparedCall → Items
  calls_json [] = nil
  calls_json (p ∷ ps) =
      cons
        (obj (
          field "swiftCallId" (str p.swift_call_id) (
            field "providerCallId" (str p.provider_call_id)
              (field "toolName" (str p.tool_name) (optional_field "arguments" p.arguments end)))))
        (calls_json ps)

  unfoldable pub assistant_json : String → List PreparedCall → Json
  unfolding calls_json
  assistant_json text ps =
      obj (field "text" (str text) (field "toolCalls" (arr (calls_json ps)) end))

  unfoldable pub tool_json : PreparedCall → String → Json
  tool_json p result = obj (
      field "swiftCallId" (str p.swift_call_id) (
        field "providerCallId" (str p.provider_call_id)
          (field "toolName" (str p.tool_name) (field "result" (str result) end))))

  abbrev pub open_call : PreparedCall → Json → LoopState → LoopState
  open_call p input s = record s {
    tool_calls = ToolCalls.create p.swift_call_id w.run_id p.tool_name input s.tool_calls;
    open_tool_calls = add_string p.swift_call_id s.open_tool_calls;
  }

  -- `deps.db.toolCalls.create` on `input: p.arguments`, and `openToolCalls.add`.
  unfoldable pub create_call : PreparedCall → Option Json → M (Unit {0})
  create_call p none = refused w.no_input
  create_call p (some input) = db w (open_call p input)

  abbrev pub close_call : PreparedCall → Json → ToolCallStatus → LoopState → LoopState
  close_call p output to s = record s {
    tool_calls = ToolCalls.update_result p.swift_call_id output to s.tool_calls;
    open_tool_calls = remove_string p.swift_call_id s.open_tool_calls;
  }

  -- A call that fails validation: recorded, and never executed. Answers the status and the text.
  unfoldable pub reject : PreparedCall → ToolValidationError → M (ToolCallStatus × String)
  reject p e = do
    let text = "Tool call rejected (" <> e.code <> "): " <> e.message
    db w (close_call p (str text) failed)
    pure (failed, text)

  -- A throw of the executor is a failed result.
  abbrev pub result_of : ExecutorAnswer → ToolCallResult
  result_of (answers r) = r
  result_of (throws f) = failure f.message

  abbrev pub run_executor : PreparedCall → LoopState → ToolCallResult
  run_executor p s = result_of (w.execute p s.moment)

  unfoldable pub record_result : PreparedCall → ToolCallResult → M (ToolCallStatus × String)
  record_result p (success output) = do
    db w (close_call p output completed)
    pure (completed, w.json.stringify output)
  record_result p (failure error) = do db w (close_call p (str error) failed); pure (failed, error)

  -- A validated call under its deadline.
  unfoldable pub execute_call : PreparedCall → M (ToolCallStatus × String)
  unfolding record_result
  execute_call p = do
    armed ← clock w
    result ← gets (run_executor p)
    modify λ s. record s { executed = s.executed ++ p ∷ [] }
    time ← clock w
    answer ← record_result p result
    modify (
        note_deadline (
          timeout_reason
            (derive_call_deadline w.timeout_text w.abort_signal DeadlineScope.tool_call
              w.tool_timeout_ms armed time)
            time))
    pure answer

  abbrev pub verdict : PreparedCall → Option ToolValidationError
  verdict p = validate_tool_call w.trim (build_tool_index w.compile w.tools) p.tool_name p.arguments

  unfoldable pub gate : PreparedCall → Option ToolValidationError → M (ToolCallStatus × String)
  unfolding reject execute_call
  gate p (some e) = reject p e
  gate p none = execute_call p

  -- The body of `for (const p of preparedCalls)`.
  unfoldable pub handle_call : PreparedCall → M (Unit {0})
  unfolding gate create_call
  handle_call p = do
    emit w (tool_call_started p.swift_call_id w.run_id w.session_id p.tool_name)
    create_call p p.arguments
    (status, text) ← gate p (verdict p)
    emit w (tool_call_completed p.swift_call_id w.run_id w.session_id p.tool_name status)
    id ← generate_id w
    create_message w id Defs.tool (w.json.stringify (tool_json p text))
    hit ← gets λ s. s.deadline_hit
    throw_if_some hit

  unfoldable pub handle_calls : List PreparedCall → M (Unit {0})
  unfolding handle_call
  handle_calls [] = pure tt
  handle_calls (p ∷ ps) = do handle_call p; handle_calls ps

  -- `if (hadToolCalls) { … }`, up to the count of the round.
  unfoldable pub tool_round : List ToolCallChunk → M (Unit {0})
  unfolding prepare handle_calls
  tool_round chunks = do
    calls ← prepare chunks
    id ← generate_id w
    text ← gets λ s. s.assistant_text
    create_message w id Defs.assistant (w.json.stringify (assistant_json text calls))
    modify λ s. record s { assistant_text = "" }
    handle_calls calls
    modify λ s. record s { iteration_count = s.iteration_count + 1 }
