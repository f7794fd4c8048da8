-- ===== src/Runtime/Loop/Run.antt =====
-- The whole of `runAgentLoop`: the rounds, the completion, the `catch` and the `finally`. No tracer
-- is configured, so the calls through `trace?.` are skipped.
use swift_agent.Common.{
  ℕ, zero, suc, String, Bool, true, false, List, [], ◌∷◌, Option, none, some, str_eq, ltb, leb,
  if◌then◌else◌,
}
use swift_agent.Shared.{Fault, message_started, message_completed, run_failed}
use swift_agent.Db.Runs
use swift_agent.Db.Runs.{TokenUsage}
use swift_agent.Db.ToolCalls
use swift_agent.Runtime.Deadlines.{aborted, timeout_reason}
use swift_agent.Runtime.Exec.{pure, gets, modify, catch, finally, ◌>>=◌, ◌>>◌}
use swift_agent.Runtime.Loop.Defs.{
  World, LoopState, M, tick, db, safe, emit, generate_id, create_message, Usage, ToolCallChunk,
}
use swift_agent.Runtime.Loop.Defs
use swift_agent.Runtime.Loop.Model.{throw_if_aborted, model_call}
use swift_agent.Runtime.Loop.Calls.{tool_round}

abbrev pub or_zero : Option ℕ → ℕ
or_zero none = 0
or_zero (some n) = n

abbrev pub usage_or_zero : Usage → TokenUsage
usage_or_zero u = record {
  input_tokens = or_zero u.input_tokens;
  output_tokens = or_zero u.output_tokens;
  total_tokens = or_zero u.total_tokens;
}

-- `deadlineHit ?? timeoutReason(ctx.abortSignal)`
abbrev pub or_else : Option Fault → Option Fault → Option Fault
or_else (some f) g = some f
or_else none g = g

pub data Cause : Type 0 where
  timed_out : Fault → Cause
  cancelled failure : Cause

abbrev pub cause_of : Option Fault → Option Fault → Cause
cause_of (some f) abort = timed_out f
cause_of none (some f) = cancelled
cause_of none none = failure

abbrev pub code_or_internal : Option String → String
code_or_internal none = "INTERNAL"
code_or_internal (some c) = c

module _ (w : World) where
  abbrev pub create_run : LoopState → LoopState
  create_run s = record s { runs = Runs.create w.run_id w.session_id w.model s.runs }

  -- Steps 1 to 3, on `prepared?.userMessageId`.
  unfoldable pub prologue : Option String → String → M (Unit {0})
  prologue (some message_id) user_content =
      emit w (message_started message_id w.run_id w.session_id)
  prologue none user_content = do
    message_id ← generate_id w
    create_message w message_id Defs.user user_content
    emit w (message_started message_id w.run_id w.session_id)
    db w create_run

  -- What a round goes on to: `continue` after tool calls, `break` without.
  unfoldable pub after_model : M (Unit {0}) → List ToolCallChunk → M (Unit {0})
  after_model again [] = pure tt
  after_model again (c ∷ cs) = do tool_round w (c ∷ cs); again

  abbrev pub below_limit : LoopState → Bool
  below_limit s = ltb s.iteration_count w.max_tool_iterations

  -- One pass of the `while`, if its test holds.
  unfoldable pub round_if : String → M (Unit {0}) → Bool → M (Unit {0})
  unfolding after_model
  round_if assistant_message_id again false = pure tt
  round_if assistant_message_id again true = do
    throw_if_aborted w
    model_call w assistant_message_id
    chunks ← gets λ s. s.chunks
    after_model again chunks

  -- `while (ctx.iterationCount < maxToolIterations)`, on fuel.
  unfoldable pub rounds : String → ℕ → M (Unit {0})
  unfolding round_if
  rounds assistant_message_id zero = pure tt
  rounds assistant_message_id (suc fuel) = do
    more ← gets below_limit
    round_if assistant_message_id (rounds assistant_message_id fuel) more

  -- `if (assistantText) await messages.create(…)`
  unfoldable pub persist_text : String → String → M (Unit {0})
  persist_text assistant_message_id text =
      if str_eq text "" then pure tt else create_message w assistant_message_id Defs.assistant text

  abbrev pub fail_run : LoopState → LoopState
  fail_run s = record s { runs = Runs.fail w.run_id s.runs }

  abbrev pub cancel_run : LoopState → LoopState
  cancel_run s = record s { runs = Runs.cancel w.run_id s.runs }

  abbrev pub time_out_run : LoopState → LoopState
  time_out_run s = record s { runs = Runs.timeout w.run_id s.runs }

  abbrev pub complete_run : TokenUsage → LoopState → LoopState
  complete_run usage s = record s { runs = Runs.complete w.run_id usage s.runs }

  -- Steps 5 and 6, on `ctx.iterationCount >= maxToolIterations`.
  unfoldable pub epilogue : String → Bool → M (Unit {0})
  unfolding persist_text
  epilogue assistant_message_id true = do
    text ← gets λ s. s.assistant_text
    persist_text assistant_message_id text
    db w fail_run
    emit w (run_failed w.run_id w.session_id "MAX_ITERATIONS" (w.limit_text w.max_tool_iterations))
  epilogue assistant_message_id false = do
    text ← gets λ s. s.assistant_text
    persist_text assistant_message_id text
    usage ← gets λ s. s.last_usage
    db w (complete_run (usage_or_zero usage))
    emit w (message_completed assistant_message_id w.run_id w.session_id)

  -- The `try` block.
  unfoldable pub attempt : Option String → String → M (Unit {0})
  unfolding prologue epilogue
  attempt prepared user_content = do
    prologue prepared user_content
    assistant_message_id ← generate_id w
    rounds assistant_message_id w.max_tool_iterations
    over ← gets λ s. leb w.max_tool_iterations s.iteration_count
    epilogue assistant_message_id over

  -- `classifyTerminal`, with the fault that fired.
  unfoldable pub classify_terminal : LoopState → Cause
  classify_terminal s =
      cause_of (or_else s.deadline_hit (timeout_reason w.abort_signal (w.now s.moment)))
        (aborted w.abort_signal (w.now s.moment))

  -- The `catch` block, on the cause.
  unfoldable pub report : Fault → Cause → M (Unit {0})
  report error (timed_out fired) = do
    modify (safe w time_out_run)
    emit w (run_failed w.run_id w.session_id "TIMED_OUT" fired.message)
  report error cancelled = do
    modify (safe w cancel_run)
    emit w (run_failed w.run_id w.session_id "CANCELLED" "Run was cancelled")
  report error failure = do
    modify (safe w fail_run)
    emit w (run_failed w.run_id w.session_id (code_or_internal error.code) error.message)

  unfoldable pub on_error : Fault → M (Unit {0})
  unfolding report
  on_error error = do cause ← gets classify_terminal; report error cause

  -- The `finally` block: every open tool call is failed, best effort.
  abbrev pub fail_call : String → LoopState → LoopState
  fail_call id s = record s { tool_calls = ToolCalls.fail id s.tool_calls }

  unfoldable pub close_open_calls : List String → LoopState → LoopState
  close_open_calls [] s = s
  close_open_calls (id ∷ ids) s = close_open_calls ids (safe w (fail_call id) s)

  unfoldable pub finalize : LoopState → LoopState
  unfolding close_open_calls
  finalize s = close_open_calls s.open_tool_calls s

  unfoldable pub run_agent_loop : Option String → String → M (Unit {0})
  unfolding attempt on_error finalize
  run_agent_loop prepared user_content =
      finally (catch (attempt prepared user_content) on_error) finalize
