-- ===== src/Tests/Run.antt =====
-- A run of the loop that calls a tool once and then answers, its database, and two rows of a table.
use swift_agent.Common.{
  ◌≤◌, Bool, true, false, ◌≡◌, refl, [], ◌∷◌, none, some, All, inr, arith, length, ltb,
}
use swift_agent.Json.{str, null, obj, end}
use swift_agent.Shared.{plain_error, running, ToolCallStatus}
use swift_agent.Db.Runs.{RunRow}
use swift_agent.Db.ToolCalls.{ToolCallRow}
use swift_agent.Db.FirstWins.{
  write_runs, write_run, completes, cancels, fails, write_runs-first_wins,
}
use swift_agent.Runtime.Loop.Defs.{World, LoopState, Chunk, Stream, answers, success}
use swift_agent.Runtime.Loop.Run.{run_agent_loop, rounds}
use swift_agent.Runtime.Loop.Settled.{SettledWhenReturned, run_agent_loop-Settled}
use swift_agent.Runtime.Loop.ToolCallsClosed.{IsClosed, run_agent_loop-closes_calls}
use swift_agent.Runtime.Loop.Allowlist.{OnlyValid, run_agent_loop-OnlyValid}
use swift_agent.Runtime.Loop.Ending.{EndsOnce, run_agent_loop-EndsOnce}
use swift_agent.Runtime.Loop.Bounds.{rounds-fuel, rounds-requests}

abbrev add_tool : Chunk
add_tool = Chunk.tool_call record { tool_name = "add"; call_id = "p1"; arguments = some (obj end) }

abbrev stream_of : Bool → Stream
stream_of true = record { chunks = add_tool ∷ []; failure = none }
stream_of false = record { chunks = Chunk.token "four" ∷ []; failure = none }

abbrev pub demo : World
demo = record {
  session_id = "s";
  run_id = "r";
  model = "m";
  tools = record { name = "add"; description = "adds"; input_schema = obj end } ∷ [];
  max_tool_iterations = 3;
  model_timeout_ms = none;
  tool_timeout_ms = some 1000;
  abort_signal = none;
  now = λ n. n;
  db_fault = λ n. none;
  no_input = plain_error "no input";
  consumer_leaves = λ n. false;
  provider_fault = none;
  generate = λ history schemas n. stream_of (ltb (length history) 2);
  execute = λ call n. answers (success (str "4"));
  fresh_id = λ n. "id";
  json = record { stringify = λ j. "{}"; parse = λ t. some null };
  compile = λ schema. inr (λ value. none);
  trim = λ t. t;
  timeout_text = λ scope n. "timed out";
  limit_text = λ n. "limit";
}

abbrev pub start : LoopState
start = record {
  moment = 0;
  messages = [];
  runs =
      record { run_id = "r"; session_id = "s"; status = running; model = "m"; token_usage = none }
      ∷ [];
  tool_calls = [];
  events = [];
  open_tool_calls = [];
  deadline_hit = none;
  assistant_text = "";
  last_usage = record { input_tokens = none; output_tokens = none; total_tokens = none };
  chunks = [];
  iteration_count = 0;
  requests = 0;
  executed = [];
}

run_agent_loop-Settled_example : SettledWhenReturned demo (run_agent_loop demo none "2 + 2" start)
run_agent_loop-Settled_example =
    run_agent_loop-Settled demo none "2 + 2" start (λ n. refl) ((λ own. refl), tt)

run_agent_loop-closes_calls_example :
    All IsClosed (run_agent_loop demo none "2 + 2" start).1.tool_calls
run_agent_loop-closes_calls_example =
    run_agent_loop-closes_calls demo none "2 + 2" start tt (λ n le. refl)

run_agent_loop-OnlyValid_example : OnlyValid demo (run_agent_loop demo none "2 + 2" start).1
run_agent_loop-OnlyValid_example = run_agent_loop-OnlyValid demo none "2 + 2" start tt

run_agent_loop-EndsOnce_example : EndsOnce (run_agent_loop demo none "2 + 2" start)
run_agent_loop-EndsOnce_example = run_agent_loop-EndsOnce demo none "2 + 2" start tt

rounds-fuel_example : rounds demo "a" 3 start ≡ rounds demo "a" 7 start
rounds-fuel_example = rounds-fuel demo "a" 3 7 start (omega arith) (omega arith)

rounds-requests_example : (rounds demo "a" 7 start).1.requests ≤ 3
rounds-requests_example = rounds-requests demo "a" 7 start (omega arith)

abbrev run_row : RunRow
run_row = record {
  run_id = "r";
  session_id = "s";
  status = running;
  model = "m";
  token_usage = none;
}

write_runs-first_wins_example :
    write_runs "r"
      (cancels
        ∷ completes record { input_tokens = 1; output_tokens = 2; total_tokens = 3 }
        ∷ fails
        ∷ [])
      (run_row ∷ [])
    ≡ write_run "r" cancels (run_row ∷ [])
write_runs-first_wins_example =
    write_runs-first_wins "r" cancels
      (completes record { input_tokens = 1; output_tokens = 2; total_tokens = 3 } ∷ fails ∷ [])
      (run_row ∷ [])

abbrev open_row : ToolCallRow
open_row = record {
  call_id = "c";
  run_id = "r";
  tool_name = "add";
  input = null;
  output = none;
  status = ToolCallStatus.started;
}
