-- ===== src/Tests/Runner.antt =====
-- A tool call at its runner, the runner's cache, and the executor's retries.
use swift_agent.Common.{
  ◌≡◌, refl, ℕ, zero, suc, ◌+◌, ◌≤◌, ◌<◌, true, false, List, [], ◌∷◌, Option, none, some, inr, All,
  arith, length, leb, if◌then◌else◌, get_key, set_key,
}
use swift_agent.Json.{Json, null, obj, end}
use swift_agent.Runner.Token.{mint_runner_token}
use swift_agent.Runner.Server.{executes, Runner, handle}
use swift_agent.Runner.Server.Scope.{IsScoped, handle-IsScoped}
use swift_agent.Runner.Cache.{run}
use swift_agent.Runner.Cache.Steps.{Event, requests, settles, fresh, apply_all, AllHaveRoom}
use swift_agent.Runner.Cache.Once.{run-joins}
use swift_agent.Runner.Cache.Bounds.{run-repeats_evicted}
use swift_agent.Runner.Client.{
  ToolCall, ToolCallContext, Texts, Net, Fetched, responds, breaks, Result, done, attempt,
  send_with_retries, read_chunks,
}
use swift_agent.Runner.Client.Retries.{is_retry, concat, send_with_retries-Sends, read_chunks-bound}
use swift_agent.Runner.Delivery.{
  RemoteAgent, IsCallable, call_claims, delivered, call_context, handle-delivered,
}

abbrev hosted : RemoteAgent
hosted = record { agent_id = "agt_1"; workspace_id = "ws_1"; tool_runner_url = "https://runner" }

abbrev sum_call : ToolCall
sum_call = record { call_id = "tc_1"; tool_name = "add"; arguments = some (obj end) }

abbrev add_context : ToolCallContext
add_context = record { session_id = "ses_1"; run_id = "run_1"; user_id = some "u"; metadata = none }

abbrev accept : Option Json → Option Json
accept none = none
accept (some j) = some j

abbrev runner : Runner
runner = record {
  expected_audience = "https://runner";
  expected_workspace_id = "ws_1";
  jwt_verify =
      λ token audience. inr (mint_runner_token (call_claims hosted sum_call add_context) end);
  registry = λ name. some accept;
}

sum_call-IsCallable : IsCallable hosted sum_call add_context
sum_call-IsCallable = record {
  session = refl;
  agent = refl;
  run = refl;
  id = refl;
  workspace = refl;
  tool = refl;
}

handle-delivered_example :
    handle runner (delivered hosted sum_call add_context "t")
    ≡ executes "tc_1" "add" (obj end) (call_context hosted sum_call add_context)
handle-delivered_example =
    handle-delivered hosted sum_call add_context runner "t" end accept (obj end) sum_call-IsCallable
      refl refl refl refl refl

handle-IsScoped_example :
    IsScoped runner
      (delivered hosted sum_call add_context "t")
      "tc_1"
      "add"
      (call_context hosted sum_call add_context)
handle-IsScoped_example =
    handle-IsScoped runner (delivered hosted sum_call add_context "t") "tc_1" "add" (obj end)
      (call_context hosted sum_call add_context)
      (handle-delivered hosted sum_call add_context runner "t" end accept (obj end)
        sum_call-IsCallable refl refl refl refl refl)

abbrev two_calls : List Event
two_calls = requests "tc_1" 0 ∷ requests "tc_2" 5 ∷ settles 1 7 ∷ requests "tc_1" 9 ∷ []

two_calls-have_room : AllHaveRoom 100 10 two_calls fresh
unfolding AllHaveRoom get_key set_key
two_calls-have_room = (omega arith, (omega arith, (tt, (omega arith, tt))))

run-joins_example :
    All
      (λ x.
        (now : ℕ)
        → let c = (apply_all 100 10 two_calls fresh).cache in
          ((run 100 10 x.key now c).0 ≡ x.promise)
          × ((run 100 10 x.key now c).1.executions ≡ c.executions))
      (apply_all 100 10 two_calls fresh).executions
run-joins_example = run-joins 100 10 two_calls two_calls-have_room

run-repeats_evicted_example :
    let c =
      (run 100 1 "tc_2" 3 (record {
        entries = ("tc_1", record { promise = 0; settled_at = none }) ∷ [];
        executions = 1;
      })).1 in
    (run 100 1 "tc_1" 4 c).1.executions ≡ c.executions + 1
unfolding get_key
run-repeats_evicted_example =
    run-repeats_evicted 100 1 3 4 0 "tc_1" "tc_2" [] 1 (omega arith) refl refl

abbrev texts : Texts
texts = record {
  show = λ n. "n";
  decode = λ bytes. "text";
  json = record { stringify = λ j. "{}"; parse = λ t. some null };
}

abbrev fetched : ℕ → Fetched
fetched zero = breaks "reset"
fetched (suc zero) = responds 503 none
fetched (suc (suc n)) = responds 404 none

abbrev net : Net
net = record { fetch = fetched; aborted_at = λ n. false; aborted_after = λ n. false }

send_with_retries-Sends_example :
    ((send_with_retries texts net 3).1 ≤ 1 + 3)
    × ((i : ℕ)
        → i + 1 < (send_with_retries texts net 3).1
        → is_retry (attempt texts net (1 + i)) ≡ true)
    × ((k : ℕ) (result : Result)
        → k ≤ 3
        → ((i : ℕ) → i < k → is_retry (attempt texts net (1 + i)) ≡ true)
        → ((i : ℕ) → i < k → net.aborted_after (1 + i) ≡ false)
        → attempt texts net (1 + k) ≡ done result
        → send_with_retries texts net 3 ≡ (result, 1 + k))
send_with_retries-Sends_example = send_with_retries-Sends texts net 3

read_chunks-bound_example : read_chunks 3 [] ((1 ∷ 2 ∷ []) ∷ (3 ∷ []) ∷ []) ≡ (
    if leb (length (concat ((1 ∷ 2 ∷ []) ∷ (3 ∷ []) ∷ []))) 3
    then some (concat ((1 ∷ 2 ∷ []) ∷ (3 ∷ []) ∷ []))
    else none)
read_chunks-bound_example = read_chunks-bound 3 ((1 ∷ 2 ∷ []) ∷ (3 ∷ []) ∷ [])
