-- ===== src/Runtime/Loop/Allowlist.antt =====
-- Which tool calls reach the executor.
use swift_agent.Common.{String, ◌≡◌, [], ◌∷◌, Option, none, All, All-append}
use swift_agent.Runtime.Loop.Defs.{World, LoopState}
use swift_agent.Runtime.Loop.Calls.{verdict}
use swift_agent.Runtime.Loop.Walk.{Stable}
use swift_agent.Runtime.Loop.Whole.{run_agent_loop-Keeps}
use swift_agent.Runtime.Loop.Run.{run_agent_loop}

-- All that the executor was given had passed validation.
abbrev pub OnlyValid : World → LoopState → Type 0
OnlyValid w s = All (λ p. verdict w p ≡ none) s.executed

OnlyValid-Stable : (w : World) → Stable w (OnlyValid w)
OnlyValid-Stable w = record {
  ticks = λ s h. h;
  delivers = λ e s t h. h;
  appends = λ m s h. h;
  texts = λ t s h. h;
  usages = λ u s h. h;
  collects = λ c s h. h;
  counts = λ s h. h;
  deadlines = λ f s h. h;
  creates = λ s h. h;
  opens = λ p input s h. h;
  closes = λ p output to s t h. h;
  executes = λ p s valid h. All-append (λ p. verdict w p ≡ none) s.executed (p ∷ []) h (valid, tt);
}

-- On every path through the loop, whatever the providers, the database, the timers and the consumer
-- do, every tool call that is handed to the executor had passed `validateToolCall` against the
-- run's own tool index, provided that this holds of the calls executed before the run.
pub run_agent_loop-OnlyValid :
    (w : World) (prepared : Option String) (content : String) (s : LoopState)
    → OnlyValid w s
    → OnlyValid w (run_agent_loop w prepared content s).1
run_agent_loop-OnlyValid w prepared content s h =
    (run_agent_loop-Keeps w (OnlyValid w) (OnlyValid-Stable w) (λ e s h. h) (λ s h. h) (λ r s h. h)
        (λ c s h. h) prepared content).at
      s h
