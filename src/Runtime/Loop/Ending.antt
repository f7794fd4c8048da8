-- ===== src/Runtime/Loop/Ending.antt =====
-- How the stream of events ends.
use swift_agent.Common.{
  String, true, false, ◌≡◌, refl, List, [], ◌∷◌, ◌++◌, Option, none, some, All, All-append, ◌⊎◌,
  inl, inr, ◌+◌, subst, sym, ◌∙◌,
}
use swift_agent.Shared.{ChatEvent, Fault, RunStatus}
use swift_agent.Runtime.Exec.{Outcome, returned, thrown, stopped, catch, finally}
use swift_agent.Runtime.Exec.Rules.{Holds, Ensures_of_Keeps}
use swift_agent.Runtime.Loop.Defs.{World, LoopState, safe, write_if}
use swift_agent.Runtime.Loop.Walk.{is_terminal, Stable, Keeps-db}
use swift_agent.Runtime.Loop.Whole.{safe_keeps}
use swift_agent.Runtime.Loop.Closing.{
  Closes, Write, completes, fails, cancels, expires, closes-caught,
}
use swift_agent.Runtime.Loop.Run.{
  attempt, on_error, close_open_calls, finalize, fail_call, run_agent_loop,
}

-- The run has not told its end yet.
abbrev pub NoEnd : LoopState → Type 0
NoEnd s = All (λ e. is_terminal e ≡ false) s.events

-- The last event is the only one that ends the run.
pub record OneEnd (s : LoopState) : Type 0 where
  pub before : List ChatEvent
  pub last : ChatEvent
  pub split : s.events ≡ before ++ last ∷ []
  pub silent : All (λ e. is_terminal e ≡ false) before
  pub ends : is_terminal last ≡ true

abbrev pub AtMostOneEnd : LoopState → Type 0
AtMostOneEnd s = NoEnd s ⊎ OneEnd s

pub NoEnd-Stable : (w : World) → Stable w NoEnd
NoEnd-Stable w = record {
  ticks = λ s h. h;
  delivers = λ e s t h. All-append (λ e. is_terminal e ≡ false) s.events (e ∷ []) h (t, tt);
  appends = λ m s h. h;
  texts = λ t s h. h;
  usages = λ u s h. h;
  collects = λ c s h. h;
  counts = λ s h. h;
  deadlines = λ f s h. h;
  creates = λ s h. h;
  opens = λ p input s h. h;
  closes = λ p output to s t h. h;
  executes = λ p s valid h. h;
}

Write-quiet :
    {w : World} {f : LoopState → LoopState} {st : RunStatus}
    → Write w f st
    → (s : LoopState) → NoEnd s
    → NoEnd (f s)
Write-quiet (completes usage) s h = h
Write-quiet fails s h = h
Write-quiet cancels s h = h
Write-quiet expires s h = h

module _ (w : World) where
  -- No database write streams anything.
  NoEnd-Closes : Closes w NoEnd (λ _ _. NoEnd) OneEnd AtMostOneEnd
  NoEnd-Closes = record {
    stable = NoEnd-Stable w;
    request = λ s h. h;
    leaves = λ s h. inl h;
    writes = λ f e st wr d.
        Ensures_of_Keeps NoEnd NoEnd AtMostOneEnd (λ s h. h) (λ s h. inl h) _
          (Keeps-db w NoEnd (NoEnd-Stable w) f (Write-quiet wr));
    saves = λ f e st wr s h d. safe_keeps w NoEnd (NoEnd-Stable w) f s (Write-quiet wr) h;
    posts =
        λ e st t s h. record { before = s.events; last = e; split = refl; silent = h; ends = t };
    posts_leave = λ s h. inr h;
  }

  -- The `finally` block streams nothing.
  events-close_open_calls :
      (ids : List String) (s : LoopState) → (close_open_calls w ids s).events ≡ s.events
  unfolding close_open_calls safe
  events-close_open_calls [] s = refl
  events-close_open_calls (id ∷ ids) s =
      events-close_open_calls ids _ ∙ events-write_if (w.db_fault s.moment)
    where
      events-write_if :
          (o : Option Fault)
          → (write_if (fail_call w id) o (record s { moment = s.moment + 1 })).events ≡ s.events
      events-write_if none = refl
      events-write_if (some e) = refl

abbrev pub EndsOnce : (Outcome (Unit {0})) × LoopState → Type 0
EndsOnce (r, s) = Holds (λ _. OneEnd) (λ _. ⊥) AtMostOneEnd r s

NoEnd-of : (s t : LoopState) → t.events ≡ s.events → NoEnd s → NoEnd t
NoEnd-of s t e h = subst (λ es. All (λ e. is_terminal e ≡ false) es) (sym e) h

OneEnd-of : (s t : LoopState) → t.events ≡ s.events → OneEnd s → OneEnd t
OneEnd-of s t e h = record {
  before = h.before;
  last = h.last;
  split = e ∙ h.split;
  silent = h.silent;
  ends = h.ends;
}

EndsOnce-of :
    (r : Outcome (Unit {0})) (s t : LoopState)
    → t.events ≡ s.events
    → EndsOnce (r, s)
    → EndsOnce (r, t)
EndsOnce-of (returned a) s t e h = OneEnd-of s t e h
EndsOnce-of (thrown f) s t e h = h
EndsOnce-of stopped s t e (inl h) = inl (NoEnd-of s t e h)
EndsOnce-of stopped s t e (inr h) = inr (OneEnd-of s t e h)

-- From a stream in which no end was told yet, whatever the providers, the database, the timers and
-- the consumer do: the loop never throws; if it returns, its last event, and no other, is
-- `message_completed` or `run_failed`; if its consumer leaves at a `yield`, at most the last is.
pub run_agent_loop-EndsOnce :
    (w : World) (prepared : Option String) (content : String) (s : LoopState)
    → NoEnd s
    → EndsOnce (run_agent_loop w prepared content s)
unfolding run_agent_loop finally finalize
run_agent_loop-EndsOnce w prepared content s h =
    let (r, t) = catch (attempt w prepared content) (on_error w) s in
    EndsOnce-of r t _ (events-close_open_calls w t.open_tool_calls t)
      ((closes-caught w NoEnd _ OneEnd AtMostOneEnd (NoEnd-Closes w) prepared content).at s h)
