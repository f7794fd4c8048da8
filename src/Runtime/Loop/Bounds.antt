-- ===== src/Runtime/Loop/Bounds.antt =====
-- How many model calls a run makes, and that the fuel of the loop suffices.
use swift_agent.Common.{
  ℕ, zero, suc, ◌+◌, ◌≤◌, String, Bool, true, false, ◌≡◌, refl, sym, ◌∙◌, List, [], ◌∷◌, arith,
  subst, ◌-◌,
}
use swift_agent.Runtime.Exec.{Outcome, returned, thrown, stopped, pure, gets, ◌>>=◌}
use swift_agent.Runtime.Exec.Rules.{
  Keeps, Keeps-gets, Keeps-catch, Keeps-modify, Holds, Ensures, Ensures_of_Keeps, Ensures-bind,
  Ensures-modify, bind_agree,
}
use swift_agent.Runtime.Loop.Defs.{World, LoopState, M, ToolCallChunk}
use swift_agent.Runtime.Loop.Walk.{
  Stable, Keeps-model_call, Keeps-throw_if_aborted, Keeps-prepare, Keeps-generate_id,
  Keeps-create_message, Keeps-handle_calls, Keeps-tool_round, Keeps-db, Keeps-throw_if_some,
  Keeps-clock, Keeps-consume, Keeps-on_model_error,
}
use swift_agent.Runtime.Loop.Calls.{tool_round}
use swift_agent.Runtime.Loop.Model.{model_call}
use swift_agent.Runtime.Loop.Run.{rounds, round_if, after_model}

-- At least `n` rounds with tool calls are counted.
abbrev CountedFrom : ℕ → LoopState → Type 0
CountedFrom n s = n ≤ s.iteration_count

CountedFrom-Stable : (w : World) (n : ℕ) → Stable w (CountedFrom n)
CountedFrom-Stable w n = record {
  ticks = λ s h. h;
  delivers = λ e s t h. h;
  appends = λ m s h. h;
  texts = λ t s h. h;
  usages = λ u s h. h;
  collects = λ c s h. h;
  counts = λ s h. omega arith;
  deadlines = λ f s h. h;
  creates = λ s h. h;
  opens = λ p input s h. h;
  closes = λ p output to s t h. h;
  executes = λ p s valid h. h;
}

abbrev Any : LoopState → Type 0
Any s = Unit {0}

module _ (w : World) (n : ℕ) where
  counted :
      {A : Type 0} (m : M A)
      → Keeps (CountedFrom n) m
      → Ensures (CountedFrom n) m (λ _. CountedFrom n) Any Any
  counted m k = Ensures_of_Keeps (CountedFrom n) Any Any (λ s h. tt) (λ s h. tt) m k

  then_counted :
      {A B : Type 0} {Q : LoopState → Type 0} (m : M A) (f : A → M B)
      → Keeps (CountedFrom n) m
      → ((a : A) → Ensures (CountedFrom n) (f a) (λ _. Q) Any Any)
      → Ensures (CountedFrom n) (m >>= f) (λ _. Q) Any Any
  then_counted m f k e = Ensures-bind Any Any (λ _. CountedFrom n) _ f e m (counted m k)

  -- A round with tool calls that returns is counted.
  tool_round_counts :
      (cs : List ToolCallChunk)
      → Ensures (CountedFrom n) (tool_round w cs) (λ _. CountedFrom (suc n)) Any Any
  unfolding tool_round
  tool_round_counts cs =
      let st = CountedFrom-Stable w n in
      then_counted _ _ (Keeps-prepare w (CountedFrom n) st cs) λ calls.
        then_counted _ _ (Keeps-generate_id w (CountedFrom n) st) λ id.
          then_counted _ _ (Keeps-gets _) λ text.
            then_counted _ _ (Keeps-create_message w (CountedFrom n) st id _ _) λ _.
              then_counted _ _ (Keeps-modify _ (λ s h. h)) λ _.
                then_counted _ _ (Keeps-handle_calls w (CountedFrom n) st calls) λ _.
                  Ensures-modify (CountedFrom n) (CountedFrom (suc n)) Any Any _
                    (λ s h. omega arith)

  module _ (id : String) (again again' : M (Unit {0}))
      (agree : (s : LoopState) → CountedFrom (suc n) s → again s ≡ again' s) where
    after_model-agree :
        (cs : List ToolCallChunk) (s : LoopState)
        → CountedFrom n s
        → after_model w again cs s ≡ after_model w again' cs s
    unfolding after_model
    after_model-agree [] s h = refl
    after_model-agree (c ∷ cs) s h =
        bind_agree (CountedFrom n) Any Any (λ _. CountedFrom (suc n)) _ _ (λ _. agree) _
          (tool_round_counts (c ∷ cs)) s h

    round_if-agree :
        (more : Bool) (s : LoopState)
        → CountedFrom n s
        → round_if w id again more s ≡ round_if w id again' more s
    unfolding round_if
    round_if-agree false s h = refl
    round_if-agree true s h =
        let st = CountedFrom-Stable w n in
        bind_agree (CountedFrom n) Any Any (λ _. CountedFrom n) _ _
          (λ _ s h.
            bind_agree (CountedFrom n) Any Any (λ _. CountedFrom n) _ _
              (λ _ s h.
                bind_agree (CountedFrom n) Any Any (λ _. CountedFrom n) _ _ after_model-agree _
                  (counted _ (Keeps-gets _)) s h)
              _ (counted _ (Keeps-model_call w (CountedFrom n) st (λ s h. h) id)) s h)
          _ (counted _ (Keeps-throw_if_aborted w (CountedFrom n) st)) s h

module _ (w : World) (id : String) where
  -- Where the limit is reached the test fails, whatever the fuel.
  rounds_at_limit :
      (fuel : ℕ) (s : LoopState)
      → w.max_tool_iterations ≤ s.iteration_count
      → rounds w id fuel s ≡ (returned tt, s)
  unfolding rounds round_if pure gets ◌>>=◌
  rounds_at_limit zero s h = refl
  rounds_at_limit (suc fuel) s h = ground arith

  rounds-agree :
      (fuel fuel' : ℕ) (s : LoopState)
      → ((t : LoopState)
          → CountedFrom (suc s.iteration_count) t
          → rounds w id fuel t ≡ rounds w id fuel' t)
      → rounds w id (suc fuel) s ≡ rounds w id (suc fuel') s
  unfolding rounds ◌>>=◌ gets
  rounds-agree fuel fuel' s agree =
      round_if-agree w s.iteration_count id (rounds w id fuel) (rounds w id fuel') agree _ s
        (omega arith)

  -- With fuel for all rounds up to the limit, `rounds` ends by the test of the `while`, by a
  -- `break`, by a throw or by its consumer, and never for want of fuel: any two such amounts of
  -- fuel give the same run.
  pub rounds-fuel :
      (fuel fuel' : ℕ) (s : LoopState)
      → w.max_tool_iterations ≤ fuel + s.iteration_count
      → w.max_tool_iterations ≤ fuel' + s.iteration_count
      → rounds w id fuel s ≡ rounds w id fuel' s
  rounds-fuel zero fuel' s h h' =
      rounds_at_limit zero s (omega arith) ∙ sym (rounds_at_limit fuel' s (omega arith))
  rounds-fuel (suc fuel) zero s h h' =
      rounds_at_limit (suc fuel) s (omega arith) ∙ sym (rounds_at_limit zero s (omega arith))
  rounds-fuel (suc fuel) (suc fuel') s h h' =
      rounds-agree fuel fuel' s (λ t c. rounds-fuel fuel fuel' t (omega arith) (omega arith))

-- At most `n` requests were made.
abbrev RequestsTo : ℕ → LoopState → Type 0
RequestsTo n s = s.requests ≤ n

RequestsTo-Stable : (w : World) (n : ℕ) → Stable w (RequestsTo n)
RequestsTo-Stable w n = record {
  ticks = λ s h. h;
  delivers = λ e s t h. h;
  appends = λ m s h. h;
  texts = λ t s h. h;
  usages = λ u s h. h;
  collects = λ c s h. h;
  counts = λ s h. h;
  deadlines = λ f s h. h;
  creates = λ s h. h;
  opens = λ p input s h. h;
  closes = λ p output to s t h. h;
  executes = λ p s valid h. h;
}

-- From at most `a` requests `m` comes to at most `c` where it returns, and to at most `b` anyway.
abbrev MakesTo : {A : Type 0} → ℕ → ℕ → ℕ → M A → Type 0
MakesTo a c b m = Ensures (RequestsTo a) m (λ _. RequestsTo c) (RequestsTo b) (RequestsTo b)

module _ (w : World) where
  makes_none : {A : Type 0} (a b : ℕ) (m : M A) → a ≤ b → Keeps (RequestsTo a) m → MakesTo a a b m
  makes_none a b m le k =
      Ensures_of_Keeps (RequestsTo a) (RequestsTo b) (RequestsTo b) (λ s h. omega arith)
        (λ s h. omega arith) m k

  then_makes :
      {A B : Type 0} (a a' c b : ℕ) (m : M A) (f : A → M B)
      → MakesTo a a' b m
      → ((x : A) → MakesTo a' c b (f x))
      → MakesTo a c b (m >>= f)
  then_makes a a' c b m f em ef =
      Ensures-bind (RequestsTo b) (RequestsTo b) (λ _. RequestsTo a') (λ _. RequestsTo c) f ef m em

  then_none :
      {A B : Type 0} (a c b : ℕ) (m : M A) (f : A → M B)
      → a ≤ b
      → Keeps (RequestsTo a) m
      → ((x : A) → MakesTo a c b (f x))
      → MakesTo a c b (m >>= f)
  then_none a c b m f le k = then_makes a a c b m f (makes_none a b m le k)

  model_call_makes_one : (id : String) (a b : ℕ) → suc a ≤ b → MakesTo a (suc a) b (model_call w id)
  unfolding model_call
  model_call_makes_one id a b le =
      let st = RequestsTo-Stable w a in
      let st' = RequestsTo-Stable w (suc a) in
      then_none a (suc a) b _ _ (omega arith) (Keeps-db w (RequestsTo a) st _ (λ s h. h)) λ _.
        then_none a (suc a) b _ _ (omega arith) (Keeps-throw_if_some w (RequestsTo a) st _) λ _.
          then_none a (suc a) b _ _ (omega arith) (Keeps-gets _) λ stream.
            then_makes a (suc a) (suc a) b _ _
              (Ensures-modify (RequestsTo a) (RequestsTo (suc a)) _ _ _ (λ s h. omega arith))
              λ _.
                then_none (suc a) (suc a) b _ _ le (Keeps-clock w (RequestsTo (suc a)) st') λ armed.
                  makes_none (suc a) b _ le (
                    Keeps-catch _ _ (Keeps-consume w (RequestsTo (suc a)) st' id _ _)
                      (Keeps-on_model_error w (RequestsTo (suc a)) st' armed))

  module _ (a c b : ℕ) (le : a ≤ b) (ends : a ≤ c) where
    after_model_makes :
        (again : M (Unit {0})) (cs : List ToolCallChunk)
        → MakesTo a c b again
        → MakesTo a c b (after_model w again cs)
    unfolding after_model pure
    after_model_makes again [] e = record { at = λ s h. omega arith }
    after_model_makes again (x ∷ xs) e =
        then_none a c b _ _ le (Keeps-tool_round w (RequestsTo a) (RequestsTo-Stable w a) (x ∷ xs))
          λ _. e

  round_if_makes :
      (id : String) (a b : ℕ) (again : M (Unit {0})) (more : Bool)
      → suc a ≤ b
      → MakesTo (suc a) b b again
      → MakesTo a b b (round_if w id again more)
  unfolding round_if pure
  round_if_makes id a b again false le e = record { at = λ s h. omega arith }
  round_if_makes id a b again true le e =
      then_none a b b _ _ (omega arith)
        (Keeps-throw_if_aborted w (RequestsTo a) (RequestsTo-Stable w a))
        λ _. then_makes a (suc a) b b _ _ (model_call_makes_one id a b le) λ _.
          then_none (suc a) b b _ _ le (Keeps-gets _)
            λ cs. after_model_makes (suc a) b b le le again cs e

  rounds_make : (id : String) (fuel a b : ℕ) → a + fuel ≤ b → MakesTo a b b (rounds w id fuel)
  unfolding rounds pure
  rounds_make id zero a b le = record { at = λ s h. omega arith }
  rounds_make id (suc fuel) a b le = then_none a b b _ _ (omega arith) (Keeps-gets _) λ more.
      round_if_makes id a b _ more (omega arith) (rounds_make id fuel (suc a) b (omega arith))

Holds-le :
    (b : ℕ) (r : Outcome (Unit {0})) (s : LoopState)
    → Holds (λ _. RequestsTo b) (RequestsTo b) (RequestsTo b) r s
    → s.requests ≤ b
Holds-le b (returned a) s h = h
Holds-le b (thrown f) s h = h
Holds-le b stopped s h = h

rounds_make_fuel :
    (w : World) (id : String) (fuel : ℕ) (s : LoopState)
    → (rounds w id fuel s).1.requests ≤ s.requests + fuel
rounds_make_fuel w id fuel s =
    Holds-le (s.requests + fuel) _ _
      ((rounds_make w id fuel s.requests (s.requests + fuel) (omega arith)).at s (omega arith))

-- With fuel for all rounds up to the limit, however much, the rounds of a run make, on every path,
-- at most as many requests to the model as iterations are left to the limit.
pub rounds-requests :
    (w : World) (id : String) (fuel : ℕ) (s : LoopState)
    → w.max_tool_iterations ≤ fuel + s.iteration_count
    → (rounds w id fuel s).1.requests ≤ s.requests + (w.max_tool_iterations - s.iteration_count)
rounds-requests w id fuel s enough =
    let left = w.max_tool_iterations - s.iteration_count in
    subst (λ (r : Outcome (Unit {0}) × LoopState). r.1.requests ≤ s.requests + left)
      (sym (rounds-fuel w id fuel left s enough (omega arith))) (rounds_make_fuel w id left s)
