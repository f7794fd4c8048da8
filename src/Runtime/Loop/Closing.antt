-- ===== src/Runtime/Loop/Closing.antt =====
-- One walk through the ways in which the loop closes a run: a terminal write, then its event, in
-- the `try` block and in the `catch` block.
use swift_agent.Common.{
  ℕ, String, Bool, true, false, ◌≡◌, refl, sym, subst, Option, ◌⊎◌, inl, inr, ◌+◌, ◌≤◌, arith,
}
use swift_agent.Shared.{
  ChatEvent, message_started, token, tool_call_started, tool_call_completed, message_completed,
  run_failed, Fault, RunStatus, completed, failed,
}
use swift_agent.Db.Runs.{TokenUsage}
use swift_agent.Runtime.Exec.{modify, gets, ◌>>=◌, catch}
use swift_agent.Runtime.Exec.Rules.{
  Keeps, Keeps-gets, Holds, Ensures, Ensures_of_Keeps, Ensures-bind, Ensures-catch, Ensures-modify,
}
use swift_agent.Runtime.Loop.Defs.{World, LoopState, M, emit, resume, deliver, safe, db}
use swift_agent.Runtime.Loop.Walk.{
  is_terminal, Stable, Keeps-generate_id, Keeps-prologue, Keeps-rounds, Keeps-persist_text,
}
use swift_agent.Runtime.Loop.Run.{
  epilogue, attempt, on_error, report, Cause, timed_out, cancelled, failure, time_out_run,
  cancel_run, fail_run, complete_run, cause_of, or_else, classify_terminal,
}
use swift_agent.Runtime.Deadlines.{aborted, timeout_reason}

-- The code and the status that go with a cause. A failure passes on the code of its error, so that
-- its code says nothing about the status.
abbrev pub Says : Cause → String → RunStatus → Type 0
Says (timed_out fired) code st = (code ≡ "TIMED_OUT") × (st ≡ RunStatus.timed_out)
Says cancelled code st = (code ≡ "CANCELLED") × (st ≡ RunStatus.cancelled)
Says failure code st = st ≡ failed

-- The code of the iteration limit, or what goes with the cause that the deadline which fired and
-- the abort signal give at a moment of the loop.
abbrev pub SaysAt : World → Option Fault → ℕ → String → RunStatus → Type 0
SaysAt w hit moment code st =
    ((code ≡ "MAX_ITERATIONS") × (st ≡ failed))
    ⊎ ((m : ℕ) × (m ≤ moment)
        × Says
            (cause_of (or_else hit (timeout_reason w.abort_signal (w.now m)))
              (aborted w.abort_signal (w.now m)))
            code st)

-- The status that a terminal event tells in a state of the loop.
abbrev pub Told : World → LoopState → ChatEvent → RunStatus → Type 0
Told w s (message_completed message_id run_id session_id) st = st ≡ completed
Told w s (run_failed run_id session_id code message) st = SaysAt w s.deadline_hit s.moment code st
Told w s e st = ⊥

SaysAt-later :
    (w : World) (hit : Option Fault) (m n : ℕ) (code : String) (st : RunStatus)
    → m ≤ n
    → SaysAt w hit m code st
    → SaysAt w hit n code st
SaysAt-later w hit m n code st le (inl limit) = inl limit
SaysAt-later w hit m n code st le (inr (k, below, says)) = inr (k, omega (arith, below, le), says)

-- Later states of the loop tell the same, as long as the deadline that fired stays.
pub Told-later :
    (w : World) (s t : LoopState) (e : ChatEvent) (st : RunStatus)
    → t.deadline_hit ≡ s.deadline_hit
    → s.moment ≤ t.moment
    → Told w s e st
    → Told w t e st
Told-later w s t (message_completed m r i) st same later told = told
Told-later w s t (run_failed r i code m) st same later told =
    subst (λ hit. SaysAt w hit t.moment code st) (sym same)
      (SaysAt-later w s.deadline_hit s.moment t.moment code st later told)
Told-later w s t (message_started m r i) st same later told = absurd told
Told-later w s t (token r i m x) st same later told = absurd told
Told-later w s t (tool_call_started c r i x) st same later told = absurd told
Told-later w s t (tool_call_completed c r i x y) st same later told = absurd told

-- The terminal writes of the run's row, by the status that they set.
pub data Write (w : World) : (LoopState → LoopState) → RunStatus → Type 0 where
  completes : (usage : TokenUsage) → Write w (complete_run w usage) completed
  fails : Write w (fail_run w) failed
  cancels : Write w (cancel_run w) RunStatus.cancelled
  expires : Write w (time_out_run w) RunStatus.timed_out

-- `P` before the terminal write of `st`, `Mid e st` between it and its event `e`, `Post` after, and
-- `Y` where the consumer has left.
pub record Closes (w : World) (P : LoopState → Type 0)
    (Mid : ChatEvent → RunStatus → LoopState → Type 0) (Post Y : LoopState → Type 0) : Type 1 where
  pub stable : Stable w P
  pub request : (s : LoopState) → P s → P (record s { requests = s.requests + 1 })
  pub leaves : (s : LoopState) → P s → Y s
  pub writes :
      (f : LoopState → LoopState) (e : ChatEvent) (st : RunStatus)
      → Write w f st
      → ((s : LoopState) → Told w s e st)
      → Ensures P (db w f) (λ _. Mid e st) P Y
  pub saves :
      (f : LoopState → LoopState) (e : ChatEvent) (st : RunStatus)
      → Write w f st
      → (s : LoopState) → P s
      → Told w s e st
      → Mid e st (safe w f s)
  pub posts :
      (e : ChatEvent) (st : RunStatus)
      → is_terminal e ≡ true
      → (s : LoopState) → Mid e st s
      → Post (deliver e s)
  pub posts_leave : (s : LoopState) → Post s → Y s

module _ (w : World) (P : LoopState → Type 0) (Mid : ChatEvent → RunStatus → LoopState → Type 0)
    (Post Y : LoopState → Type 0) (c : Closes w P Mid Post Y) where
  -- `m` closes the run when it returns; `X` is what holds when it throws.
  abbrev ClosesRun : (LoopState → Type 0) → M (Unit {0}) → Type 0
  ClosesRun X m = Ensures P m (λ _. Post) X Y

  after_quiet :
      {A : Type 0} (m : M A) (f : A → M (Unit {0}))
      → Keeps P m
      → ((a : A) → ClosesRun P (f a))
      → ClosesRun P (m >>= f)
  after_quiet m f k e =
      Ensures-bind P Y (λ _. P) (λ _. Post) f e m (Ensures_of_Keeps P P Y (λ s h. h) c.leaves m k)

  resume_ends :
      (X : LoopState → Type 0) (b : Bool) (s : LoopState)
      → Post s
      → Holds (λ _. Post) X Y (resume b s).0 (resume b s).1
  resume_ends X true s h = c.posts_leave s h
  resume_ends X false s h = h

  ends_with :
      (X : LoopState → Type 0) (e : ChatEvent) (st : RunStatus)
      → is_terminal e ≡ true
      → Ensures (Mid e st) (emit w e) (λ _. Post) X Y
  unfolding emit
  ends_with X e st t = record { at = λ s h. resume_ends X _ _ (c.posts e st t s h) }

  Write-then :
      (f : LoopState → LoopState) (e : ChatEvent) (st : RunStatus)
      → Write w f st
      → ((s : LoopState) → Told w s e st)
      → is_terminal e ≡ true
      → ClosesRun P (db w f >>= λ _. emit w e)
  Write-then f e st wr d t =
      Ensures-bind P Y (λ _. Mid e st) (λ _. Post) _ (λ _. ends_with P e st t) _
        (c.writes f e st wr d)

  closes-epilogue : (id : String) (over : Bool) → ClosesRun P (epilogue w id over)
  unfolding epilogue
  closes-epilogue id true = after_quiet _ _ (Keeps-gets _) λ text.
      after_quiet _ _ (Keeps-persist_text w P c.stable id text)
        λ _. Write-then _ _ failed fails (λ s. inl (refl, refl)) refl
  closes-epilogue id false = after_quiet _ _ (Keeps-gets _) λ text.
      after_quiet _ _ (Keeps-persist_text w P c.stable id text) λ _.
        after_quiet _ _ (Keeps-gets _)
          λ usage. Write-then _ _ completed (completes _) (λ s. refl) refl

  closes-attempt :
      (prepared : Option String) (content : String) → ClosesRun P (attempt w prepared content)
  unfolding attempt
  closes-attempt prepared content =
      after_quiet _ _ (Keeps-prologue w P c.stable prepared content) λ _.
        after_quiet _ _ (Keeps-generate_id w P c.stable) λ id.
          after_quiet _ _ (Keeps-rounds w P c.stable c.request id _)
            λ _. after_quiet _ _ (Keeps-gets _) λ over. closes-epilogue id over

  -- `P` holds, and the `catch` block has found this cause.
  abbrev Caught : Cause → LoopState → Type 0
  Caught cause s = P s × (classify_terminal w s ≡ cause)

  save_then :
      (cause : Cause) (f : LoopState → LoopState) (e : ChatEvent) (st : RunStatus)
      → Write w f st
      → ((s : LoopState) → Caught cause s → Told w s e st)
      → is_terminal e ≡ true
      → Ensures (Caught cause) (modify (safe w f) >>= λ _. emit w e) (λ _. Post) (λ _. ⊥) Y
  save_then cause f e st wr d t =
      Ensures-bind (λ _. ⊥) Y (λ _. Mid e st) (λ _. Post) _ (λ _. ends_with (λ _. ⊥) e st t) _
        (Ensures-modify (Caught cause) (Mid e st) (λ _. ⊥) Y _
          (λ s h. c.saves f e st wr s h.0 (d s h)))

  Caught-Says :
      (cause : Cause) (code : String) (st : RunStatus) (s : LoopState)
      → Says cause code st
      → Caught cause s
      → SaysAt w s.deadline_hit s.moment code st
  unfolding classify_terminal
  Caught-Says cause code st s says h =
      inr (s.moment, omega arith, subst (λ x. Says x code st) (sym h.1) says)

  closes-report :
      (error : Fault) (cause : Cause)
      → Ensures (Caught cause) (report w error cause) (λ _. Post) (λ _. ⊥) Y
  unfolding report
  closes-report error (timed_out fired) =
      save_then _ _ _ RunStatus.timed_out expires (λ s. Caught-Says _ _ _ s (refl, refl)) refl
  closes-report error cancelled =
      save_then _ _ _ RunStatus.cancelled cancels (λ s. Caught-Says _ _ _ s (refl, refl)) refl
  closes-report error failure =
      save_then _ _ _ failed fails (λ s. Caught-Says failure _ _ s refl) refl

  closes-on_error : (error : Fault) → ClosesRun (λ _. ⊥) (on_error w error)
  unfolding on_error gets
  closes-on_error error =
      Ensures-bind (λ _. ⊥) Y Caught (λ _. Post) _ (closes-report error) _
        (record { at = λ s h. (h, refl) })

  pub closes-caught :
      (prepared : Option String) (content : String)
      → ClosesRun (λ _. ⊥) (catch (attempt w prepared content) (on_error w))
  closes-caught prepared content =
      Ensures-catch P (λ _. ⊥) Y (λ _. Post) (on_error w) closes-on_error _
        (closes-attempt prepared content)
