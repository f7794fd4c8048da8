-- ===== src/Mediator/RateLimit/Window.antt =====
-- What a limiter guarantees of the hits that it allows.
use swift_agent.Common.{
  ℕ, ◌+◌, ◌≤◌, ◌<◌, Bool, true, false, ◌&&◌, ◌≡◌, refl, sym, ap, ◌∙◌, List, [], ◌∷◌, ◌++◌, arith,
  leb, ltb, length, keep, count, count-append, All, All-append, Bool-cases, inl, inr, All-mono,
}
use swift_agent.Mediator.RateLimit.{Limit, recent, decide, check_key}

-- One key's checks at given times: what is stored at the end, and the times that were allowed.
abbrev allow : Bool → ℕ → List ℕ → List ℕ
allow true now log = log ++ now ∷ []
allow false now log = log

unfoldable pub serve : Limit → List ℕ → List ℕ → List ℕ → List ℕ × List ℕ
unfolding check_key
serve l ts log [] = (ts, log)
serve l ts log (now ∷ times) =
    let (ts', v) = check_key l now ts in serve l ts' (allow v.allowed now log) times

-- The times are in order, from `last` on.
abbrev pub InOrder : ℕ → List ℕ → Type 0
InOrder last [] = Unit
InOrder last (t ∷ ts) = (last ≤ t) × InOrder t ts

-- `u` lies in the window that ends at `t`.
abbrev pub in_window : ℕ → ℕ → ℕ → Bool
in_window window t u = leb u t && ltb t (u + window)

abbrev pub Guarded : Limit → List ℕ → Type 0
Guarded l log = (t : ℕ) → count (in_window l.window_ms t) log ≤ l.max

-- The log lies before `last`; what is stored is the part of it that `last` still sees.
record Inv (l : Limit) (last : ℕ) (ts log : List ℕ) : Type 0 where
  past : All (λ u. u ≤ last) log
  stored : recent l.window_ms last ts ≡ recent l.window_ms last log
  guarded : Guarded l log

-- A later moment sees a part of what an earlier one sees.
recent_again :
    (window last now : ℕ) (ts : List ℕ)
    → last ≤ now
    → recent window now (recent window last ts) ≡ recent window now ts
recent_again window last now [] h = refl
recent_again window last now (t ∷ ts) h = ground (arith, recent_again window last now ts h)

recent_later :
    (window last now : ℕ) (ts log : List ℕ)
    → last ≤ now
    → recent window last ts ≡ recent window last log
    → recent window now ts ≡ recent window now log
recent_later window last now ts log h e =
    sym (recent_again window last now ts h)
    ∙ ap (recent window now) e
    ∙ recent_again window last now log h

count-in_window-le :
    (window now t : ℕ) (log : List ℕ)
    → now ≤ t
    → count (in_window window t) log ≤ length (recent window now log)
count-in_window-le window now t [] h = omega arith
count-in_window-le window now t (u ∷ log) h = ground (arith, count-in_window-le window now t log h)

keep-append : (p : ℕ → Bool) (xs ys : List ℕ) → keep p (xs ++ ys) ≡ keep p xs ++ keep p ys
keep-append p [] ys = refl
keep-append p (x ∷ xs) ys = ground (arith, keep-append p xs ys)

-- A hit at `now` is in no window that ends earlier.
Guarded-append :
    (l : Limit) (now : ℕ) (log : List ℕ)
    → Guarded l log
    → length (recent l.window_ms now log) < l.max
    → Guarded l (log ++ now ∷ [])
Guarded-append l now log g h t = ground (
  arith,
  g t,
  count-append (in_window l.window_ms t) log (now ∷ []),
  count-in_window-le l.window_ms now t log,
)

decide-Inv :
    (l : Limit) (now : ℕ) (ts log : List ℕ)
    → All (λ u. u ≤ now) log
    → recent l.window_ms now ts ≡ recent l.window_ms now log
    → Guarded l log
    → let (ts', v) = check_key l now ts in Inv l now ts' (allow v.allowed now log)
unfolding check_key decide
decide-Inv l now ts log past e g =
    let kept = recent l.window_ms now ts in
    let again = recent_again l.window_ms now now ts (omega arith) in
    elim (Bool-cases (leb l.max (length kept))) [
      | inl full ↦ rw full (record { past = past; stored = again ∙ e; guarded = g })
      | inr room ↦ rw room (record {
        past = All-append (λ u. u ≤ now) log (now ∷ []) past (omega arith, tt);
        stored =
            keep-append (λ t. ltb now (t + l.window_ms)) kept (now ∷ [])
            ∙ ap (λ xs. xs ++ recent l.window_ms now (now ∷ [])) (again ∙ e)
            ∙ sym (keep-append (λ t. ltb now (t + l.window_ms)) log (now ∷ []));
        guarded =
            Guarded-append l now log g
              (ground (arith, ap length {x = kept} {y = recent l.window_ms now log} e));
      })
    ]

serve-Guarded :
    (l : Limit) (last : ℕ) (ts log times : List ℕ)
    → InOrder last times
    → Inv l last ts log
    → Guarded l (serve l ts log times).1
unfolding serve
serve-Guarded l last ts log [] o v = v.guarded
serve-Guarded l last ts log (now ∷ times) (le, o) v = serve-Guarded l now _ _ times o (
    decide-Inv l now ts log (All-mono (λ u h. omega arith) log v.past)
      (recent_later l.window_ms last now ts log le v.stored) v.guarded)

-- Of the checks of one key at times in order, from an empty store, at most `max` of those that were
-- allowed lie in any window of `windowMs` milliseconds, (t - windowMs, t].
pub serve-window :
    (l : Limit) (times : List ℕ)
    → InOrder 0 times
    → (t : ℕ) → count (in_window l.window_ms t) (serve l [] [] times).1 ≤ l.max
serve-window l times o t =
    serve-Guarded l 0 [] [] times o
      (record { past = tt; stored = refl; guarded = λ t. omega arith }) t

-- A refused check stores no new timestamp, and asks for a wait of a second at least.
pub check_key-refused :
    (l : Limit) (now : ℕ) (ts : List ℕ)
    → (check_key l now ts).1.allowed ≡ false
    → ((check_key l now ts).0 ≡ recent l.window_ms now ts)
      × (1 ≤ (check_key l now ts).1.retry_after_seconds)
unfolding check_key decide
check_key-refused l now ts h = ground arith
