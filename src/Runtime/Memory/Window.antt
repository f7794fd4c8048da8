-- ===== src/Runtime/Memory/Window.antt =====
-- last-n.ts: which messages stay.
use swift_agent.Common.{
  ℕ, zero, suc, ◌-◌, ◌<◌, false, ◌≡◌, refl, ap, List, [], ◌∷◌, ◌++◌, length, leb, ◌==◌,
  if◌then◌else◌, arith, inl, inr, Bool-cases,
}
use swift_agent.Runtime.Loop.Defs.{MessageRecord}
use swift_agent.Runtime.Memory.{drop, slice_last, non_system, trim}

-- A list is the end of another, so many elements long.
pub record IsEnd (n : ℕ) (xs ys : List MessageRecord) : Type 0 where
  pub dropped : List MessageRecord
  pub whole : dropped ++ xs ≡ ys
  pub size : length xs ≡ n

drop-IsEnd : (n : ℕ) (xs : List MessageRecord) → IsEnd (length xs - n) (drop n xs) xs
drop-IsEnd zero xs = record { dropped = []; whole = refl; size = omega arith }
drop-IsEnd (suc n) [] = record { dropped = []; whole = refl; size = omega arith }
drop-IsEnd (suc n) (x ∷ xs) =
    let v = drop-IsEnd n xs in
    record {
      dropped = x ∷ v.dropped;
      whole = ap (λ ys. x ∷ ys) v.whole;
      size = omega (arith, v.size);
    }

zero_test : (n : ℕ) → 0 < n → (n == 0) ≡ false
zero_test n pos = ground arith

-- With a positive limit the window is the end of the messages that are not system messages, and
-- as long as they are or as the limit, whichever is less.
pub trim-IsEnd :
    (max_messages : ℕ) (messages : List MessageRecord)
    → 0 < max_messages
    → IsEnd
        (if leb (length (non_system messages)) max_messages
          then length (non_system messages)
          else max_messages)
        (trim max_messages messages)
        (non_system messages)
unfolding trim slice_last
trim-IsEnd n messages pos =
    let xs = non_system messages in
    let v = drop-IsEnd (length xs - n) xs in
    elim (Bool-cases (leb (length xs) n)) [
      | inl few ↦ rw few record { dropped = []; whole = refl; size = refl }
      | inr many ↦ rw many (
          rw (zero_test n pos)
            record { dropped = v.dropped; whole = v.whole; size = ground (arith, v.size, many) })
    ]
