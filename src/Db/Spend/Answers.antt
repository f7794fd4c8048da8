-- ===== src/Db/Spend/Answers.antt =====
-- The answers of `reserve`, each with the ledger that it leaves.
use swift_agent.Common.{ℕ, zero, suc, ◌≤◌, String, ◌≡◌, refl, List, [], ◌∷◌, ◌++◌, arith, All}
use swift_agent.Db.Table.{returning}
use swift_agent.Db.Spend.{
  Ledger, SpendDay, Reservation, ReserveResult, accepted, daily_ceiling, bad_amount, has_room,
  charge, commit, reserve, upsert_day, new_reservation,
}

-- Accepted: the reservation, for the whole amount, is appended, and the day's new total is within
-- the ceiling. Refused, or a bad amount: the ledger stands.
abbrev pub Answers : String → ℕ → ℕ → Ledger → ReserveResult × Ledger → Type 0
Answers id amount ceiling l (accepted row total, l') =
    (row.reservation_id ≡ id)
    × (row.reserved_micro_usd ≡ amount)
    × (l'.reservations ≡ l.reservations ++ row ∷ [])
    × (total ≤ ceiling)
Answers id amount ceiling l (daily_ceiling total, l') = l' ≡ l
Answers id amount ceiling l (bad_amount, l') = (amount ≡ 0) × (l' ≡ l)

charged-le :
    (day : String) (amount ceiling : ℕ) (ds : List SpendDay)
    → All
        (λ d. d.reserved_total ≤ ceiling)
        (returning (has_room day amount ceiling) (charge amount) ds)
unfolding returning
charged-le day amount ceiling [] = tt
charged-le day amount ceiling (d ∷ ds) = ground (arith, charged-le day amount ceiling ds)

commit-Answers :
    (row : Reservation) (ceiling : ℕ) (l : Ledger) (days charged gate : List SpendDay)
    → All (λ d. d.reserved_total ≤ ceiling) gate
    → Answers row.reservation_id row.reserved_micro_usd ceiling l (commit row l days charged gate)
unfolding commit
commit-Answers row ceiling l days charged [] h = refl
commit-Answers row ceiling l days charged (d ∷ ds) (h, hs) = (refl, refl, refl, h)

-- `reserve` answers as `Answers` says.
pub reserve-Answers :
    (day : String) (amount ceiling : ℕ) (session_id id : String) (now : ℕ) (l : Ledger)
    → Answers id amount ceiling l (reserve day amount ceiling session_id id now l)
unfolding reserve
reserve-Answers day zero ceiling session_id id now l = (refl, refl)
reserve-Answers day (suc n) ceiling session_id id now l =
    commit-Answers (new_reservation day (suc n) session_id id now) ceiling l (upsert_day day l.days)
      _ _ (charged-le day (suc n) ceiling (upsert_day day l.days))
