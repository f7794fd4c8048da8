-- ===== src/Db/Spend/Settlement.antt =====
-- Settlement: once, at the full amount.
use swift_agent.Common.{ℕ, String, false, ◌≡◌, refl, List, [], ◌∷◌, Option, arith, All}
use swift_agent.Db.Table.{update_where, returning}
use swift_agent.Db.Spend.{
  Ledger, Reservation, TerminalStatus, settle, sweep_abandoned, awaits, close_row, is_stale,
  abandon_row,
}

settled_once :
    (id : String) (to to' : TerminalStatus) (input output input' output' : Option ℕ) (now now' : ℕ)
    (rs : List Reservation)
    → let done = update_where (awaits id) (close_row to input output now) rs in
      (returning (awaits id) (close_row to' input' output' now') done ≡ [])
      × (update_where (awaits id) (close_row to' input' output' now') done ≡ done)
unfolding update_where returning
settled_once id to to' input output input' output' now now' [] = (refl, refl)
settled_once id to to' input output input' output' now now' (r ∷ rs) =
    ground (arith, settled_once id to to' input output input' output' now now' rs)

-- A second `settle` of a reservation, whatever status and usage it reports, returns no row and
-- leaves the ledger as the first left it; and no settlement changes the day totals.
pub settle-once :
    (id : String) (to to' : TerminalStatus) (input output input' output' : Option ℕ) (now now' : ℕ)
    (l : Ledger)
    → let done = (settle id to input output now l).1 in
      ((settle id to' input' output' now' done).0 ≡ [])
      × ((settle id to' input' output' now' done).1 ≡ done)
      × (done.days ≡ l.days)
unfolding settle
settle-once id to to' input output input' output' now now' l =
    let (none_left, same) =
      settled_once id to to' input output input' output' now now' l.reservations in
    (none_left, (λ i. record { days = l.days; reservations = same i }), refl)

swept_rows :
    (older_than now : ℕ) (rs : List Reservation)
    → let done = update_where (is_stale older_than now) (abandon_row now) rs in
      All (λ r. is_stale older_than now r ≡ false) done
unfolding update_where
swept_rows older_than now [] = tt
swept_rows older_than now (r ∷ rs) = ground (arith, swept_rows older_than now rs)

-- After a sweep no reservation older than the limit is still reserved, and the day totals stand.
pub sweep_abandoned-none_left :
    (older_than now : ℕ) (l : Ledger)
    → All (λ r. is_stale older_than now r ≡ false) (sweep_abandoned older_than now l).1.reservations
      × ((sweep_abandoned older_than now l).1.days ≡ l.days)
unfolding sweep_abandoned
sweep_abandoned-none_left older_than now l = (swept_rows older_than now l.reservations, refl)
