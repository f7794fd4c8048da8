-- ===== src/Tests/Spending.antt =====
-- A day's ledger with one reservation, and the theorems of the ledger on it.
use swift_agent.Common.{◌≤◌, ◌≡◌, refl, List, [], ◌∷◌, none, some}
use swift_agent.Db.Spend.{Ledger, Reservation, reserved, TerminalStatus, settle}
use swift_agent.Db.Spend.Totals.{
  spent, Sound, SpendCall, reserves, settles, sweeps, apply_all, spent-apply_all-le,
}
use swift_agent.Db.Spend.Settlement.{settle-once}

abbrev booked : Reservation
booked = record {
  reservation_id = "a";
  day = "mon";
  session_id = "s";
  run_id = none;
  reserved_micro_usd = 30;
  status = reserved;
  terminal_status = none;
  observed_input_tokens = none;
  observed_output_tokens = none;
  created_at = 5;
  settled_at = none;
}

abbrev one_booked : Ledger
one_booked = record {
  days = record { day = "mon"; reserved_total = 30 } ∷ [];
  reservations = booked ∷ [];
}

abbrev empty_ledger : Ledger
empty_ledger = record { days = []; reservations = [] }

abbrev history : List SpendCall
history =
    reserves "mon" 60 "s" "a" 1
    ∷ reserves "mon" 60 "s" "b" 2
    ∷ settles "a" TerminalStatus.completed (some 10) (some 20) 3
    ∷ reserves "mon" 40 "t" "c" 4
    ∷ sweeps 3 5
    ∷ []

empty_ledger-Sound : Sound 100 empty_ledger
unfolding spent
empty_ledger-Sound = record { totals = tt; capped = tt; known = λ day h. refl }

spent-apply_all-le_example : spent "mon" (apply_all 100 history empty_ledger).reservations ≤ 100
spent-apply_all-le_example = spent-apply_all-le 100 history empty_ledger "mon" empty_ledger-Sound

settle-once_example :
    let done = (settle "a" TerminalStatus.completed (some 10) (some 20) 7 one_booked).1 in
    ((settle "a" TerminalStatus.failed none none 9 done).0 ≡ [])
    × ((settle "a" TerminalStatus.failed none none 9 done).1 ≡ done)
    × (done.days ≡ one_booked.days)
settle-once_example =
    settle-once "a" TerminalStatus.completed TerminalStatus.failed (some 10) (some 20) none none 7 9
      one_booked
