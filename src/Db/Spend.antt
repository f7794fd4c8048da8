-- ===== src/Db/Spend.antt =====
-- packages/db/src/repositories/playground-spend-repo.ts: the playground's ledger of reservations.
-- Money is in whole micro-USD. A transaction that is rolled back leaves the ledger as it was.
pub mod Totals
pub mod Settlement
pub mod Answers
use swift_agent.Common.{
  ℕ, zero, ◌+◌, String, Bool, true, false, ◌&&◌, List, [], ◌∷◌, ◌++◌, Option, none, some, str_eq,
  leb, ltb, ◌==◌, if◌then◌else◌,
}
use swift_agent.Db.Table.{update_where, returning}

pub data TerminalStatus : Type 0 where
  completed failed cancelled timed_out abandoned : TerminalStatus

pub data ReservationStatus : Type 0 where
  reserved settled : ReservationStatus

pub record Reservation : Type 0 where
  pub reservation_id : String
  pub day : String
  pub session_id : String
  pub run_id : Option String
  pub reserved_micro_usd : ℕ
  pub status : ReservationStatus
  pub terminal_status : Option TerminalStatus
  pub observed_input_tokens : Option ℕ
  pub observed_output_tokens : Option ℕ
  pub created_at : ℕ
  pub settled_at : Option ℕ

pub record SpendDay : Type 0 where
  pub day : String
  pub reserved_total : ℕ

pub record Ledger : Type 0 where
  pub days : List SpendDay
  pub reservations : List Reservation

pub data ReserveResult : Type 0 where
  accepted : Reservation → ℕ → ReserveResult
  daily_ceiling : ℕ → ReserveResult
  bad_amount : ReserveResult

abbrev pub has_day : String → List SpendDay → Bool
has_day day [] = false
has_day day (d ∷ ds) = if str_eq d.day day then true else has_day day ds

-- `insert … onConflictDoNothing`
unfoldable pub upsert_day : String → List SpendDay → List SpendDay
upsert_day day days =
    if has_day day days then days else days ++ record { day = day; reserved_total = 0 } ∷ []

-- The condition and the update of the ceiling gate.
abbrev pub has_room : String → ℕ → ℕ → SpendDay → Bool
has_room day amount ceiling d = str_eq d.day day && leb (d.reserved_total + amount) ceiling

abbrev pub charge : ℕ → SpendDay → SpendDay
charge amount d = record d { reserved_total = d.reserved_total + amount }

-- `dayTotal`
unfoldable pub day_total : String → List SpendDay → ℕ
day_total day [] = 0
day_total day (d ∷ ds) = if str_eq d.day day then d.reserved_total else day_total day ds

abbrev pub new_reservation : String → ℕ → String → String → ℕ → Reservation
new_reservation day amount session_id id now = record {
  reservation_id = id;
  day = day;
  session_id = session_id;
  run_id = none;
  reserved_micro_usd = amount;
  status = reserved;
  terminal_status = none;
  observed_input_tokens = none;
  observed_output_tokens = none;
  created_at = now;
  settled_at = none;
}

-- The transaction, on the rows that the gate updated: none rolls it back.
unfoldable pub commit :
    Reservation → Ledger → List SpendDay → List SpendDay → List SpendDay → ReserveResult × Ledger
commit row l days charged [] = (daily_ceiling (day_total row.day days), l)
commit row l days charged (d ∷ ds) = (
  accepted row d.reserved_total,
  record { days = charged; reservations = l.reservations ++ row ∷ [] },
)

-- `reserve`; the random id and the time are arguments.
unfoldable pub reserve : String → ℕ → ℕ → String → String → ℕ → Ledger → ReserveResult × Ledger
unfolding upsert_day commit
reserve day zero ceiling session_id id now l = (bad_amount, l)
reserve day amount ceiling session_id id now l =
    let days = upsert_day day l.days in
    commit (new_reservation day amount session_id id now) l days
      (update_where (has_room day amount ceiling) (charge amount) days)
      (returning (has_room day amount ceiling) (charge amount) days)

abbrev pub no_run : Option String → Bool
no_run none = true
no_run (some r) = false

abbrev pub is_reserved : ReservationStatus → Bool
is_reserved reserved = true
is_reserved settled = false

-- `attachRun`
unfoldable pub attach_run : String → String → Ledger → Ledger
attach_run id run_id l = record l {
  reservations =
      update_where (λ r. str_eq r.reservation_id id && no_run r.run_id)
        (λ r. record r { run_id = some run_id }) l.reservations;
}

abbrev pub awaits : String → Reservation → Bool
awaits id r = str_eq r.reservation_id id && is_reserved r.status

abbrev pub close_row : TerminalStatus → Option ℕ → Option ℕ → ℕ → Reservation → Reservation
close_row to input output now r = record r {
  status = settled;
  terminal_status = some to;
  observed_input_tokens = input;
  observed_output_tokens = output;
  settled_at = some now;
}

-- `settle`, with the rows that it returns.
unfoldable pub settle :
    String → TerminalStatus → Option ℕ → Option ℕ → ℕ → Ledger → List Reservation × Ledger
settle id to input output now l = (
  returning (awaits id) (close_row to input output now) l.reservations,
  record l {
    reservations = update_where (awaits id) (close_row to input output now) l.reservations;
  },
)

-- `createdAt < now - olderThanMs`
abbrev pub is_stale : ℕ → ℕ → Reservation → Bool
is_stale older_than now r = is_reserved r.status && ltb (r.created_at + older_than) now

abbrev pub abandon_row : ℕ → Reservation → Reservation
abandon_row now r = record r {
  status = settled;
  terminal_status = some abandoned;
  settled_at = some now;
}

-- `sweepAbandoned`, with the rows that it returns.
unfoldable pub sweep_abandoned : ℕ → ℕ → Ledger → List Reservation × Ledger
sweep_abandoned older_than now l = (
  returning (is_stale older_than now) (abandon_row now) l.reservations,
  record l {
    reservations = update_where (is_stale older_than now) (abandon_row now) l.reservations;
  },
)
