-- ===== src/Mediator/Observe/Confirm.antt =====
-- `settleRun`: what it settles, and what it leaves to the sweep.
use swift_agent.Common.{
  ℕ, zero, suc, ◌<◌, String, ◌≡◌, refl, ap, ◌∙◌, List, [], ◌∷◌, ◌++◌, map, length, Option, none,
  some, arith, ◌&&◌, str_eq, if◌then◌else◌,
}
use swift_agent.Db.Table.{update_where}
use swift_agent.Shared.{RunStatus}
use swift_agent.Db.Spend
use swift_agent.Db.Spend.{
  Ledger, Reservation, TerminalStatus, settled, is_reserved, awaits, close_row, settle,
}
use swift_agent.Mediator.Observe.{
  GetRun, throws, answers, settle_at, confirm, settle_run, settle_confirm_attempts,
}

-- How the ledger names the end of a run.
pub data Ends : RunStatus → TerminalStatus → Type 0 where
  completes : Ends RunStatus.completed Spend.completed
  fails : Ends RunStatus.failed Spend.failed
  cancels : Ends RunStatus.cancelled Spend.cancelled
  times_out : Ends RunStatus.timed_out Spend.timed_out

-- The input and the output tokens of an answer's usage, which may be missing.
pub data Uses : Option (ℕ × ℕ) → Option ℕ → Option ℕ → Type 0 where
  unknown : Uses none none none
  known : (input output : ℕ) → Uses (some (input, output)) (some input) (some output)

-- Answers of a run that goes on.
abbrev pub waiting : List (Option (ℕ × ℕ)) → List GetRun
waiting us = map (answers RunStatus.running) us

-- A row of the ledger after the settlement of a reservation: its row, if it is still reserved.
abbrev pub settled_row :
    String → TerminalStatus → Option ℕ → Option ℕ → ℕ → Reservation → Reservation
settled_row id to input output t r =
    if str_eq r.reservation_id id && is_reserved r.status
    then record r {
      status = settled;
      terminal_status = some to;
      observed_input_tokens = input;
      observed_output_tokens = output;
      settled_at = some t;
    }
    else r

-- The answers never confirm an end within the attempts.
pub data Unconfirmed : ℕ → List GetRun → Type 0 where
  exhausted : {rs : List GetRun} → Unconfirmed zero rs
  silent : {n : ℕ} → Unconfirmed n []
  broken : {n : ℕ} {rs : List GetRun} → Unconfirmed n (throws ∷ rs)
  waits :
      {n : ℕ} {u : Option (ℕ × ℕ)} {rs : List GetRun}
      → Unconfirmed n rs
      → Unconfirmed (suc n) (answers RunStatus.running u ∷ rs)

rows-settle :
    (id : String) (to : TerminalStatus) (input output : Option ℕ) (t : ℕ) (rs : List Reservation)
    → update_where (awaits id) (close_row to input output t) rs
      ≡ map (settled_row id to input output t) rs
unfolding update_where
rows-settle id to input output t [] = refl
rows-settle id to input output t (r ∷ rs) =
    ap (λ xs. settled_row id to input output t r ∷ xs) (rows-settle id to input output t rs)

settle-rows :
    (id : String) (to : TerminalStatus) {usage : Option (ℕ × ℕ)} {input output : Option ℕ} (t : ℕ)
    (l : Ledger)
    → Uses usage input output
    → settle_at id usage t to l
      ≡ record l { reservations = map (settled_row id to input output t) l.reservations }
unfolding settle
settle-rows id to t l unknown =
    ap (λ rs. record l { reservations = rs }) (rows-settle id to none none t l.reservations)
settle-rows id to t l (known input output) =
    ap (λ rs. record l { reservations = rs })
      (rows-settle id to (some input) (some output) t l.reservations)

confirm-Ends :
    (id : String) (t n : ℕ) {st : RunStatus} {to : TerminalStatus} (usage : Option (ℕ × ℕ))
    (rest : List GetRun) (l : Ledger)
    → Ends st to
    → confirm id t (suc n) (answers st usage ∷ rest) l ≡ settle_at id usage t to l
unfolding confirm
confirm-Ends id t n usage rest l completes = refl
confirm-Ends id t n usage rest l fails = refl
confirm-Ends id t n usage rest l cancels = refl
confirm-Ends id t n usage rest l times_out = refl

confirm-waiting :
    (id : String) (t n : ℕ) {st : RunStatus} {to : TerminalStatus} (us : List (Option (ℕ × ℕ)))
    (usage : Option (ℕ × ℕ)) (rest : List GetRun) (l : Ledger)
    → length us < n
    → Ends st to
    → confirm id t n (waiting us ++ answers st usage ∷ rest) l ≡ settle_at id usage t to l
unfolding confirm
confirm-waiting id t zero us usage rest l h e = absurd (omega (arith, h))
confirm-waiting id t (suc n) [] usage rest l h e = confirm-Ends id t n usage rest l e
confirm-waiting id t (suc n) (u ∷ us) usage rest l h e =
    confirm-waiting id t n us usage rest l (omega (arith, h)) e

confirm-Unconfirmed :
    (id : String) (t : ℕ) {n : ℕ} {rs : List GetRun} (l : Ledger)
    → Unconfirmed n rs
    → confirm id t n rs l ≡ l
unfolding confirm
confirm-Unconfirmed id t l exhausted = refl
confirm-Unconfirmed id t {n = zero} l silent = refl
confirm-Unconfirmed id t {n = suc n} l silent = refl
confirm-Unconfirmed id t {n = zero} l broken = refl
confirm-Unconfirmed id t {n = suc n} l broken = refl
confirm-Unconfirmed id t l (waits u) = confirm-Unconfirmed id t l u

-- If `getRun` answers an end after fewer than three answers `running`, `settleRun` changes exactly the
-- row of its reservation, if that is still reserved: it is settled at that time under the ledger's
-- name for the end (completed, failed, cancelled or timed out), with the input and the output tokens
-- of that answer, or without where it has no usage. Nothing else in the ledger changes.
pub settle_run-settles :
    (id : String) (t : ℕ) {st : RunStatus} {to : TerminalStatus} {usage : Option (ℕ × ℕ)}
    {input output : Option ℕ} (us : List (Option (ℕ × ℕ))) (rest : List GetRun) (l : Ledger)
    → length us < 3
    → Ends st to
    → Uses usage input output
    → settle_run id t (waiting us ++ answers st usage ∷ rest) l
      ≡ record l { reservations = map (settled_row id to input output t) l.reservations }
unfolding settle_run
settle_run-settles id t {to = to} {usage = usage} us rest l few ends uses =
    confirm-waiting id t settle_confirm_attempts us usage rest l few ends
    ∙ settle-rows id to t l uses

-- If `getRun` throws before it tells an end, or three answers are `running`, `settleRun` leaves the
-- ledger as it is, to the sweep.
pub settle_run-Unconfirmed :
    (id : String) (t : ℕ) {rs : List GetRun} (l : Ledger)
    → Unconfirmed settle_confirm_attempts rs
    → settle_run id t rs l ≡ l
unfolding settle_run
settle_run-Unconfirmed id t l u = confirm-Unconfirmed id t l u
