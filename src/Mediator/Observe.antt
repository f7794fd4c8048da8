-- ===== src/Mediator/Observe.antt =====
-- mediator.ts: `observeChatEvent` and `settleRun`, the bookkeeping on relayed events.
pub mod Accounting
pub mod Places
pub mod TokenCap
pub mod Confirm
use swift_agent.Common.{
  ℕ, zero, suc, ◌+◌, ◌/◌, String, Bool, true, false, ◌&&◌, not, List, [], ◌∷◌, ◌++◌, Option, none,
  some, str_eq, ltb, has_string, add_string, if◌then◌else◌,
}
use swift_agent.Shared.{
  ChatEvent, RunStatus, message_started, token, tool_call_started, tool_call_completed,
  message_completed, run_failed,
}
use swift_agent.Db.Spend.{Ledger, TerminalStatus, attach_run, settle}
use swift_agent.Db.Spend
use swift_agent.Mediator.Defs.{Config, GuestSession, Mediator, RefusalFrame}
use swift_agent.Mediator.Defs

-- `reservationByRun`, as a `Map`.
unfoldable pub set_run : String → String → List (String × String) → List (String × String)
set_run k v [] = (k, v) ∷ []
set_run k v ((j, u) ∷ m) = if str_eq j k then (k, v) ∷ m else (j, u) ∷ set_run k v m

unfoldable pub get_run : String → List (String × String) → Option String
get_run k [] = none
get_run k ((j, u) ∷ m) = if str_eq j k then some u else get_run k m

unfoldable pub delete_run : String → List (String × String) → List (String × String)
delete_run k [] = []
delete_run k ((j, u) ∷ m) = if str_eq j k then m else (j, u) ∷ delete_run k m

-- `pendingReservationIds.shift()` and what follows it.
unfoldable pub attach : String → List String → Mediator → Mediator
attach run_id [] m = m
attach run_id (id ∷ ids) m = record m {
  guest = record (m.guest) {
    pending_reservation_ids = ids;
    reservation_by_run = set_run run_id id m.guest.reservation_by_run;
  };
  ledger = attach_run id run_id m.ledger;
}

-- A `message_started` of a run that was not seen before.
unfoldable pub see_run : String → Mediator → Mediator
unfolding attach
see_run run_id m =
    if has_string run_id m.guest.seen_runs
    then m
    else attach run_id m.guest.pending_reservation_ids
        (record m { guest = record (m.guest) { seen_runs = add_string run_id m.guest.seen_runs } })

-- `Math.ceil(text.length / 4)`
abbrev pub estimate : ℕ → ℕ
estimate chars = (chars + 3) / 4

-- The breach of the token cap: one refusal, one cancellation.
unfoldable pub breach : Config → String → Mediator → Mediator
breach c run_id m =
    if ltb c.tokens_per_session m.guest.est_output_tokens && not m.guest.token_cap_breached
    then record m {
      guest = record (m.guest) { token_cap_breached = true };
      refusals =
          m.refusals
          ++ record {
            reason = Defs.token_cap;
            retry_after_seconds = none;
            remaining = some (Defs.tokens 0);
          }
            ∷ [];
      cancelled_runs = m.cancelled_runs ++ run_id ∷ [];
    }
    else m

unfoldable pub count_tokens : Config → (String → ℕ) → String → String → Mediator → Mediator
unfolding breach
count_tokens c chars run_id text m = breach c run_id (record m {
  guest = record (m.guest) {
    est_output_tokens = m.guest.est_output_tokens + estimate (chars text);
  };
})

-- The synchronous part of `settleRun`: the reservation leaves the map, and its settlement starts.
unfoldable pub start_settling : String → Option String → Mediator → Mediator
start_settling run_id none m = m
start_settling run_id (some id) m = record m {
  guest = record (m.guest) { reservation_by_run = delete_run run_id m.guest.reservation_by_run };
  settling = m.settling ++ (run_id, id) ∷ [];
}

-- `observeChatEvent`. The six events carry a run id always.
unfoldable pub observe : Config → (String → ℕ) → ChatEvent → Mediator → Mediator
unfolding see_run count_tokens start_settling get_run set_run delete_run
observe c chars (message_started message_id run_id session_id) m = see_run run_id m
observe c chars (token run_id session_id message_id text) m = count_tokens c chars run_id text m
observe c chars (tool_call_started call_id run_id session_id tool_name) m = m
observe c chars (tool_call_completed call_id run_id session_id tool_name status) m = m
observe c chars (message_completed message_id run_id session_id) m =
    start_settling run_id (get_run run_id m.guest.reservation_by_run) m
observe c chars (run_failed run_id session_id code message) m =
    start_settling run_id (get_run run_id m.guest.reservation_by_run) m

-- One answer of `getRun`: it throws, or tells the status and the usage.
pub data GetRun : Type 0 where
  throws : GetRun
  answers : RunStatus → Option (ℕ × ℕ) → GetRun

-- The four statuses that are settled; `running` is not.
abbrev pub terminal_of : RunStatus → Option TerminalStatus
terminal_of RunStatus.running = none
terminal_of RunStatus.completed = some Spend.completed
terminal_of RunStatus.failed = some Spend.failed
terminal_of RunStatus.cancelled = some Spend.cancelled
terminal_of RunStatus.timed_out = some Spend.timed_out

abbrev pub input_of : Option (ℕ × ℕ) → Option ℕ
input_of none = none
input_of (some (i, o)) = some i

abbrev pub output_of : Option (ℕ × ℕ) → Option ℕ
output_of none = none
output_of (some (i, o)) = some o

abbrev pub settle_at : String → Option (ℕ × ℕ) → ℕ → TerminalStatus → Ledger → Ledger
settle_at id usage now to l = (settle id to (input_of usage) (output_of usage) now l).1

-- The loop of `settleRun`, on the attempts left and the answers to come; `now` is the time of the
-- settlement. An attempt that is not terminal is followed by the next.
unfoldable pub confirm : String → ℕ → ℕ → List GetRun → Ledger → Ledger
confirm id now zero rs l = l
confirm id now (suc attempts) [] l = l
confirm id now (suc attempts) (throws ∷ rs) l = l
confirm id now (suc attempts) (answers status usage ∷ rs) l = elim (terminal_of status) [
  | some to ↦ settle_at id usage now to l
  | none ↦ confirm id now attempts rs l
]

abbrev pub settle_confirm_attempts : ℕ
settle_confirm_attempts = 3

unfoldable pub settle_run : String → ℕ → List GetRun → Ledger → Ledger
unfolding confirm
settle_run id now rs l = confirm id now settle_confirm_attempts rs l
