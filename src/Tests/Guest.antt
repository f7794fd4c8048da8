-- ===== src/Tests/Guest.antt =====
-- A guest with one message left, and the theorems of the mediator on its frames and events.
use swift_agent.Common.{
  ℕ, ◌≤◌, ◌<◌, String, ◌≡◌, refl, List, [], ◌∷◌, ◌++◌, map, Option, none, some, arith, false, count,
  ◌⊎◌, inl,
}
use swift_agent.Shared.{ChatEvent, RunStatus}
use swift_agent.Db.Spend.{Ledger, Reservation, TerminalStatus, reserved, reserve}
use swift_agent.Db.Table.{returning, update_where}
use swift_agent.Mediator.Defs.{Config, Mediator}
use swift_agent.Mediator.RateLimit.{Limit, check, check_key}
use swift_agent.Mediator.RateLimit.Window.{serve, in_window, serve-window}
use swift_agent.Mediator.Inbound.{Reading, admit, commit, handle_inbound, handle_all}
use swift_agent.Mediator.Inbound.Chain.{Forwarded, Refused, handle_inbound-outcome}
use swift_agent.Mediator.Inbound.Cap.{Counted, Accepts, handle_all-Counted, two_sockets-pass_cap}
use swift_agent.Mediator.Observe.{observe, settle_run, answers}
use swift_agent.Mediator.Observe.Accounting.{Accounted}
use swift_agent.Mediator.Observe.Places.{KeepsPlaces, observe-Accounted}
use swift_agent.Mediator.Observe.TokenCap.{CapState, observe-CapState}
use swift_agent.Mediator.Observe.Confirm.{
  completes, known, waiting, settled_row, settle_run-settles,
}
use swift_agent.Mediator.Upstream.{run, open_upstream, forward_all, fresh, tick, pong, forwards}
use swift_agent.Mediator.Upstream.InOrder.{InSync, run-InSync_from_open}

abbrev config : Config
config = record {
  session_ttl_ms = 1000;
  session_limit = record { max = 5; window_ms = 100 };
  messages_per_session = 1;
  message_max_chars = 10;
  tokens_per_session = 50;
  reservation_micro_usd = 30;
  daily_ceiling_micro_usd = 100;
  alert_threshold_micro_usd = 90;
}

abbrev chars : String → ℕ
chars text = 2

abbrev ledger : Ledger
ledger = record { days = []; reservations = [] }

abbrev mediator : Mediator
mediator = record {
  guest = record {
    guest_id = "g";
    session_id = "s";
    expires_at_ms = 1000;
    messages_sent = 0;
    est_output_tokens = 0;
    pending_reservation_ids = [];
    reservation_by_run = [];
    seen_runs = [];
    token_cap_breached = false;
  };
  session_hits = [];
  ledger = ledger;
  alerted_days = [];
  alerts = [];
  refusals = [];
  closed = false;
  forwarded = [];
  cancelled_runs = [];
  settling = [];
}

abbrev reading : String → Reading
reading id = record { at_ttl = 1; at_rate = 1; day = "mon"; at_reserve = 2; reservation_id = id }

handle_inbound-outcome_example :
    Forwarded config chars
      (reading "a")
      (some "hi")
      mediator
      (handle_inbound config chars (reading "a") (some "hi") mediator)
    ⊎ Refused mediator (handle_inbound config chars (reading "a") (some "hi") mediator)
handle_inbound-outcome_example =
    handle_inbound-outcome config chars (reading "a") (some "hi") mediator (omega arith)

abbrev frames : List (Reading × Option String)
frames = (reading "a", some "hi") ∷ (reading "b", some "ho") ∷ (reading "c", none) ∷ []

nothing_sent : Counted config chars (omega arith) mediator
nothing_sent = record { within = omega arith; exact = refl; paid = refl }

handle_all-Counted_example :
    Counted config chars (omega arith) (handle_all config chars frames mediator)
handle_all-Counted_example =
    handle_all-Counted config chars (omega arith) frames mediator nothing_sent

-- Both sockets' checks pass before the ledger answers.
abbrev first_checked : Mediator
first_checked = (admit config chars (some "hi") 1 1 mediator).1

abbrev both_checked : Mediator
both_checked = (admit config chars (some "ho") 1 1 first_checked).1

abbrev first_committed : Mediator
first_committed = commit config chars (reading "a") (some "hi") both_checked

first_passes : admit config chars (some "hi") 1 1 mediator ≡ (some "hi", first_checked)
unfolding admit check
first_passes = refl

second_passes : admit config chars (some "ho") 1 1 first_checked ≡ (some "ho", both_checked)
unfolding admit check
second_passes = refl

Accepts-first : Accepts config (reading "a") both_checked
unfolding reserve admit returning check
Accepts-first = record {
  row = record {
    reservation_id = "a";
    day = "mon";
    session_id = "s";
    run_id = none;
    reserved_micro_usd = 30;
    status = reserved;
    terminal_status = none;
    observed_input_tokens = none;
    observed_output_tokens = none;
    created_at = 2;
    settled_at = none;
  };
  total = 30;
  ledger = (reserve "mon" 30 100 "s" "a" 2 both_checked.ledger).1;
  answer = refl;
}

Accepts-second : Accepts config (reading "b") first_committed
unfolding reserve admit commit returning check update_where
Accepts-second = record {
  row = record {
    reservation_id = "b";
    day = "mon";
    session_id = "s";
    run_id = none;
    reserved_micro_usd = 30;
    status = reserved;
    terminal_status = none;
    observed_input_tokens = none;
    observed_output_tokens = none;
    created_at = 2;
    settled_at = none;
  };
  total = 60;
  ledger = (reserve "mon" 30 100 "s" "b" 2 first_committed.ledger).1;
  answer = refl;
}

two_sockets-pass_cap_example :
    1 < (commit config chars (reading "b") (some "ho") first_committed).guest.messages_sent
two_sockets-pass_cap_example =
    two_sockets-pass_cap config chars (reading "a") (reading "b") (some "hi") (some "ho") "hi" "ho"
      mediator first_checked both_checked refl first_passes second_passes Accepts-first
      Accepts-second

-- The events of a run.
abbrev started_run : ChatEvent
started_run = ChatEvent.message_started "u" "r" "s"

-- Two reservations are queued, one is attached to a run, and one is being settled.
abbrev busy : Mediator
busy = record mediator {
  guest = record (mediator.guest) {
    messages_sent = 4;
    pending_reservation_ids = "b" ∷ "c" ∷ [];
    reservation_by_run = ("q", "a") ∷ [];
    seen_runs = "p" ∷ "q" ∷ [];
  };
  settling = ("p", "z") ∷ [];
}

observe-Accounted_example :
    Accounted (observe config chars started_run busy)
    × KeepsPlaces busy (observe config chars started_run busy)
observe-Accounted_example =
    observe-Accounted config chars started_run busy
      record { seen = (refl, tt); places = omega arith }

observe-CapState_example :
    CapState config (observe config chars (ChatEvent.token "r" "s" "a" "text") mediator)
observe-CapState_example =
    observe-CapState config chars (ChatEvent.token "r" "s" "a" "text") mediator
      record { state = inl (refl, omega arith, refl) }

-- The reservations of two messages, of which the first is about to be settled.
abbrev reserved_row : String → Reservation
reserved_row id = record {
  reservation_id = id;
  day = "mon";
  session_id = "s";
  run_id = some "r";
  reserved_micro_usd = 30;
  status = reserved;
  terminal_status = none;
  observed_input_tokens = none;
  observed_output_tokens = none;
  created_at = 2;
  settled_at = none;
}

abbrev two_reserved : Ledger
two_reserved = record { days = []; reservations = reserved_row "a" ∷ reserved_row "b" ∷ [] }

settle_run-settles_example :
    settle_run "a" 9
      (waiting (none ∷ []) ++ answers RunStatus.completed (some (3, 4)) ∷ [])
      two_reserved
    ≡ record two_reserved {
      reservations =
          map
            (settled_row "a" TerminalStatus.completed (some 3) (some 4) 9)
            two_reserved.reservations;
    }
settle_run-settles_example =
    settle_run-settles "a" 9 (none ∷ []) [] two_reserved (omega arith) completes (known 3 4)

abbrev pace : Limit
pace = record { max = 2; window_ms = 10 }

serve-window_example : count (in_window 10 9) (serve pace [] [] (1 ∷ 3 ∷ 5 ∷ 12 ∷ [])).1 ≤ 2
serve-window_example =
    serve-window pace (1 ∷ 3 ∷ 5 ∷ 12 ∷ [])
      (omega arith, (omega arith, (omega arith, (omega arith, tt)))) 9

refused_third : (check_key pace 5 (1 ∷ 3 ∷ [])).1.allowed ≡ false
unfolding check_key
refused_third = refl

run-InSync_from_open_example : InSync (
    run
      (tick ∷ forwards "b" ∷ pong ∷ forwards "c" ∷ [])
      (open_upstream (forward_all ("a" ∷ []) fresh)))
run-InSync_from_open_example =
    run-InSync_from_open ("a" ∷ []) (tick ∷ forwards "b" ∷ pong ∷ forwards "c" ∷ [])
