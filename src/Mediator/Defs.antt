-- ===== src/Mediator/Defs.antt =====
-- mediator.ts and protocol.ts: configuration, guest sessions, frames. Time, random ids, the parse of
-- an inbound frame (JSON and its schema) and the upstream control client are arguments.
use swift_agent.Common.{ℕ, String, Bool, List, Option, none}
use swift_agent.Db.Spend.{Ledger}
use swift_agent.Mediator.RateLimit.{Limit}

pub record Config : Type 0 where
  pub session_ttl_ms : ℕ
  pub session_limit : Limit
  pub messages_per_session : ℕ
  pub message_max_chars : ℕ
  pub tokens_per_session : ℕ
  pub reservation_micro_usd : ℕ
  pub daily_ceiling_micro_usd : ℕ
  pub alert_threshold_micro_usd : ℕ

pub record GuestSession : Type 0 where
  pub guest_id : String
  pub session_id : String
  pub expires_at_ms : ℕ
  pub messages_sent : ℕ
  pub est_output_tokens : ℕ
  pub pending_reservation_ids : List String
  pub reservation_by_run : List (String × String)
  pub seen_runs : List String
  pub token_cap_breached : Bool

-- `RefusalReasonSchema`, without the reason of the session mint.
pub data RefusalReason : Type 0 where
  rate_limit_session message_cap token_cap daily_ceiling session_expired bad_frame : RefusalReason

pub data Remaining : Type 0 where
  messages tokens : ℕ → Remaining

pub record RefusalFrame : Type 0 where
  pub reason : RefusalReason
  pub retry_after_seconds : Option ℕ
  pub remaining : Option Remaining

-- The mediator as one guest's sockets see it. `refusals`, `forwarded`, `cancelled_runs`, `attached`
-- and `settling` record what was sent to the browser and asked of the upstream and the ledger.
pub record Mediator : Type 0 where
  pub guest : GuestSession
  pub session_hits : List (String × List ℕ)
  pub ledger : Ledger
  pub alerted_days : List String
  pub alerts : List String
  pub refusals : List RefusalFrame
  pub closed : Bool
  pub forwarded : List String
  pub cancelled_runs : List String
  pub settling : List (String × String)

-- `refusal(reason, message, extras)`; the human-readable message is left out.
abbrev pub plain : RefusalReason → RefusalFrame
plain reason = record { reason = reason; retry_after_seconds = none; remaining = none }
