-- ===== src/Mediator/Inbound.antt =====
-- mediator.ts: `handleInbound`, the enforcement chain. The `await` of the ledger splits it in two:
-- `admit` runs up to it, `commit` from it on.
pub mod Chain
pub mod Cap
use swift_agent.Common.{
  ℕ, zero, suc, ◌+◌, ◌-◌, String, Bool, true, false, List, [], ◌∷◌, ◌++◌, Option, none, some, leb,
  ltb, has_string, add_string, if◌then◌else◌,
}
use swift_agent.Db.Spend.{Ledger, ReserveResult, accepted, daily_ceiling, bad_amount, reserve}
use swift_agent.Db.Spend
use swift_agent.Mediator.RateLimit.{Verdict, check}
use swift_agent.Mediator.Defs.{
  Config, GuestSession, RefusalFrame, RefusalReason, Remaining, Mediator, plain,
}
use swift_agent.Mediator.Defs

-- `none` goes no further; `some content` goes on to the ledger.
abbrev pub Admission : Type 0
Admission = Option String × Mediator

-- `send(refusal(…)); return;`
unfoldable pub refuse : RefusalFrame → Mediator → Admission
refuse f m = (none, record m { refusals = m.refusals ++ f ∷ [] })

-- The random data of one call: the moments at which the clock is read, the reservation's id.
pub record Reading : Type 0 where
  pub at_ttl : ℕ
  pub at_rate : ℕ
  pub day : String
  pub at_reserve : ℕ
  pub reservation_id : String

module _ (c : Config) (chars : String → ℕ) where
  -- 3a to 4: the caps of the session.
  unfoldable pub caps : String → Mediator → Admission
  unfolding refuse
  caps content m =
      if ltb c.message_max_chars (chars content)
      then refuse
          (record {
            reason = Defs.message_cap;
            retry_after_seconds = none;
            remaining = some (Defs.messages (c.messages_per_session - m.guest.messages_sent));
          })
          m
      else if leb c.messages_per_session m.guest.messages_sent
      then refuse
          (record {
            reason = Defs.message_cap;
            retry_after_seconds = none;
            remaining = some (Defs.messages 0);
          })
          m
      else if leb c.tokens_per_session m.guest.est_output_tokens
      then refuse
          (record {
            reason = Defs.token_cap;
            retry_after_seconds = none;
            remaining = some (Defs.tokens 0);
          })
          m
      else (some content, m)

  -- 2: the verdict of the limiter.
  unfoldable pub rate_gate : String → Verdict → Mediator → Admission
  unfolding caps
  rate_gate content v m =
      if v.allowed
      then caps content m
      else refuse
          (record {
            reason = Defs.rate_limit_session;
            retry_after_seconds = some v.retry_after_seconds;
            remaining = none;
          })
          m

  -- The session limiter counts the hit.
  unfoldable pub rate : String → ℕ → Mediator → Admission
  unfolding rate_gate
  rate content now m =
      let (v, hits) = check c.session_limit m.guest.guest_id now m.session_hits in
      rate_gate content v (record m { session_hits = hits })

  -- The chain up to the ledger; `none` is a frame that does not parse.
  unfoldable pub admit : Option String → ℕ → ℕ → Mediator → Admission
  unfolding rate refuse
  admit none at_ttl at_rate m = refuse (plain Defs.bad_frame) m
  admit (some content) at_ttl at_rate m =
      if ltb m.guest.expires_at_ms at_ttl
      then (
        none,
        record m { refusals = m.refusals ++ plain Defs.session_expired ∷ []; closed = true },
      )
      else rate content at_rate m

  -- `maybeAlert`
  unfoldable pub maybe_alert : String → ℕ → Mediator → Mediator
  maybe_alert day total m =
      if leb c.alert_threshold_micro_usd total
      then if has_string day m.alerted_days then m else record m {
        alerted_days = add_string day m.alerted_days;
        alerts = m.alerts ++ day ∷ [];
      }
      else m

  -- What follows the answer of the ledger.
  unfoldable pub settle_admission : String → String → ReserveResult → Mediator → Mediator
  unfolding maybe_alert
  settle_admission day content (accepted r total) m =
      let m' = maybe_alert day total m in
      record m' {
        guest = record (m'.guest) {
          pending_reservation_ids = m'.guest.pending_reservation_ids ++ r.reservation_id ∷ [];
          messages_sent = m'.guest.messages_sent + 1;
        };
        forwarded = m'.forwarded ++ content ∷ [];
      }
  settle_admission day content (daily_ceiling total) m = record m {
    refusals = m.refusals ++ plain Defs.daily_ceiling ∷ [];
  }
  settle_admission day content bad_amount m = m

  -- 5: the ledger, and what follows.
  unfoldable pub commit : Reading → Option String → Mediator → Mediator
  unfolding settle_admission
  commit t none m = m
  commit t (some content) m =
      let (r, l) =
        reserve t.day c.reservation_micro_usd c.daily_ceiling_micro_usd m.guest.session_id
          t.reservation_id t.at_reserve m.ledger in
      settle_admission t.day content r (record m { ledger = l })

  -- `handleInbound`, when nothing runs between its two parts.
  unfoldable pub handle_inbound : Reading → Option String → Mediator → Mediator
  unfolding admit commit
  handle_inbound t frame m = let (go, m') = admit frame t.at_ttl t.at_rate m in commit t go m'

  -- One socket's frames, each handled to its end before the next.
  unfoldable pub handle_all : List (Reading × Option String) → Mediator → Mediator
  unfolding handle_inbound
  handle_all [] m = m
  handle_all ((t, frame) ∷ fs) m = handle_all fs (handle_inbound t frame m)
