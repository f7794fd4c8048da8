-- ===== src/Mediator/Observe/TokenCap.antt =====
-- The token cap fires once.
use swift_agent.Common.{
  ℕ, ◌≤◌, ◌<◌, String, true, false, ◌≡◌, refl, List, [], ◌∷◌, arith, length, length-append, ◌⊎◌,
  inl, inr, ap, ◌∙◌, has_string, add_string, Bool-cases,
}
use swift_agent.Shared.{
  ChatEvent, message_started, token, tool_call_started, tool_call_completed, message_completed,
  run_failed,
}
use swift_agent.Mediator.Defs.{Config, Mediator}
use swift_agent.Mediator.Observe.{attach, see_run, breach, count_tokens, start_settling, observe}
use mathlib.Core.Option.{Option, none, some}

-- Either the estimate is within the cap and no run was cancelled, or it is past it, the flag is set
-- and exactly one run was cancelled.
pub record CapState (c : Config) (m : Mediator) : Type 0 where
  pub state :
      ((m.guest.token_cap_breached ≡ false)
        × (m.guest.est_output_tokens ≤ c.tokens_per_session)
        × (length m.cancelled_runs ≡ 0))
      ⊎ ((m.guest.token_cap_breached ≡ true)
          × (c.tokens_per_session < m.guest.est_output_tokens)
          × (length m.cancelled_runs ≡ 1))

-- What an update that leaves the three parts alone keeps.
CapState-same :
    (c : Config) (m n : Mediator)
    → n.guest.token_cap_breached ≡ m.guest.token_cap_breached
    → n.guest.est_output_tokens ≡ m.guest.est_output_tokens
    → n.cancelled_runs ≡ m.cancelled_runs
    → CapState c m
    → CapState c n
CapState-same c m n a b d v = elim v.state [
  | inl (p, q, r) ↦ record { state = inl (a ∙ p, omega (arith, b, q), ap length d ∙ r) }
  | inr (p, q, r) ↦ record { state = inr (a ∙ p, omega (arith, b, q), ap length d ∙ r) }
]

attach-CapState :
    (c : Config) (run_id : String) (ids : List String) (m : Mediator)
    → CapState c m
    → CapState c (attach run_id ids m)
unfolding attach
attach-CapState c run_id [] m v = v
attach-CapState c run_id (id ∷ ids) m v = CapState-same c m _ refl refl refl v

see_run-CapState :
    (c : Config) (run_id : String) (m : Mediator) → CapState c m → CapState c (see_run run_id m)
unfolding see_run
see_run-CapState c run_id m v = elim (Bool-cases (has_string run_id m.guest.seen_runs)) [
  | inl old ↦ rw old v
  | inr new ↦ rw new (
      attach-CapState c run_id m.guest.pending_reservation_ids seen
        (CapState-same c m seen refl refl refl v))
]
  where
    seen : Mediator
    seen = record m { guest = record (m.guest) { seen_runs = add_string run_id m.guest.seen_runs } }

settling-CapState :
    (c : Config) (run_id : String) (o : Option String) (m : Mediator)
    → CapState c m
    → CapState c (start_settling run_id o m)
unfolding start_settling
settling-CapState c run_id none m v = v
settling-CapState c run_id (some id) m v = CapState-same c m _ refl refl refl v

tokens-CapState :
    (c : Config) (chars : String → ℕ) (run_id text : String) (m : Mediator)
    → CapState c m
    → CapState c (count_tokens c chars run_id text m)
unfolding count_tokens breach
tokens-CapState c chars run_id text m v =
    let s = v.state in
    record { state = ground (arith, length-append m.cancelled_runs (run_id ∷ [])) }

-- For every relayed event: while the estimated output tokens are within the session's cap, no run
-- is cancelled; once they are past it, exactly one run was, however many tokens follow.
pub observe-CapState :
    (c : Config) (chars : String → ℕ) (e : ChatEvent) (m : Mediator)
    → CapState c m
    → CapState c (observe c chars e m)
unfolding observe
observe-CapState c chars (message_started message_id run_id session_id) m v =
    see_run-CapState c run_id m v
observe-CapState c chars (token run_id session_id message_id text) m v =
    tokens-CapState c chars run_id text m v
observe-CapState c chars (tool_call_started call_id run_id session_id tool_name) m v = v
observe-CapState c chars (tool_call_completed call_id run_id session_id tool_name st) m v = v
observe-CapState c chars (message_completed message_id run_id session_id) m v =
    settling-CapState c run_id _ m v
observe-CapState c chars (run_failed run_id session_id code message) m v =
    settling-CapState c run_id _ m v
