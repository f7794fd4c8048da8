-- ===== src/Gateway/Heartbeat.antt =====
-- packages/gateway/src/heartbeat.ts: the ping and pong of one socket, as the calls that its timers
-- and its 'pong' listener make. `pings` says whether the next `ws.ping()` does not throw; `entry` is
-- the socket's entry of the map.
pub mod Liveness
use swift_agent.Common.{
  ℕ, ◌+◌, ◌/◌, Bool, true, false, ◌≡◌, refl, sym, subst, ◌∙◌, false≢true, ◌⊎◌, inl, inr, Option,
  none, some, List, [], ◌∷◌, Bool-cases, length, arith, if◌then◌else◌, if_cases,
}

-- `timeout_at` is the time at which the hard timeout fires.
pub record HeartbeatEntry : Type 0 where
  pub alive : Bool
  pub timeout_at : Option ℕ

pub record Socket : Type 0 where
  pub entry : Option HeartbeatEntry
  pub terminated : Bool
  pub pinged : ℕ

-- `intervalMs`
abbrev pub interval_ms : ℕ → ℕ
interval_ms timeout_ms = timeout_ms / 2

-- `attach`
unfoldable pub attach : Socket → Socket
attach s = record s { entry = some record { alive = true; timeout_at = none } }

-- `detach`: the timers are cleared with the entry.
unfoldable pub detach : Socket → Socket
detach s = record s { entry = none }

abbrev pub terminate : Socket → Socket
terminate s = record s { entry = none; terminated = true }

-- The listener of 'pong'.
abbrev pub pong_entry : Option HeartbeatEntry → Option HeartbeatEntry
pong_entry none = none
pong_entry (some e) = some record { alive = true; timeout_at = none }

unfoldable pub on_pong : Socket → Socket
on_pong s = record s { entry = pong_entry s.entry }

abbrev pub ping_entry : ℕ → ℕ → Bool → Option HeartbeatEntry → Socket → Socket
ping_entry timeout_ms now pings none s = s
ping_entry timeout_ms now pings (some e) s =
    if e.alive
    then if pings
      then record s {
        entry = some record { alive = false; timeout_at = some (now + timeout_ms) };
        pinged = s.pinged + 1;
      }
      else terminate s
    else terminate s

-- `sendPing`
unfoldable pub send_ping : ℕ → ℕ → Bool → Socket → Socket
send_ping timeout_ms now pings s = ping_entry timeout_ms now pings s.entry s

-- The callback of the hard timeout.
abbrev pub expire_entry : Option HeartbeatEntry → Socket → Socket
expire_entry none s = s
expire_entry (some e) s = if e.alive then s else terminate s

unfoldable pub on_timeout : Socket → Socket
on_timeout s = expire_entry s.entry s

pub data Beat : Type 0 where
  ping_due : ℕ → Bool → Beat
  pong : Beat
  timeout : Beat

unfoldable pub beat : ℕ → Beat → Socket → Socket
unfolding send_ping on_pong on_timeout
beat timeout_ms (ping_due now pings) s = send_ping timeout_ms now pings s
beat timeout_ms pong s = on_pong s
beat timeout_ms timeout s = on_timeout s

unfoldable pub beats : ℕ → List Beat → Socket → Socket
unfolding beat
beats timeout_ms [] s = s
beats timeout_ms (b ∷ bs) s = beats timeout_ms bs (beat timeout_ms b s)
