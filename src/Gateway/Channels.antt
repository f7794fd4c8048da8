-- ===== src/Gateway/Channels.antt =====
-- packages/gateway/src/channel-registry.ts: the Redis subscription of each session, counted over
-- the session's sockets. `subscribed` is what Redis holds for this instance; the calls of Redis
-- are assumed not to throw.
pub mod Refs
use swift_agent.Common.{
  ℕ, zero, suc, ◌+◌, ◌-◌, ◌≤◌, ◌<◌, String, Bool, true, false, ◌≡◌, refl, sym, ap, subst, ◌∙◌,
  Option, none, some, List, [], ◌∷◌, ltb, str_eq, eq_iff, eq_refl, arith, if◌then◌else◌, if_cases,
  ◌<>◌, get_key, set_key, delete_key, get_key-set_same, get_key-set_other, get_key-delete_same,
  get_key-delete_other, inl, inr, Bool-cases, Option-cases, ◌⊎◌, ◌++◌,
}
use swift_agent.Shared.{ChatEvent}
use swift_agent.Gateway.Connections.{Manager, broadcast}

-- An envelope on the channel, as JSON.parse yields it.
pub record FanoutEnvelope : Type 0 where
  pub origin : String
  pub event : ChatEvent

pub record Channels : Type 0 where
  pub instance_id : String
  pub refs : List (String × ℕ)
  pub subscribed : List (String × Bool)
  pub published : List (String × FanoutEnvelope)

-- `channel`
abbrev pub channel : String → String
channel session_id = "session:" <> session_id

-- `publish`
unfoldable pub publish : String → ChatEvent → Channels → Channels
publish session_id e r = record r {
  published =
      r.published ++ (channel session_id, record { origin = r.instance_id; event = e }) ∷ [];
}

abbrev pub count_of : Option ℕ → ℕ
count_of none = 0
count_of (some n) = n

-- `refCount`
unfoldable pub ref_count : String → Channels → ℕ
ref_count session_id r = count_of (get_key (channel session_id) r.refs)

abbrev pub acquire_at : String → Option ℕ → Channels → Channels
acquire_at key (some n) r = record r { refs = set_key key (n + 1) r.refs }
acquire_at key none r = record r {
  refs = set_key key 1 r.refs;
  subscribed = set_key key true r.subscribed;
}

-- `acquire`
unfoldable pub acquire : String → Channels → Channels
acquire session_id r = acquire_at (channel session_id) (get_key (channel session_id) r.refs) r

abbrev pub release_at : String → Option ℕ → Channels → Channels
release_at key none r = r
release_at key (some n) r =
    if ltb 0 (n - 1)
    then record r { refs = set_key key (n - 1) r.refs }
    else record r { refs = delete_key key r.refs; subscribed = delete_key key r.subscribed }

-- `release`
unfoldable pub release : String → Channels → Channels
release session_id r = release_at (channel session_id) (get_key (channel session_id) r.refs) r

-- `forward`: none is a message that does not parse.
unfoldable pub forward : (ℕ → Bool) → Channels → String → Option FanoutEnvelope → Manager → Manager
forward sends r session_id none m = m
forward sends r session_id (some e) m =
    if str_eq e.origin r.instance_id then m else broadcast sends session_id e.event m
