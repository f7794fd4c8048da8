-- ===== src/Mediator/Upstream.antt =====
-- mediator.ts: the upstream socket of one browser socket: the ping handshake, and the queue of
-- frames until the gateway listens.
pub mod InOrder
use swift_agent.Common.{
  false≢true, if_cases, ℕ, zero, suc, ◌+◌, ◌≤◌, ◌<◌, String, Bool, true, false, ◌≡◌, refl, sym, ap,
  ◌∙◌, List, [], ◌∷◌, ◌++◌, arith, ltb, append_assoc, append-nil, ◌⊎◌, inl, inr, Bool-cases,
  if◌then◌else◌,
}

pub data Sent : Type 0 where
  ping : Sent
  frame : String → Sent

-- `accepted` records the frames given to `forwardUpstream`.
pub record Upstream : Type 0 where
  pub ready : Bool
  pub pinging : Bool
  pub attempts : ℕ
  pub out_queue : List String
  pub sent : List Sent
  pub accepted : List String

abbrev pub ping_handshake_attempts : ℕ
ping_handshake_attempts = 20

unfoldable pub fresh : Upstream
fresh = record {
  ready = false;
  pinging = false;
  attempts = 0;
  out_queue = [];
  sent = [];
  accepted = [];
}

abbrev pub as_frames : List String → List Sent
as_frames [] = []
as_frames (x ∷ xs) = frame x ∷ as_frames xs

-- `flush`
unfoldable pub flush : Upstream → Upstream
flush u = record u { sent = u.sent ++ as_frames u.out_queue; out_queue = [] }

-- `forwardUpstream`
unfoldable pub forward : String → Upstream → Upstream
forward x u =
    if u.ready
    then record u { sent = u.sent ++ frame x ∷ []; accepted = u.accepted ++ x ∷ [] }
    else record u { out_queue = u.out_queue ++ x ∷ []; accepted = u.accepted ++ x ∷ [] }

-- The function `ping` of the handshake, after `attempts += 1`.
unfoldable pub ping_now : Upstream → Upstream
unfolding flush
ping_now u =
    if u.ready
    then record u { pinging = false }
    else if ltb ping_handshake_attempts u.attempts
    then flush (record u { pinging = false; ready = true })
    else record u { sent = u.sent ++ ping ∷ [] }

unfoldable pub attempt : Upstream → Upstream
unfolding ping_now
attempt u = ping_now (record u { attempts = u.attempts + 1 })

pub data Event : Type 0 where
  tick pong close : Event
  forwards : String → Event

-- The interval fires only while it is set.
unfoldable pub step : Event → Upstream → Upstream
unfolding attempt forward flush
step tick u = if u.pinging then attempt u else u
step pong u = if u.ready then u else flush (record u { ready = true })
step close u = record u { pinging = false; ready = false }
step (forwards x) u = forward x u

-- The handler of 'open'.
unfoldable pub open_upstream : Upstream → Upstream
unfolding attempt
open_upstream u = let v = attempt (record u { attempts = 0 }) in record v { pinging = true }

unfoldable pub run : List Event → Upstream → Upstream
unfolding step
run [] u = u
run (e ∷ es) u = run es (step e u)

-- The frames that come before the socket is open.
unfoldable pub forward_all : List String → Upstream → Upstream
forward_all [] u = u
forward_all (x ∷ xs) u = forward_all xs (forward x u)
