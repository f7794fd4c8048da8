-- ===== src/Gateway/Heartbeat/Liveness.antt =====
-- heartbeat.ts: which sockets are terminated.
use swift_agent.Common.{
  ℕ, ◌+◌, Bool, true, false, ◌≡◌, refl, sym, subst, ◌∙◌, false≢true, inl, inr, Option, none, some,
  List, [], ◌∷◌, Bool-cases, length, arith, if◌then◌else◌, if_cases,
}
use swift_agent.Gateway.Heartbeat.{
  HeartbeatEntry, Socket, terminate, ping_entry, send_ping, on_pong, expire_entry, on_timeout, Beat,
  ping_due, pong, timeout, beat, beats,
}

-- A socket that is terminated, or owes a pong.
data Owes (s : Socket) : Type 0 where
  gone : s.entry ≡ none → s.terminated ≡ true → Owes s
  waits : (at : Option ℕ) → s.entry ≡ some record { alive = false; timeout_at = at } → Owes s

terminate-Owes : (s : Socket) → Owes (terminate s)
terminate-Owes s = gone refl refl

ping_entry-Owes :
    (timeout_ms now : ℕ) (pings : Bool) (e : HeartbeatEntry) (s : Socket)
    → Owes (ping_entry timeout_ms now pings (some e) s)
ping_entry-Owes timeout_ms now pings e s =
    if_cases Owes e.alive
      (λ up.
        if_cases Owes pings (λ ok. waits (some (now + timeout_ms)) refl) (λ dead. terminate-Owes s))
      (λ down. terminate-Owes s)

-- Beats other than a pong.
abbrev pub is_pong : Beat → Bool
is_pong pong = true
is_pong _ = false

abbrev pub silent : List Beat → Bool
silent [] = true
silent (b ∷ bs) = if is_pong b then false else silent bs

beat-Owes :
    (timeout_ms : ℕ) (b : Beat) (s : Socket)
    → is_pong b ≡ false
    → Owes s
    → Owes (beat timeout_ms b s)
unfolding beat send_ping on_timeout on_pong
beat-Owes timeout_ms (ping_due now pings) s h (gone e t) =
    subst (λ o. Owes (ping_entry timeout_ms now pings o s)) (sym e) (gone e t)
beat-Owes timeout_ms (ping_due now pings) s h (waits at e) =
    subst (λ o. Owes (ping_entry timeout_ms now pings o s)) (sym e) (terminate-Owes s)
beat-Owes timeout_ms timeout s h (gone e t) =
    subst (λ o. Owes (expire_entry o s)) (sym e) (gone e t)
beat-Owes timeout_ms timeout s h (waits at e) =
    subst (λ o. Owes (expire_entry o s)) (sym e) (terminate-Owes s)
beat-Owes timeout_ms pong s h o = absurd (false≢true (sym h))

beats-Owes :
    (timeout_ms : ℕ) (bs : List Beat) (s : Socket)
    → silent bs ≡ true
    → Owes s
    → Owes (beats timeout_ms bs s)
unfolding beats
beats-Owes timeout_ms [] s h o = o
beats-Owes timeout_ms (b ∷ bs) s h o = elim (Bool-cases (is_pong b)) [
  | inl heard ↦ absurd (false≢true (subst (λ c. (if c then false else silent bs) ≡ true) heard h))
  | inr quiet ↦
      beats-Owes timeout_ms bs (beat timeout_ms b s)
        (subst (λ c. (if c then false else silent bs) ≡ true) quiet h)
        (beat-Owes timeout_ms b s quiet o)
]

ping-ends :
    (timeout_ms now : ℕ) (pings : Bool) (s : Socket)
    → Owes s
    → (send_ping timeout_ms now pings s).terminated ≡ true
unfolding send_ping
ping-ends timeout_ms now pings s (gone e t) =
    subst (λ o. (ping_entry timeout_ms now pings o s).terminated ≡ true) (sym e) t
ping-ends timeout_ms now pings s (waits at e) =
    subst (λ o. (ping_entry timeout_ms now pings o s).terminated ≡ true) (sym e) refl

-- A monitored socket that answers no pong between two pings is terminated at the second ping, be
-- it one interval, half of the timeout, after the first, whatever else the timers do in between.
pub send_ping-terminates_silent :
    (timeout_ms first second : ℕ) (ok ok_again : Bool) (e : HeartbeatEntry) (bs : List Beat)
    (s : Socket)
    → s.entry ≡ some e
    → silent bs ≡ true
    → (send_ping timeout_ms second ok_again
        (beats timeout_ms bs (send_ping timeout_ms first ok s))).terminated
      ≡ true
unfolding send_ping
send_ping-terminates_silent timeout_ms first second ok ok_again e bs s monitored quiet =
    ping-ends timeout_ms second ok_again _ (
      beats-Owes timeout_ms bs _ quiet (
        subst (λ o. Owes (ping_entry timeout_ms first ok o s)) (sym monitored)
          (ping_entry-Owes timeout_ms first ok e s)))

-- The beats of a socket that answers each ping, pings at these times and may see late timeouts.
abbrev pub answered : List ℕ → List Beat
answered [] = []
answered (now ∷ times) = ping_due now true ∷ pong ∷ timeout ∷ answered times

abbrev up_again : Socket → Socket
up_again s = record s {
  entry = some record { alive = true; timeout_at = none };
  pinged = s.pinged + 1;
}

answered_round :
    (timeout_ms now : ℕ) (s : Socket)
    → s.entry ≡ some record { alive = true; timeout_at = none }
    → on_timeout (on_pong (send_ping timeout_ms now true s)) ≡ up_again s
unfolding send_ping on_pong on_timeout
answered_round timeout_ms now s up = rw up refl

-- A socket that answers every ping before the next is never terminated and stays monitored.
pub answered-stays :
    (timeout_ms : ℕ) (times : List ℕ) (s : Socket)
    → s.entry ≡ some record { alive = true; timeout_at = none }
    → let t = beats timeout_ms (answered times) s in
      (t.entry ≡ s.entry) × (t.terminated ≡ s.terminated) × (t.pinged ≡ s.pinged + length times)
unfolding beats beat send_ping on_pong on_timeout
answered-stays timeout_ms [] s up = (refl, refl, omega arith)
answered-stays timeout_ms (now ∷ times) s up =
    let (entry_kept, alive_kept, counted) = answered-stays timeout_ms times (up_again s) refl in
    subst
      (λ (r : Socket).
        let t = beats timeout_ms (answered times) r in
        (t.entry ≡ s.entry)
        × (t.terminated ≡ s.terminated)
        × (t.pinged ≡ s.pinged + length (now ∷ times)))
      (sym (answered_round timeout_ms now s up))
      (entry_kept ∙ sym up, alive_kept, omega (arith, counted))
