-- ===== src/Mediator/Upstream/InOrder.antt =====
-- mediator.ts, the upstream queue: frames go up in order, each once, after the handshake.
use swift_agent.Common.{
  false≢true, if_cases, ℕ, suc, ◌+◌, ◌≤◌, ◌<◌, String, true, false, ◌≡◌, refl, sym, ap, ◌∙◌, List,
  [], ◌∷◌, ◌++◌, arith, ltb, append_assoc, append-nil, ◌⊎◌, inl, inr,
}
use swift_agent.Mediator.Upstream.{
  Sent, ping, frame, Upstream, ping_handshake_attempts, fresh, as_frames, flush, forward, ping_now,
  attempt, Event, tick, pong, close, forwards, step, open_upstream, run, forward_all,
}

-- The frames among what was sent, and the number of pings.
abbrev pub frames : List Sent → List String
frames [] = []
frames (ping ∷ xs) = frames xs
frames (frame x ∷ xs) = x ∷ frames xs

abbrev pub pings : List Sent → ℕ
pings [] = 0
pings (ping ∷ xs) = suc (pings xs)
pings (frame x ∷ xs) = pings xs

frames-append : (xs ys : List Sent) → frames (xs ++ ys) ≡ frames xs ++ frames ys
frames-append [] ys = refl
frames-append (ping ∷ xs) ys = frames-append xs ys
frames-append (frame x ∷ xs) ys = ap (λ zs. x ∷ zs) (frames-append xs ys)

pings-append : (xs ys : List Sent) → pings (xs ++ ys) ≡ pings xs + pings ys
pings-append [] ys = omega arith
pings-append (ping ∷ xs) ys = omega (arith, pings-append xs ys)
pings-append (frame x ∷ xs) ys = pings-append xs ys

frames-as_frames : (xs : List String) → frames (as_frames xs) ≡ xs
frames-as_frames [] = refl
frames-as_frames (x ∷ xs) = ap (λ zs. x ∷ zs) (frames-as_frames xs)

pings-as_frames : (xs : List String) → pings (as_frames xs) ≡ 0
pings-as_frames [] = refl
pings-as_frames (x ∷ xs) = pings-as_frames xs

-- Nothing is lost, doubled or reordered; a ready upstream has nothing queued; the pings are few.
pub record InSync (u : Upstream) : Type 0 where
  pub order : frames u.sent ++ u.out_queue ≡ u.accepted
  pub empty : (u.ready ≡ false) ⊎ (u.out_queue ≡ [])
  pub few : pings u.sent ≤ ping_handshake_attempts
  pub counted : pings u.sent ≤ u.attempts

flush-InSync : (u : Upstream) → InSync u → InSync (flush (record u { ready = true }))
unfolding flush
flush-InSync u v = record {
  order =
      append-nil _
      ∙ frames-append u.sent (as_frames u.out_queue)
      ∙ ap (λ xs. frames u.sent ++ xs) (frames-as_frames u.out_queue)
      ∙ v.order;
  empty = inr refl;
  few =
      omega
        (arith, pings-append u.sent (as_frames u.out_queue), pings-as_frames u.out_queue, v.few);
  counted =
      omega (
        arith,
        pings-append u.sent (as_frames u.out_queue),
        pings-as_frames u.out_queue,
        v.counted,
      );
}

nothing_queued : (u : Upstream) → InSync u → u.ready ≡ true → u.out_queue ≡ []
nothing_queued u v now = elim v.empty [
  | inl waiting ↦ absurd (false≢true (sym waiting ∙ now))
  | inr e ↦ e
]

sent_all : (u : Upstream) → InSync u → u.ready ≡ true → frames u.sent ≡ u.accepted
sent_all u v now =
    sym (append-nil (frames u.sent))
    ∙ sym (ap (λ xs. frames u.sent ++ xs) (nothing_queued u v now))
    ∙ v.order

forward-InSync : (x : String) (u : Upstream) → InSync u → InSync (forward x u)
unfolding forward
forward-InSync x u v =
    if_cases InSync u.ready
      (λ now. record {
        order =
            ap (λ xs. frames (u.sent ++ frame x ∷ []) ++ xs) (nothing_queued u v now)
            ∙ append-nil _
            ∙ frames-append u.sent (frame x ∷ [])
            ∙ ap (λ xs. xs ++ x ∷ []) (sent_all u v now);
        empty = inr (nothing_queued u v now);
        few = omega (arith, pings-append u.sent (frame x ∷ []), v.few);
        counted = omega (arith, pings-append u.sent (frame x ∷ []), v.counted);
      })
      (λ waiting. record {
        order =
            sym (append_assoc (frames u.sent) u.out_queue (x ∷ []))
            ∙ ap (λ xs. xs ++ x ∷ []) v.order;
        empty = inl waiting;
        few = v.few;
        counted = v.counted;
      })

ping-InSync :
    (u : Upstream)
    → InSync u
    → pings u.sent < ping_handshake_attempts
    → pings u.sent < u.attempts
    → InSync (record u { sent = u.sent ++ ping ∷ [] })
ping-InSync u v few counted = record {
  order =
      ap (λ xs. xs ++ u.out_queue) (frames-append u.sent (ping ∷ []) ∙ append-nil (frames u.sent))
      ∙ v.order;
  empty = v.empty;
  few = omega (arith, pings-append u.sent (ping ∷ []), few);
  counted = omega (arith, pings-append u.sent (ping ∷ []), counted);
}

tried : (u : Upstream) → InSync u → InSync (record u { attempts = u.attempts + 1 })
tried u v = record {
  order = v.order;
  empty = v.empty;
  few = v.few;
  counted = omega (arith, v.counted);
}

within_few :
    (u : Upstream)
    → InSync u
    → ltb ping_handshake_attempts (u.attempts + 1) ≡ false
    → pings u.sent < ping_handshake_attempts
within_few u v within = ground (arith, v.counted)

-- Each attempt sends a ping, or it is past the budget and opens the queue.
attempt-InSync : (u : Upstream) → InSync u → InSync (attempt u)
unfolding attempt ping_now
attempt-InSync u v =
    if_cases InSync u.ready
      (λ now. record {
        order = v.order;
        empty = v.empty;
        few = v.few;
        counted = omega (arith, v.counted);
      })
      (λ waiting.
        if_cases InSync (ltb ping_handshake_attempts (u.attempts + 1))
          (λ over.
            flush-InSync (record u { pinging = false; attempts = u.attempts + 1 })
              record {
                order = v.order;
                empty = v.empty;
                few = v.few;
                counted = omega (arith, v.counted);
              })
          (λ within.
            ping-InSync (record u { attempts = u.attempts + 1 }) (tried u v) (within_few u v within)
              (omega (arith, v.counted))))

step-InSync : (e : Event) (u : Upstream) → InSync u → InSync (step e u)
unfolding step
step-InSync tick u v = if_cases InSync u.pinging (λ on. attempt-InSync u v) (λ off. v)
step-InSync pong u v = if_cases InSync u.ready (λ now. v) (λ waiting. flush-InSync u v)
step-InSync close u v = record {
  order = v.order;
  empty = inl refl;
  few = v.few;
  counted = v.counted;
}
step-InSync (forwards x) u v = forward-InSync x u v

run-InSync : (es : List Event) (u : Upstream) → InSync u → InSync (run es u)
unfolding run
run-InSync [] u v = v
run-InSync (e ∷ es) u v = run-InSync es (step e u) (step-InSync e u v)

forward_all-InSync : (xs : List String) (u : Upstream) → InSync u → InSync (forward_all xs u)
unfolding forward_all
forward_all-InSync [] u v = v
forward_all-InSync (x ∷ xs) u v = forward_all-InSync xs (forward x u) (forward-InSync x u v)

forward-attempts : (x : String) (u : Upstream) → (forward x u).attempts ≡ u.attempts
unfolding forward
forward-attempts x u =
    if_cases (λ (w : Upstream). w.attempts ≡ u.attempts) u.ready (λ now. refl) (λ waiting. refl)

forward_all-attempts : (xs : List String) (u : Upstream) → (forward_all xs u).attempts ≡ u.attempts
unfolding forward_all
forward_all-attempts [] u = refl
forward_all-attempts (x ∷ xs) u = forward_all-attempts xs (forward x u) ∙ forward-attempts x u

open_upstream-InSync : (u : Upstream) → InSync u → u.attempts ≡ 0 → InSync (open_upstream u)
unfolding open_upstream
open_upstream-InSync u v none_yet =
    let w =
      attempt-InSync (record u { attempts = 0 })
        (record {
          order = v.order;
          empty = v.empty;
          few = v.few;
          counted = omega (arith, v.counted, none_yet);
        }) in
    record { order = w.order; empty = w.empty; few = w.few; counted = w.counted }

fresh-InSync : InSync fresh
unfolding fresh
fresh-InSync = record { order = refl; empty = inl refl; few = omega arith; counted = omega arith }

-- Whatever the browser sends before the gateway's socket opens, and whatever ticks, pongs, closes
-- and further frames come after: the frames sent upstream followed by those still queued are the
-- frames accepted, each once and in order; nothing is queued once the upstream is ready; and no
-- more than the twenty pings of the budget are sent.
pub run-InSync_from_open :
    (before : List String) (es : List Event)
    → InSync (run es (open_upstream (forward_all before fresh)))
unfolding fresh
run-InSync_from_open before es = run-InSync es _ (
    open_upstream-InSync _ (forward_all-InSync before fresh fresh-InSync)
      (forward_all-attempts before fresh))
