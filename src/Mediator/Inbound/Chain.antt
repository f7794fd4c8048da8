-- ===== src/Mediator/Inbound/Chain.antt =====
-- What a handled frame shows.
use swift_agent.Common.{
  ℕ, ◌+◌, ◌≤◌, ◌<◌, String, Bool, true, ◌≡◌, refl, ap, ◌∙◌, List, [], ◌∷◌, ◌++◌, Option, none, some,
  arith, length, length-append, leb, ltb, ◌⊎◌, inl, inr, Bool-cases,
}
use swift_agent.Db.Spend.{Ledger, Reservation, ReserveResult, accepted, daily_ceiling, bad_amount}
use swift_agent.Mediator.RateLimit.{check}
use swift_agent.Db.Spend.Answers.{Answers, reserve-Answers}
use swift_agent.Mediator.Defs.{Config, Mediator, RefusalFrame}
use swift_agent.Mediator.Inbound.{
  Admission, Reading, refuse, caps, rate_gate, rate, admit, maybe_alert, settle_admission, commit,
  handle_inbound,
}

-- What a refusal leaves alone.
pub record Untouched (m n : Mediator) : Type 0 where
  pub sent : n.guest.messages_sent ≡ m.guest.messages_sent
  pub forwarded : n.forwarded ≡ m.forwarded
  pub ledger : n.ledger ≡ m.ledger
  pub pending : n.guest.pending_reservation_ids ≡ m.guest.pending_reservation_ids

-- One refusal frame, and nothing else.
pub record Refused (m n : Mediator) : Type 0 where
  pub untouched : Untouched m n
  pub told : length n.refusals ≡ length m.refusals + 1

-- The limits that a frame keeps when it is let through.
pub record WithinLimits (c : Config) (chars : String → ℕ) (content : String) (at_ttl at_rate : ℕ)
    (m : Mediator) : Type 0 where
  pub in_time : at_ttl ≤ m.guest.expires_at_ms
  pub short : chars content ≤ c.message_max_chars
  pub under_messages : m.guest.messages_sent < c.messages_per_session
  pub under_tokens : m.guest.est_output_tokens < c.tokens_per_session
  pub paced : (check c.session_limit m.guest.guest_id at_rate m.session_hits).0.allowed ≡ true

-- The first part lets a frame through.
pub record LetThrough (c : Config) (chars : String → ℕ) (frame : Option String) (at_ttl at_rate : ℕ)
    (content : String) (m n : Mediator) : Type 0 where
  pub parsed : frame ≡ some content
  pub limits : WithinLimits c chars content at_ttl at_rate m
  pub untouched : Untouched m n
  pub quiet : n.refusals ≡ m.refusals
  pub same_session : n.guest.session_id ≡ m.guest.session_id

module _ (c : Config) (chars : String → ℕ) where
  abbrev pub Verdicts : Option String → ℕ → ℕ → Mediator → Admission → Type 0
  Verdicts frame at_ttl at_rate m (none, n) = Refused m n
  Verdicts frame at_ttl at_rate m (some content, n) =
      LetThrough c chars frame at_ttl at_rate content m n

  refused-length : {A : Type 0} (xs : List A) (x : A) → length (xs ++ x ∷ []) ≡ length xs + 1
  refused-length xs x = omega (arith, length-append xs (x ∷ []))

  refused :
      (m : Mediator) (hits : List (String × List ℕ)) (closed : Bool) (f : RefusalFrame)
      → Refused m
          (record m { session_hits = hits; refusals = m.refusals ++ f ∷ []; closed = closed })
  refused m hits closed f = record {
    untouched = record { sent = refl; forwarded = refl; ledger = refl; pending = refl };
    told = refused-length m.refusals f;
  }

  caps-Verdicts :
      (content : String) (at_ttl at_rate : ℕ) (m : Mediator) (hits : List (String × List ℕ))
      → at_ttl ≤ m.guest.expires_at_ms
      → (check c.session_limit m.guest.guest_id at_rate m.session_hits).0.allowed ≡ true
      → Verdicts
          (some content)
          at_ttl
          at_rate
          m
          (caps c chars content (record m { session_hits = hits }))
  unfolding caps refuse
  caps-Verdicts content at_ttl at_rate m hits in_time paced =
      elim (Bool-cases (ltb c.message_max_chars (chars content))) [
        | inl long ↦ rw long (refused m hits m.closed _)
        | inr short ↦
            rw short (elim (Bool-cases (leb c.messages_per_session m.guest.messages_sent)) [
              | inl full ↦ rw full (refused m hits m.closed _)
              | inr room ↦
                  rw room (elim (Bool-cases (leb c.tokens_per_session m.guest.est_output_tokens)) [
                    | inl spent ↦ rw spent (refused m hits m.closed _)
                    | inr left ↦ rw left (record {
                      parsed = refl;
                      limits = record {
                        in_time = in_time;
                        short = ground arith;
                        under_messages = ground arith;
                        under_tokens = ground arith;
                        paced = paced;
                      };
                      untouched = same;
                      quiet = refl;
                      same_session = refl;
                    })
                  ])
            ])
      ]
    where
      same : Untouched m (record m { session_hits = hits })
      same = record { sent = refl; forwarded = refl; ledger = refl; pending = refl }

  rate-Verdicts :
      (content : String) (at_ttl at_rate : ℕ) (m : Mediator)
      → at_ttl ≤ m.guest.expires_at_ms
      → Verdicts (some content) at_ttl at_rate m (rate c chars content at_rate m)
  unfolding rate rate_gate refuse
  rate-Verdicts content at_ttl at_rate m in_time =
      elim (Bool-cases (check c.session_limit m.guest.guest_id at_rate m.session_hits).0.allowed) [
        | inl yes_ ↦ rw yes_ (caps-Verdicts content at_ttl at_rate m _ in_time yes_)
        | inr no_ ↦ rw no_ (refused m _ m.closed _)
      ]

  pub admit-Verdicts :
      (frame : Option String) (at_ttl at_rate : ℕ) (m : Mediator)
      → Verdicts frame at_ttl at_rate m (admit c chars frame at_ttl at_rate m)
  unfolding admit refuse
  admit-Verdicts none at_ttl at_rate m = refused m m.session_hits m.closed _
  admit-Verdicts (some content) at_ttl at_rate m =
      elim (Bool-cases (ltb m.guest.expires_at_ms at_ttl)) [
        | inl late ↦ rw late (refused m m.session_hits true _)
        | inr in_time ↦ rw in_time (rate-Verdicts content at_ttl at_rate m (ground arith))
      ]

  -- A frame that is forwarded: it kept every limit, and its reservation is in the ledger, within
  -- the ceiling of the day, for the configured amount.
  pub record Forwarded (t : Reading) (frame : Option String) (m n : Mediator) : Type 0 where
    pub content : String
    pub parsed : frame ≡ some content
    pub limits : WithinLimits c chars content t.at_ttl t.at_rate m
    pub row : Reservation
    pub amount : row.reserved_micro_usd ≡ c.reservation_micro_usd
    pub reserved : n.ledger.reservations ≡ m.ledger.reservations ++ row ∷ []
    pub sent : n.guest.messages_sent ≡ m.guest.messages_sent + 1
    pub out : n.forwarded ≡ m.forwarded ++ content ∷ []
    pub pending :
        n.guest.pending_reservation_ids ≡ m.guest.pending_reservation_ids ++ row.reservation_id ∷ []
    pub quiet : n.refusals ≡ m.refusals

  pub alert_keeps :
      (day : String) (total : ℕ) (m : Mediator)
      → Untouched m (maybe_alert c chars day total m)
        × ((maybe_alert c chars day total m).refusals ≡ m.refusals)
  unfolding maybe_alert
  alert_keeps day total m = ground arith

  -- The second part, on the answer of the ledger.
  settle_forwards :
      (t : Reading) (frame : Option String) (content : String) (m n : Mediator) (r : ReserveResult)
      (l : Ledger)
      → 0 < c.reservation_micro_usd
      → LetThrough c chars frame t.at_ttl t.at_rate content m n
      → Answers t.reservation_id c.reservation_micro_usd c.daily_ceiling_micro_usd n.ledger (r, l)
      → Forwarded t frame m (settle_admission c chars t.day content r (record n { ledger = l }))
        ⊎ Refused m (settle_admission c chars t.day content r (record n { ledger = l }))
  unfolding settle_admission
  settle_forwards t frame content m n (accepted row total) l pos h (id, amount, rows, le) =
      let n' = record n { ledger = l } in
      let (kept, quiet) = alert_keeps t.day total n' in
      inl (record {
        content = content;
        parsed = h.parsed;
        limits = h.limits;
        row = row;
        amount = amount;
        reserved =
            ap (λ (x : Ledger). x.reservations) kept.ledger
            ∙ rows
            ∙ ap (λ (x : Ledger). x.reservations ++ row ∷ []) h.untouched.ledger;
        sent = ap (λ k. k + 1) (kept.sent ∙ h.untouched.sent);
        out = ap (λ xs. xs ++ content ∷ []) (kept.forwarded ∙ h.untouched.forwarded);
        pending = ap (λ xs. xs ++ row.reservation_id ∷ []) (kept.pending ∙ h.untouched.pending);
        quiet = quiet ∙ h.quiet;
      })
  settle_forwards t frame content m n (daily_ceiling total) l pos h same = inr (record {
    untouched = record {
      sent = h.untouched.sent;
      forwarded = h.untouched.forwarded;
      ledger = same ∙ h.untouched.ledger;
      pending = h.untouched.pending;
    };
    told = refused-length n.refusals _ ∙ ap (λ xs. length xs + 1) h.quiet;
  })
  settle_forwards t frame content m n bad_amount l pos h (none_, same) = absurd (omega arith)

  commit_forwards :
      (t : Reading) (frame : Option String) (m : Mediator) (a : Admission)
      → 0 < c.reservation_micro_usd
      → Verdicts frame t.at_ttl t.at_rate m a
      → Forwarded t frame m (commit c chars t a.0 a.1) ⊎ Refused m (commit c chars t a.0 a.1)
  unfolding commit
  commit_forwards t frame m (none, n) pos h = inr h
  commit_forwards t frame m (some content, n) pos h =
      settle_forwards t frame content m n _ _ pos h (
        reserve-Answers t.day c.reservation_micro_usd c.daily_ceiling_micro_usd n.guest.session_id
          t.reservation_id t.at_reserve n.ledger)

  -- Where a reservation costs something, every inbound frame that is handled to its end has one of
  -- two effects. Either it is forwarded, once, and then it parsed, kept the session's time, pace,
  -- length, message and token limits, and its reservation for the full amount was appended to the
  -- ledger and queued; or exactly one refusal is sent, nothing is forwarded, and the ledger, the
  -- count of messages and the queue are as before.
  pub handle_inbound-outcome :
      (t : Reading) (frame : Option String) (m : Mediator)
      → 0 < c.reservation_micro_usd
      → Forwarded t frame m (handle_inbound c chars t frame m)
        ⊎ Refused m (handle_inbound c chars t frame m)
  unfolding handle_inbound
  handle_inbound-outcome t frame m pos =
      commit_forwards t frame m (admit c chars frame t.at_ttl t.at_rate m) pos
        (admit-Verdicts frame t.at_ttl t.at_rate m)
