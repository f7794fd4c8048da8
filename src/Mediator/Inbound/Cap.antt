-- ===== src/Mediator/Inbound/Cap.antt =====
-- The message cap: kept on one socket, and passed by two.
use swift_agent.Common.{
  ℕ, ◌+◌, ◌≤◌, ◌<◌, String, ◌≡◌, sym, ap, subst, ◌∙◌, List, [], ◌∷◌, Option, some, arith, length,
  length-append, ◌⊎◌, inl, inr,
}
use swift_agent.Db.Spend.{Ledger, Reservation, ReserveResult, accepted, reserve}
use swift_agent.Mediator.Defs.{Config, Mediator}
use swift_agent.Mediator.Inbound.{
  Reading, admit, commit, handle_inbound, handle_all, settle_admission,
}
use swift_agent.Mediator.Inbound.Chain.{
  Forwarded, Refused, Verdicts, admit-Verdicts, alert_keeps, handle_inbound-outcome,
}

module _ (c : Config) (chars : String → ℕ) (pos : 0 < c.reservation_micro_usd) where
  -- The count of messages is within the cap, and is the number of frames that were forwarded.
  pub record Counted (m : Mediator) : Type 0 where
    pub within : m.guest.messages_sent ≤ c.messages_per_session
    pub exact : m.guest.messages_sent ≡ length m.forwarded
    pub paid : length m.ledger.reservations ≡ length m.forwarded

  outcome-Counted :
      (t : Reading) (frame : Option String) (m n : Mediator)
      → Counted m
      → Forwarded c chars t frame m n ⊎ Refused m n
      → Counted n
  outcome-Counted t frame m n v (inl f) = record {
    within = omega (arith, f.sent, f.limits.under_messages);
    exact =
        omega (arith, v.exact, f.sent, ap length f.out, length-append m.forwarded (f.content ∷ []));
    paid = omega (
      arith,
      v.paid,
      ap length f.reserved,
      ap length f.out,
      length-append m.forwarded (f.content ∷ []),
      length-append m.ledger.reservations (f.row ∷ []),
    );
  }
  outcome-Counted t frame m n v (inr r) = record {
    within = omega (arith, v.within, r.untouched.sent);
    exact = r.untouched.sent ∙ v.exact ∙ ap length (sym r.untouched.forwarded);
    paid =
        ap (λ (l : Ledger). length l.reservations) r.untouched.ledger
        ∙ v.paid
        ∙ ap length (sym r.untouched.forwarded);
  }

  -- On one socket, where each frame is handled to its end before the next, no sequence of frames
  -- gets past the message cap: the count stays within it and is the number of frames forwarded,
  -- each of which has a reservation of its own in the ledger.
  pub handle_all-Counted :
      (fs : List (Reading × Option String)) (m : Mediator)
      → Counted m
      → Counted (handle_all c chars fs m)
  unfolding handle_all
  handle_all-Counted [] m v = v
  handle_all-Counted ((t, frame) ∷ fs) m v =
      handle_all-Counted fs (handle_inbound c chars t frame m)
        (outcome-Counted t frame m _ v (handle_inbound-outcome c chars t frame m pos))

-- The ledger accepts the reservation of a frame.
pub record Accepts (c : Config) (t : Reading) (m : Mediator) : Type 0 where
  pub row : Reservation
  pub total : ℕ
  pub ledger : Ledger
  pub answer :
      reserve t.day c.reservation_micro_usd c.daily_ceiling_micro_usd m.guest.session_id
        t.reservation_id t.at_reserve m.ledger
      ≡ (accepted row total, ledger)

module _ (c : Config) (chars : String → ℕ) where
  accepted_sent :
      (t : Reading) (content : String) (m : Mediator) (a : ReserveResult × Ledger)
      (row : Reservation) (total : ℕ) (l : Ledger)
      → a ≡ (accepted row total, l)
      → (settle_admission c chars t.day content a.0 (record m { ledger = a.1 })).guest.messages_sent
        ≡ m.guest.messages_sent + 1
  unfolding settle_admission
  accepted_sent t content m a row total l e =
      subst
        (λ (a : ReserveResult × Ledger).
          (settle_admission c chars t.day content a.0
            (record m { ledger = a.1 })).guest.messages_sent
          ≡ m.guest.messages_sent + 1)
        (sym e)
        (ap (λ k. k + 1) ((alert_keeps c chars t.day total (record m { ledger = l })).0.sent))

  commit_sent :
      (t : Reading) (content : String) (m : Mediator)
      → Accepts c t m
      → (commit c chars t (some content) m).guest.messages_sent ≡ m.guest.messages_sent + 1
  unfolding commit
  commit_sent t content m x = accepted_sent t content m _ x.row x.total x.ledger x.answer

  admitted_sent :
      (frame : Option String) (at_ttl at_rate : ℕ) (content : String) (m n : Mediator)
      → admit c chars frame at_ttl at_rate m ≡ (some content, n)
      → n.guest.messages_sent ≡ m.guest.messages_sent
  admitted_sent frame at_ttl at_rate content m n e =
      (subst (Verdicts c chars frame at_ttl at_rate m) e
        (admit-Verdicts c chars frame at_ttl at_rate m)).untouched.sent

  -- Two sockets of one guest each keep their own order only. If the guest has one message left and
  -- the checks of a frame on each socket pass before either has heard from the ledger, then, once
  -- the ledger has accepted both, the guest has sent more messages than its cap.
  pub two_sockets-pass_cap :
      (t t' : Reading) (frame frame' : Option String) (content content' : String)
      (m m' m'' : Mediator)
      → m.guest.messages_sent + 1 ≡ c.messages_per_session
      → admit c chars frame t.at_ttl t.at_rate m ≡ (some content, m')
      → admit c chars frame' t'.at_ttl t'.at_rate m' ≡ (some content', m'')
      → Accepts c t m''
      → Accepts c t' (commit c chars t (some content) m'')
      → c.messages_per_session
        < (commit c chars t'
            (some content')
            (commit c chars t (some content) m'')).guest.messages_sent
  two_sockets-pass_cap t t' frame frame' content content' m m' m'' one_left e e' x x' = omega (
    arith,
    admitted_sent frame t.at_ttl t.at_rate content m m' e,
    admitted_sent frame' t'.at_ttl t'.at_rate content' m' m'' e',
    commit_sent t content m'' x,
    commit_sent t' content' (commit c chars t (some content) m'') x',
  )
