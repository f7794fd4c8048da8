-- ===== src/Mediator/Observe/Accounting.antt =====
-- mediator.ts: how many reservations the queue, the map of runs and the settlements have.
use swift_agent.Common.{
  ℕ, ◌+◌, String, true, false, ◌&&◌, not, ◌≡◌, refl, ap, ◌∙◌, List, [], ◌∷◌, Option, none, some,
  arith, eq_iff, length, length-append, has_string, add_string, has_string-add_self,
  has_string-add_of, All, All-mono, Bool-cases, inl, inr, ltb,
}
use swift_agent.Shared.{
  ChatEvent, message_started, token, tool_call_started, tool_call_completed, message_completed,
  run_failed,
}
use swift_agent.Mediator.Defs.{Config, Mediator}
use swift_agent.Mediator.Observe.{
  set_run, get_run, delete_run, attach, see_run, breach, count_tokens, start_settling, observe,
}

-- Every run of the map was seen.
abbrev pub RunsSeen : List String → List (String × String) → Type 0
RunsSeen seen rs = All (λ r. has_string r.0 seen ≡ true) rs

-- The reservations of the messages sent are queued, attached to a run, or being settled.
pub record Accounted (m : Mediator) : Type 0 where
  pub seen : RunsSeen m.guest.seen_runs m.guest.reservation_by_run
  pub places :
      length m.guest.pending_reservation_ids + length m.guest.reservation_by_run + length m.settling
      ≡ m.guest.messages_sent

-- A run that was not seen gets an entry of its own.
set_run-new :
    (k v : String) (seen : List String) (rs : List (String × String))
    → has_string k seen ≡ false
    → RunsSeen seen rs
    → length (set_run k v rs) ≡ length rs + 1
unfolding set_run
set_run-new k v seen [] h r = omega arith
set_run-new k v seen ((j, u) ∷ rs) h (p, ps) =
    ground
      (arith, set_run-new k v seen rs h ps, eq_iff j k, ap (λ x. has_string x seen) {x = j} {y = k})

set_run-RunsSeen :
    (k v : String) (seen : List String) (rs : List (String × String))
    → has_string k seen ≡ true
    → RunsSeen seen rs
    → RunsSeen seen (set_run k v rs)
unfolding set_run
set_run-RunsSeen k v seen [] h r = (h, tt)
set_run-RunsSeen k v seen ((j, u) ∷ rs) h (p, ps) =
    ground (arith, set_run-RunsSeen k v seen rs h ps)

delete_run-length :
    (k v : String) (rs : List (String × String))
    → get_run k rs ≡ some v
    → length rs ≡ length (delete_run k rs) + 1
unfolding get_run delete_run
delete_run-length k v [] e = cc
delete_run-length k v ((j, u) ∷ rs) e = ground (arith, delete_run-length k v rs)

delete_run-RunsSeen :
    (k : String) (seen : List String) (rs : List (String × String))
    → RunsSeen seen rs
    → RunsSeen seen (delete_run k rs)
unfolding delete_run
delete_run-RunsSeen k seen [] r = tt
delete_run-RunsSeen k seen ((j, u) ∷ rs) (p, ps) = ground (arith, delete_run-RunsSeen k seen rs ps)

attach-Accounted :
    (run_id : String) (ids : List String) (m : Mediator) (seen : List String)
    → m.guest.pending_reservation_ids ≡ ids
    → has_string run_id seen ≡ false
    → RunsSeen seen m.guest.reservation_by_run
    → Accounted m
    → m.guest.seen_runs ≡ add_string run_id seen
    → Accounted (attach run_id ids m)
unfolding attach
attach-Accounted run_id [] m seen e new r v s = v
attach-Accounted run_id (id ∷ ids) m seen e new r v s = record {
  seen =
      set_run-RunsSeen run_id id m.guest.seen_runs m.guest.reservation_by_run
        (ap (has_string run_id) s ∙ has_string-add_self run_id seen) v.seen;
  places =
      omega
        (arith, ap length e, v.places, set_run-new run_id id seen m.guest.reservation_by_run new r);
}

see_run-Accounted : (run_id : String) (m : Mediator) → Accounted m → Accounted (see_run run_id m)
unfolding see_run
see_run-Accounted run_id m v = elim (Bool-cases (has_string run_id m.guest.seen_runs)) [
  | inl old ↦ rw old v
  | inr new ↦ rw new (
      attach-Accounted run_id m.guest.pending_reservation_ids _ m.guest.seen_runs refl new v.seen
        (record {
          seen =
              All-mono (λ r. has_string-add_of r.0 run_id m.guest.seen_runs)
                m.guest.reservation_by_run v.seen;
          places = v.places;
        })
        refl)
]

breach-Accounted :
    (c : Config) (run_id : String) (m : Mediator) → Accounted m → Accounted (breach c run_id m)
unfolding breach
breach-Accounted c run_id m v =
    elim (Bool-cases
      (ltb c.tokens_per_session m.guest.est_output_tokens && not m.guest.token_cap_breached)) [
        | inl over ↦ rw over (record { seen = v.seen; places = v.places })
        | inr under ↦ rw under v
      ]

start_settling-Accounted :
    (run_id : String) (o : Option String) (m : Mediator)
    → get_run run_id m.guest.reservation_by_run ≡ o
    → Accounted m
    → Accounted (start_settling run_id o m)
unfolding start_settling
start_settling-Accounted run_id none m e v = v
start_settling-Accounted run_id (some id) m e v = record {
  seen = delete_run-RunsSeen run_id m.guest.seen_runs m.guest.reservation_by_run v.seen;
  places = omega (
    arith,
    v.places,
    delete_run-length run_id id m.guest.reservation_by_run e,
    length-append m.settling ((run_id, id) ∷ []),
  );
}

-- Whatever event is relayed, replayed or not, the places have as many reservations as messages were
-- sent.
pub observe-sums :
    (c : Config) (chars : String → ℕ) (e : ChatEvent) (m : Mediator)
    → Accounted m
    → Accounted (observe c chars e m)
unfolding observe count_tokens
observe-sums c chars (message_started message_id run_id session_id) m v =
    see_run-Accounted run_id m v
observe-sums c chars (token run_id session_id message_id text) m v =
    breach-Accounted c run_id _ (record { seen = v.seen; places = v.places })
observe-sums c chars (tool_call_started call_id run_id session_id tool_name) m v = v
observe-sums c chars (tool_call_completed call_id run_id session_id tool_name st) m v = v
observe-sums c chars (message_completed message_id run_id session_id) m v =
    start_settling-Accounted run_id _ m refl v
observe-sums c chars (run_failed run_id session_id code message) m v =
    start_settling-Accounted run_id _ m refl v
