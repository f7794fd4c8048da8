-- ===== src/Mediator/Observe/Places.antt =====
-- mediator.ts: in which places the reservations are.
use swift_agent.Common.{
  ℕ, ◌+◌, String, false, ◌&&◌, not, ◌≡◌, refl, ap, List, [], ◌∷◌, Option, none, some, arith, eq_iff,
  has_string, Bool-cases, inl, inr, ltb, Bool, if◌then◌else◌, str_eq, ◌++◌,
}
use swift_agent.Shared.{
  ChatEvent, message_started, token, tool_call_started, tool_call_completed, message_completed,
  run_failed,
}
use swift_agent.Mediator.Defs.{Config, Mediator}
use swift_agent.Mediator.Observe.{
  set_run, get_run, delete_run, attach, see_run, breach, count_tokens, start_settling, observe,
}
use swift_agent.Mediator.Observe.Accounting.{RunsSeen, Accounted, observe-sums}

-- How often a reservation stands in the queue, and in a list of entries for runs.
abbrev one_if : Bool → ℕ
one_if b = if b then 1 else 0

abbrev pub copies : String → List String → ℕ
copies id [] = 0
copies id (x ∷ xs) = one_if (str_eq x id) + copies id xs

abbrev pub copies_in : String → List (String × String) → ℕ
copies_in id [] = 0
copies_in id ((k, v) ∷ rs) = one_if (str_eq v id) + copies_in id rs

-- In how many places a reservation is: queued, attached to a run, or being settled.
abbrev pub places_of : String → Mediator → ℕ
places_of id m =
    copies id m.guest.pending_reservation_ids
    + copies_in id m.guest.reservation_by_run
    + copies_in id m.settling

-- Every reservation is in as many places as before.
abbrev pub KeepsPlaces : Mediator → Mediator → Type 0
KeepsPlaces m n = (id : String) → places_of id n ≡ places_of id m

copies_in-append :
    (id : String) (rs ss : List (String × String))
    → copies_in id (rs ++ ss) ≡ copies_in id rs + copies_in id ss
copies_in-append id [] ss = omega arith
copies_in-append id ((k, v) ∷ rs) ss = omega (arith, copies_in-append id rs ss)

copies_in-set_run :
    (id k v : String) (seen : List String) (rs : List (String × String))
    → has_string k seen ≡ false
    → RunsSeen seen rs
    → copies_in id (set_run k v rs) ≡ copies_in id rs + one_if (str_eq v id)
unfolding set_run
copies_in-set_run id k v seen [] h r = omega arith
copies_in-set_run id k v seen ((j, u) ∷ rs) h (p, ps) = ground (
  arith,
  copies_in-set_run id k v seen rs h ps,
  eq_iff j k,
  ap (λ x. has_string x seen) {x = j} {y = k},
)

copies_in-delete_run :
    (id k v : String) (rs : List (String × String))
    → get_run k rs ≡ some v
    → copies_in id rs ≡ copies_in id (delete_run k rs) + one_if (str_eq v id)
unfolding get_run delete_run
copies_in-delete_run id k v [] e = cc
copies_in-delete_run id k v ((j, u) ∷ rs) e =
    ground (arith, copies_in-delete_run id k v rs, ap (λ x. one_if (str_eq x id)) {x = u} {y = v})

-- The reservation that a new run shifts from the queue is the one that its entry has.
attach-KeepsPlaces :
    (run_id : String) (ids : List String) (m n : Mediator)
    → m.guest.pending_reservation_ids ≡ ids
    → has_string run_id m.guest.seen_runs ≡ false
    → Accounted m
    → n.guest.pending_reservation_ids ≡ m.guest.pending_reservation_ids
    → n.guest.reservation_by_run ≡ m.guest.reservation_by_run
    → n.settling ≡ m.settling
    → KeepsPlaces m (attach run_id ids n)
unfolding attach
attach-KeepsPlaces run_id [] m n e new v p r s id =
    omega (arith, ap (copies id) p, ap (copies_in id) r, ap (copies_in id) s)
attach-KeepsPlaces run_id (x ∷ ids) m n e new v p r s id = omega (
  arith,
  ap (copies id) e,
  ap (λ rs. copies_in id (set_run run_id x rs)) r,
  ap (copies_in id) s,
  copies_in-set_run id run_id x m.guest.seen_runs m.guest.reservation_by_run new v.seen,
)

see_run-KeepsPlaces :
    (run_id : String) (m : Mediator) → Accounted m → KeepsPlaces m (see_run run_id m)
unfolding see_run
see_run-KeepsPlaces run_id m v = elim (Bool-cases (has_string run_id m.guest.seen_runs)) [
  | inl old ↦ rw old (λ id. refl)
  | inr new ↦
      rw new
        (attach-KeepsPlaces run_id m.guest.pending_reservation_ids m _ refl new v refl refl refl)
]

breach-KeepsPlaces :
    (c : Config) (run_id : String) (m : Mediator) → KeepsPlaces m (breach c run_id m)
unfolding breach
breach-KeepsPlaces c run_id m =
    elim (Bool-cases
      (ltb c.tokens_per_session m.guest.est_output_tokens && not m.guest.token_cap_breached)) [
        | inl over ↦ rw over (λ id. refl)
        | inr under ↦ rw under (λ id. refl)
      ]

start_settling-KeepsPlaces :
    (run_id : String) (o : Option String) (m : Mediator)
    → get_run run_id m.guest.reservation_by_run ≡ o
    → KeepsPlaces m (start_settling run_id o m)
unfolding start_settling
start_settling-KeepsPlaces run_id none m e id = refl
start_settling-KeepsPlaces run_id (some x) m e id = omega (
  arith,
  copies_in-delete_run id run_id x m.guest.reservation_by_run e,
  copies_in-append id m.settling ((run_id, x) ∷ []),
)

observe-KeepsPlaces :
    (c : Config) (chars : String → ℕ) (e : ChatEvent) (m : Mediator)
    → Accounted m
    → KeepsPlaces m (observe c chars e m)
unfolding observe count_tokens
observe-KeepsPlaces c chars (message_started message_id run_id session_id) m v =
    see_run-KeepsPlaces run_id m v
observe-KeepsPlaces c chars (token run_id session_id message_id text) m v =
    breach-KeepsPlaces c run_id _
observe-KeepsPlaces c chars (tool_call_started call_id run_id session_id tool_name) m v = λ id. refl
observe-KeepsPlaces c chars (tool_call_completed call_id run_id session_id tool_name st) m v =
    λ id. refl
observe-KeepsPlaces c chars (message_completed message_id run_id session_id) m v =
    start_settling-KeepsPlaces run_id _ m refl
observe-KeepsPlaces c chars (run_failed run_id session_id code message) m v =
    start_settling-KeepsPlaces run_id _ m refl

-- Where every run of the map was seen and the queue, the map of runs and the list of settlements
-- have as many entries as messages were sent: whatever event is relayed, replayed or not, this
-- stays so, and every reservation is in as many of the three places as before. So one that is in
-- exactly one place is in exactly one afterwards: none is lost, doubled or replaced by another.
pub observe-Accounted :
    (c : Config) (chars : String → ℕ) (e : ChatEvent) (m : Mediator)
    → Accounted m
    → Accounted (observe c chars e m) × KeepsPlaces m (observe c chars e m)
observe-Accounted c chars e m v = (observe-sums c chars e m v, observe-KeepsPlaces c chars e m v)
