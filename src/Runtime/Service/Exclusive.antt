-- ===== src/Runtime/Service/Exclusive.antt =====
-- run-execution-service.ts: the lock, the registry and the runs in flight agree.
use swift_agent.Common.{
  ℕ, String, Bool, true, false, ◌≡◌, refl, sym, ap, ◌∙◌, Option, none, some, List, [], ◌∷◌, str_eq,
  eq_iff, arith, if◌then◌else◌, get_key, set_key, delete_key, get_key-set, get_key-delete,
  remove_string,
}
use swift_agent.Runtime.SessionLock.{
  LockEntry, SessionLock, acquire, acquire_over, release, release_held,
}
use swift_agent.Runtime.Service.{grant, start, free, request_cancel, request_at}
use swift_agent.Runtime.Service.Steps.{
  Live, idle, Event, starts, fails, drains, cancels, began, ended, apply, Allowed, apply_all,
  AllAllowed,
}

abbrev pub is_some : Option ℕ → Bool
is_some none = false
is_some (some n) = true

abbrev pub flies : Option String → Bool
flies none = false
flies (some sid) = true

abbrev pub run_of_entry : Option LockEntry → Option String
run_of_entry none = none
run_of_entry (some e) = some e.run_id

-- A lock is held by a run in flight on its session, a run in flight holds its session's lock, and
-- the runs in flight are the registered ones.
pub record Agrees (l : Live) : Type 0 where
  pub held :
      (sid r : String)
      → run_of_entry (get_key sid l.service.lock.locks) ≡ some r
      → get_key r l.flights ≡ some sid
  pub flown :
      (r sid : String)
      → get_key r l.flights ≡ some sid
      → run_of_entry (get_key sid l.service.lock.locks) ≡ some r
  pub listed :
      (r : String) → is_some (get_key r l.service.active_runs) ≡ flies (get_key r l.flights)

-- Two maps that are inverse of each other stay so when a new pair joins both, and when a pair
-- leaves both.
added-back :
    (f g : String → Option String) (x y a b : String)
    → (f a ≡ some b → g b ≡ some a)
    → g y ≡ none
    → (if str_eq x a then some y else f a) ≡ some b
    → (if str_eq y b then some x else g b) ≡ some a
added-back f g x y a b back none_ h = ground (arith, back, eq_iff x a, eq_iff y b, none_, h)

removed-back :
    (f g : String → Option String) (x y a b : String)
    → (f a ≡ some b → g b ≡ some a)
    → g y ≡ some x
    → (if str_eq x a then none else f a) ≡ some b
    → (if str_eq y b then none else g b) ≡ some a
removed-back f g x y a b back pair h = ground (arith, back, eq_iff x a, eq_iff y b, pair, h)

module _ {A : Type 0} {B : Type 0} (view : Option A → B) (k key : String) where
  seen_by-if :
      (b : Bool) (o p : Option A) → view (if b then o else p) ≡ (if b then view o else view p)
  seen_by-if true o p = refl
  seen_by-if false o p = refl

  seen_by-set :
      (a : A) (m : List (String × A))
      → view (get_key k (set_key key a m))
        ≡ (if str_eq key k then view (some a) else view (get_key k m))
  seen_by-set a m =
      ap view (get_key-set k key a m) ∙ seen_by-if (str_eq key k) (some a) (get_key k m)

  seen_by-delete :
      (m : List (String × A))
      → view (get_key k (delete_key key m))
        ≡ (if str_eq key k then view none else view (get_key k m))
  seen_by-delete m = ap view (get_key-delete k key m) ∙ seen_by-if (str_eq key k) none (get_key k m)

granted-Agrees :
    (sid run : String) (l : Live)
    → Agrees l
    → get_key run l.flights ≡ none
    → get_key sid l.service.lock.locks ≡ none
    → Agrees (began sid run (grant run (acquire_over sid run none l.service.lock) l.service) l)
granted-Agrees sid run l v new unlocked =
    let e : LockEntry = record { run_id = run; abort = l.service.lock.made } in
    let locked : String → Option String = λ k. run_of_entry (get_key k l.service.lock.locks) in
    let flown : String → Option String = λ r. get_key r l.flights in
    record {
      held = λ k r h.
          get_key-set r run sid l.flights
          ∙ added-back locked flown sid run k r (v.held k r) new
              (sym (seen_by-set run_of_entry k sid e l.service.lock.locks) ∙ h);
      flown = λ r k h.
          seen_by-set run_of_entry k sid e l.service.lock.locks
          ∙ added-back flown locked run sid r k (v.flown r k) (ap run_of_entry unlocked)
              (sym (get_key-set r run sid l.flights) ∙ h);
      listed = λ r.
          seen_by-set is_some r run l.service.made l.service.active_runs
          ∙ ap (λ o. if str_eq run r then true else o) (v.listed r)
          ∙ sym (seen_by-set flies r run sid l.flights);
    }

release_held-deletes :
    (sid run : String) (o : Option LockEntry) (l : SessionLock)
    → run_of_entry o ≡ some run
    → (release_held sid run o l).locks ≡ delete_key sid l.locks
release_held-deletes sid run none l h = ground (arith, h)
release_held-deletes sid run (some e) l h = ground (arith, h, eq_iff e.run_id run)

release-deletes :
    (sid run : String) (l : SessionLock)
    → run_of_entry (get_key sid l.locks) ≡ some run
    → (release sid run l).locks ≡ delete_key sid l.locks
unfolding release
release-deletes sid run l h = release_held-deletes sid run (get_key sid l.locks) l h

freed-Agrees :
    (sid run : String) (l : Live) (cancelled : List String)
    → Agrees l
    → get_key run l.flights ≡ some sid
    → Agrees (ended sid run (record (l.service) { cancelled_runs = cancelled }) l)
unfolding free
freed-Agrees sid run l cancelled v up =
    let locked : String → Option String = λ k. run_of_entry (get_key k l.service.lock.locks) in
    let flown : String → Option String = λ r. get_key r l.flights in
    let at : (k : String)
        → run_of_entry (get_key k (release sid run l.service.lock).locks)
          ≡ (if str_eq sid k then none else locked k) =
      λ k.
        ap (λ m. run_of_entry (get_key k m))
          (release-deletes sid run l.service.lock (v.flown run sid up))
        ∙ seen_by-delete run_of_entry k sid l.service.lock.locks in
    record {
      held = λ k r h.
          get_key-delete r run l.flights
          ∙ removed-back locked flown sid run k r (v.held k r) up (sym (at k) ∙ h);
      flown = λ r k h.
          at k
          ∙ removed-back flown locked run sid r k (v.flown r k) (v.flown run sid up)
              (sym (get_key-delete r run l.flights) ∙ h);
      listed = λ r.
          seen_by-delete is_some r run l.service.active_runs
          ∙ ap (λ o. if str_eq run r then false else o) (v.listed r)
          ∙ sym (seen_by-delete flies r run l.flights);
    }

-- `requestCancel` leaves the lock and the registry alone.
requested-Agrees :
    (run : String) (o : Option ℕ) (l : Live)
    → Agrees l
    → Agrees (record l { service = request_at run o l.service })
requested-Agrees run none l v = v
requested-Agrees run (some abort) l v = record { held = v.held; flown = v.flown; listed = v.listed }

-- `start` on a session whose lock is held changes nothing.
began-Agrees :
    (sid run : String) (o : Option LockEntry) (l : Live)
    → get_key sid l.service.lock.locks ≡ o
    → Agrees l
    → get_key run l.flights ≡ none
    → Agrees (began sid run (grant run (acquire_over sid run o l.service.lock) l.service) l)
began-Agrees sid run none l here v new = granted-Agrees sid run l v new here
began-Agrees sid run (some e) l here v new = record {
  held = v.held;
  flown = v.flown;
  listed = v.listed;
}

apply-Agrees : (e : Event) (l : Live) → Agrees l → Allowed e l → Agrees (apply e l)
unfolding apply start acquire request_cancel
apply-Agrees (starts sid run) l v new =
    began-Agrees sid run (get_key sid l.service.lock.locks) l refl v new
apply-Agrees (fails sid run) l v up = freed-Agrees sid run l l.service.cancelled_runs v up
apply-Agrees (drains sid run) l v up =
    freed-Agrees sid run l (remove_string run l.service.cancelled_runs) v up
apply-Agrees (cancels run) l v u = requested-Agrees run (get_key run l.service.active_runs) l v

idle-Agrees : Agrees idle
unfolding get_key
idle-Agrees = record {
  held = λ k r h. ground (arith, h);
  flown = λ r k h. ground (arith, h);
  listed = λ r. refl;
}

all-Agrees : (es : List Event) (l : Live) → Agrees l → AllAllowed es l → Agrees (apply_all es l)
unfolding apply_all AllAllowed
all-Agrees [] l v u = v
all-Agrees (e ∷ es) l v (ok, oks) = all-Agrees es (apply e l) (apply-Agrees e l v ok) oks

one_run :
    (l : Live) (sid r q : String)
    → Agrees l
    → get_key r l.flights ≡ some sid
    → get_key q l.flights ≡ some sid
    → r ≡ q
one_run l sid r q v h k = ground (arith, v.flown r sid h, v.flown q sid k)

-- From a service without runs, along any operations in which a run begins under a new id and what
-- ends is in flight: the lock of a session names a run exactly when that run is in flight on the
-- session, the registry lists exactly the runs in flight, and two runs in flight on one session are
-- the same run.
pub apply_all-Agrees :
    (es : List Event)
    → AllAllowed es idle
    → Agrees (apply_all es idle)
      × ((sid r q : String)
          → get_key r (apply_all es idle).flights ≡ some sid
          → get_key q (apply_all es idle).flights ≡ some sid
          → r ≡ q)
apply_all-Agrees es ok = (
  all-Agrees es idle idle-Agrees ok,
  λ sid r q h k. one_run (apply_all es idle) sid r q (all-Agrees es idle idle-Agrees ok) h k,
)
