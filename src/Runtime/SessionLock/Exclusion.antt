-- ===== src/Runtime/SessionLock/Exclusion.antt =====
-- session-lock.ts: a session that is locked stays with its run until that run releases it.
use swift_agent.Common.{
  String, false, ◌≡◌, refl, sym, ap, subst, ◌∙◌, Option, none, some, List, [], ◌∷◌, ◌&&◌, str_eq,
  eq_iff, inl, inr, Bool-cases, if_cases, get_key, delete_key, get_key-set_same, get_key-set_other,
  get_key-delete_other, false≢true, All,
}
use swift_agent.Runtime.SessionLock.{
  LockEntry, SessionLock, conflict, acquire, acquire_over, release, release_held, is_active,
  is_entry,
}

-- The calls of all sessions and runs.
pub data LockCall : Type 0 where
  acquires releases : (session_id run_id : String) → LockCall

unfoldable pub lock_call : LockCall → SessionLock → SessionLock
lock_call (acquires sid r) l = (acquire sid r l).1
lock_call (releases sid r) l = release sid r l

unfoldable pub lock_calls : List LockCall → SessionLock → SessionLock
unfolding lock_call
lock_calls [] l = l
lock_calls (c ∷ cs) l = lock_calls cs (lock_call c l)

-- The call is no release of this session by this run.
abbrev pub Leaves : String → String → LockCall → Type 0
Leaves sid r (acquires other q) = Unit
Leaves sid r (releases other q) = (str_eq other sid && str_eq r q) ≡ false

acquire_over-keeps :
    (sid other q : String) (e : LockEntry) (o : Option LockEntry) (l : SessionLock)
    → str_eq other sid ≡ false
    → get_key sid l.locks ≡ some e
    → get_key sid (acquire_over other q o l).1.locks ≡ some e
acquire_over-keeps sid other q e (some x) l d h = h
acquire_over-keeps sid other q e none l d h =
    get_key-set_other sid other record { run_id = q; abort = l.made } l.locks d ∙ h

acquire-keeps :
    (sid other q : String) (e : LockEntry) (l : SessionLock)
    → get_key sid l.locks ≡ some e
    → get_key sid (acquire other q l).1.locks ≡ some e
unfolding acquire
acquire-keeps sid other q e l h = elim (Bool-cases (str_eq other sid)) [
  | inl same ↦
      subst (λ k. get_key sid (acquire_over k q (get_key k l.locks) l).1.locks ≡ some e)
        (sym ((eq_iff other sid).0 same)) (rw h h)
  | inr differ ↦ acquire_over-keeps sid other q e (get_key other l.locks) l differ h
]

release_held-other :
    (sid other q : String) (e : LockEntry) (o : Option LockEntry) (l : SessionLock)
    → str_eq other sid ≡ false
    → get_key sid l.locks ≡ some e
    → get_key sid (release_held other q o l).locks ≡ some e
release_held-other sid other q e none l d h = h
release_held-other sid other q e (some x) l d h =
    if_cases (λ (k : SessionLock). get_key sid k.locks ≡ some e) (str_eq x.run_id q)
      {x = record l { locks = delete_key other l.locks }} {y = l}
      (λ own. get_key-delete_other sid other l.locks d ∙ h) (λ foreign. h)

release_held-foreign :
    (sid q : String) (e : LockEntry) (l : SessionLock)
    → str_eq e.run_id q ≡ false
    → get_key sid l.locks ≡ some e
    → get_key sid (release_held sid q (some e) l).locks ≡ some e
release_held-foreign sid q e l n h = rw n h

release-keeps :
    (sid other q : String) (e : LockEntry) (l : SessionLock)
    → (str_eq other sid && str_eq e.run_id q) ≡ false
    → get_key sid l.locks ≡ some e
    → get_key sid (release other q l).locks ≡ some e
unfolding release
release-keeps sid other q e l leaves h = elim (Bool-cases (str_eq other sid)) [
  | inl same ↦
      subst (λ k. get_key sid (release_held k q (get_key k l.locks) l).locks ≡ some e)
        (sym ((eq_iff other sid).0 same))
        (subst (λ o. get_key sid (release_held sid q o l).locks ≡ some e) (sym h)
          (release_held-foreign sid q e l
            (subst (λ b. (b && str_eq e.run_id q) ≡ false) same leaves) h))
  | inr differ ↦ release_held-other sid other q e (get_key other l.locks) l differ h
]

lock_calls-keeps :
    (sid : String) (e : LockEntry) (cs : List LockCall) (l : SessionLock)
    → All (Leaves sid e.run_id) cs
    → get_key sid l.locks ≡ some e
    → get_key sid (lock_calls cs l).locks ≡ some e
unfolding lock_calls lock_call
lock_calls-keeps sid e [] l leaves h = h
lock_calls-keeps sid e (acquires other q ∷ cs) l (leaves, rest) h =
    lock_calls-keeps sid e cs _ rest (acquire-keeps sid other q e l h)
lock_calls-keeps sid e (releases other q ∷ cs) l (leaves, rest) h =
    lock_calls-keeps sid e cs _ rest (release-keeps sid other q e l leaves h)

not_entry : (o : Option LockEntry) → is_entry o ≡ false → o ≡ none
not_entry none h = refl
not_entry (some e) h = absurd (false≢true (sym h))

acquire-takes :
    (sid r : String) (l : SessionLock)
    → is_active sid l ≡ false
    → get_key sid (acquire sid r l).1.locks ≡ some record { run_id = r; abort = l.made }
unfolding acquire is_active
acquire-takes sid r l free =
    subst
      (λ o.
        get_key sid (acquire_over sid r o l).1.locks ≡ some record { run_id = r; abort = l.made })
      (sym (not_entry (get_key sid l.locks) free))
      (get_key-set_same sid record { run_id = r; abort = l.made } l.locks)

taken :
    (sid q : String) (e : LockEntry) (k : SessionLock)
    → get_key sid k.locks ≡ some e
    → acquire sid q k ≡ (inl (conflict sid e.run_id), k)
unfolding acquire
taken sid q e k h = ap (λ o. acquire_over sid q o k) h

-- Once a run has acquired a free session, and until that run releases it, whatever the other calls
-- of all runs and sessions are, every acquisition of the session is a conflict that names the run,
-- and changes nothing.
pub acquire-excludes :
    (sid r q : String) (cs : List LockCall) (l : SessionLock)
    → is_active sid l ≡ false
    → All (Leaves sid r) cs
    → let k = lock_calls cs (acquire sid r l).1 in acquire sid q k ≡ (inl (conflict sid r), k)
acquire-excludes sid r q cs l free leaves =
    taken sid q record { run_id = r; abort = l.made } _
      (lock_calls-keeps sid record { run_id = r; abort = l.made } cs (acquire sid r l).1 leaves
        (acquire-takes sid r l free))
