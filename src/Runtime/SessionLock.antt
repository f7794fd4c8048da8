-- ===== src/Runtime/SessionLock.antt =====
-- packages/runtime/src/session-lock.ts: one active run for each session. An abort controller is
-- the number it was made with.
pub mod Exclusion
use swift_agent.Common.{
  ℕ, ◌+◌, String, Bool, true, false, Option, none, some, List, [], str_eq, ◌⊎◌, inl, inr, ◌<>◌,
  if◌then◌else◌, get_key, set_key, delete_key,
}
use swift_agent.Shared.{Fault}

pub record LockEntry : Type 0 where
  pub run_id : String
  pub abort : ℕ

pub record SessionLock : Type 0 where
  pub locks : List (String × LockEntry)
  pub made : ℕ

abbrev pub no_locks : SessionLock
no_locks = record { locks = []; made = 0 }

abbrev pub conflict : String → String → Fault
conflict session_id run_id = record {
  code = some "CONFLICT";
  message = "Session " <> session_id <> " already has an active run: " <> run_id;
  scope = none;
}

abbrev pub acquire_over :
    String → String → Option LockEntry → SessionLock → (Fault ⊎ ℕ) × SessionLock
acquire_over session_id run_id (some existing) l = (inl (conflict session_id existing.run_id), l)
acquire_over session_id run_id none l = (
  inr l.made,
  record {
    locks = set_key session_id record { run_id = run_id; abort = l.made } l.locks;
    made = l.made + 1;
  },
)

-- `acquire`: it throws, or answers the controller.
unfoldable pub acquire : String → String → SessionLock → (Fault ⊎ ℕ) × SessionLock
acquire session_id run_id l = acquire_over session_id run_id (get_key session_id l.locks) l

abbrev pub release_held : String → String → Option LockEntry → SessionLock → SessionLock
release_held session_id run_id none l = l
release_held session_id run_id (some existing) l =
    if str_eq existing.run_id run_id then record l { locks = delete_key session_id l.locks } else l

-- `release`
unfoldable pub release : String → String → SessionLock → SessionLock
release session_id run_id l = release_held session_id run_id (get_key session_id l.locks) l

-- `isActive`
abbrev pub is_entry : Option LockEntry → Bool
is_entry none = false
is_entry (some e) = true

unfoldable pub is_active : String → SessionLock → Bool
is_active session_id l = is_entry (get_key session_id l.locks)
