-- ===== src/Runtime/Service/Steps.antt =====
-- run-execution-service.ts: the operations of all sessions and runs, in any order in which a run
-- begins once, under an id of its own, and ends once.
use swift_agent.Common.{
  String, ◌≡◌, List, [], ◌∷◌, Option, none, some, get_key, set_key, delete_key, remove_string,
}
use swift_agent.Shared.{Fault}
use swift_agent.Runtime.SessionLock.{no_locks}
use swift_agent.Runtime.Service.{Service, start, free, request_cancel}

-- The service, and the session of each run that has begun and not ended.
pub record Live : Type 0 where
  pub service : Service
  pub flights : List (String × String)

abbrev pub idle : Live
idle = record {
  service = record {
    lock = no_locks;
    active_runs = [];
    cancelled_runs = [];
    made = 0;
    aborted = [];
  };
  flights = [];
}

-- A `start`, a setup that throws, a drive that is drained, and a `requestCancel`.
pub data Event : Type 0 where
  starts fails drains : (session_id run_id : String) → Event
  cancels : (run_id : String) → Event

abbrev pub began : String → String → Option Fault × Service → Live → Live
began session_id run_id (some f, v) l = record l { service = v }
began session_id run_id (none, v) l = record {
  service = v;
  flights = set_key run_id session_id l.flights;
}

abbrev pub ended : String → String → Service → Live → Live
ended session_id run_id v l = record {
  service = free session_id run_id v;
  flights = delete_key run_id l.flights;
}

unfoldable pub apply : Event → Live → Live
apply (starts session_id run_id) l = began session_id run_id (start session_id run_id l.service) l
apply (fails session_id run_id) l = ended session_id run_id l.service l
apply (drains session_id run_id) l =
    ended session_id run_id
      (record (l.service) { cancelled_runs = remove_string run_id l.service.cancelled_runs }) l
apply (cancels run_id) l = record l { service = request_cancel run_id l.service }

-- A run id is new, and what ends is in flight.
abbrev pub Allowed : Event → Live → Type 0
Allowed (starts session_id run_id) l = get_key run_id l.flights ≡ none
Allowed (fails session_id run_id) l = get_key run_id l.flights ≡ some session_id
Allowed (drains session_id run_id) l = get_key run_id l.flights ≡ some session_id
Allowed (cancels run_id) l = Unit

unfoldable pub apply_all : List Event → Live → Live
unfolding apply
apply_all [] l = l
apply_all (e ∷ es) l = apply_all es (apply e l)

unfoldable pub AllAllowed : List Event → Live → Type 0
unfolding apply
AllAllowed [] l = Unit
AllAllowed (e ∷ es) l = Allowed e l × AllAllowed es (apply e l)
