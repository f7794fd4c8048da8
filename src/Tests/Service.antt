-- ===== src/Tests/Service.antt =====
-- Two sessions with their runs, a run of the service from its start, and one that cannot resume.
use swift_agent.Common.{
  ◌≡◌, refl, String, List, get_key, set_key, delete_key, [], ◌∷◌, none, some, inl, inr,
}
use swift_agent.Shared.{plain_error}
use swift_agent.Runtime.SessionLock.{no_locks, acquire}
use swift_agent.Runtime.Engine.{AgentRecord, run_of}
use swift_agent.Runtime.Service
use swift_agent.Runtime.Service.{Service, Drive, drive, start_locked}
use swift_agent.Runtime.Service.Steps.{Event, starts, drains, cancels, idle, apply_all, AllAllowed}
use swift_agent.Runtime.Service.Exclusive.{Agrees, apply_all-Agrees}
use swift_agent.Runtime.Service.Terminal.{Left, signal_of, start_locked-Left}
use swift_agent.Runtime.Service.Unfinished.{LeftRunning, start_locked-leaves_running}
use swift_agent.Runtime.Loop.Defs.{LoopState}
use swift_agent.Tests.Run.{demo, start}

abbrev two_sessions : List Event
two_sessions =
    starts "s1" "r1"
    ∷ starts "s2" "r2"
    ∷ starts "s1" "r3"
    ∷ cancels "r2"
    ∷ drains "s1" "r1"
    ∷ starts "s1" "r4"
    ∷ []

two_sessions-allowed : AllAllowed two_sessions idle
unfolding AllAllowed get_key Service.start acquire set_key delete_key
two_sessions-allowed = (refl, (refl, (refl, (tt, (refl, (refl, tt))))))

apply_all-Agrees_example :
    Agrees (apply_all two_sessions idle)
    × ((sid r q : String)
        → get_key r (apply_all two_sessions idle).flights ≡ some sid
        → get_key q (apply_all two_sessions idle).flights ≡ some sid
        → r ≡ q)
apply_all-Agrees_example = apply_all-Agrees two_sessions two_sessions-allowed

abbrev helper : AgentRecord
helper = record { agent_id = "a"; model = "m"; tools = [] }

abbrev one_run : Service
one_run = record {
  lock = no_locks;
  active_runs = ("r", 0) ∷ [];
  cancelled_runs = "r" ∷ [];
  made = 1;
  aborted = 0 ∷ [];
}

abbrev resolved : Drive
resolved = record {
  prereqs = inr helper;
  total_run_ms = some 1000;
  armed = 0;
  disposed = 100;
  signal = none;
  user_message_id = "u";
  content = "2 + 2";
  drained = one_run;
}

abbrev unresolved : Drive
unresolved = record resolved {
  prereqs = inl (plain_error "gone");
  drained = record one_run { cancelled_runs = [] };
}

abbrev empty : LoopState
empty = record start { runs = [] }

start_locked-Left_example :
    Left demo
      (run_of demo helper (signal_of demo resolved))
      one_run
      (start_locked demo (inr helper) resolved one_run empty)
start_locked-Left_example =
    start_locked-Left demo helper helper resolved one_run empty (λ n. refl) tt refl

start_locked-leaves_running_example :
    LeftRunning demo helper
      (plain_error "gone")
      empty
      (start_locked demo (inr helper) unresolved one_run empty)
start_locked-leaves_running_example =
    start_locked-leaves_running demo helper (plain_error "gone") unresolved one_run empty
      (λ n. refl) refl refl
