-- ===== src/Runtime/Deadlines.antt =====
-- packages/runtime/src/deadlines.ts. An abort signal is the abort that it will see, if any: the time
-- and the reason. A timer that is disposed of before it fires never aborts.
use swift_agent.Common.{ℕ, zero, suc, ◌+◌, String, Option, none, some, leb, if◌then◌else◌}
use swift_agent.Shared.{DeadlineScope, Fault}

pub record Abort : Type 0 where
  pub at : ℕ
  pub reason : Fault

abbrev pub Signal : Type 0
Signal = Option Abort

-- `signal.aborted`, with the reason, at a moment.
unfoldable pub aborted : Signal → ℕ → Option Fault
aborted none now = none
aborted (some a) now = if leb a.at now then some a.reason else none

-- `AbortSignal.any([a, b])`: the first abort wins, and `a` a tie.
unfoldable pub any_signal : Signal → Signal → Signal
any_signal none b = b
any_signal (some a) none = some a
any_signal (some a) (some b) = if leb a.at b.at then some a else some b

-- `new RunTimeoutError(scope, timeoutMs)`; the text of the message is an argument.
unfoldable pub run_timeout_error : (DeadlineScope → ℕ → String) → DeadlineScope → ℕ → Fault
run_timeout_error text scope timeout_ms = record {
  code = some "TIMEOUT";
  message = text scope timeout_ms;
  scope = some scope;
}

-- `armController`, armed at a time and disposed of at a later one. A missing or zero timeout arms
-- no timer.
unfoldable pub arm_controller :
    (DeadlineScope → ℕ → String) → DeadlineScope → Option ℕ → ℕ → ℕ → Signal
unfolding run_timeout_error
arm_controller text scope none armed disposed = none
arm_controller text scope (some zero) armed disposed = none
arm_controller text scope (some (suc ms)) armed disposed =
    if leb (armed + suc ms) disposed
    then some (record { at = armed + suc ms; reason = run_timeout_error text scope (suc ms) })
    else none

-- `deriveCallDeadline`: the merged signal of one call, as it stands once the timer is disposed of.
unfoldable pub derive_call_deadline :
    (DeadlineScope → ℕ → String) → Signal → DeadlineScope → Option ℕ → ℕ → ℕ → Signal
unfolding arm_controller any_signal
derive_call_deadline text base scope none armed disposed = base
derive_call_deadline text base scope (some zero) armed disposed = base
derive_call_deadline text base scope (some (suc ms)) armed disposed =
    any_signal base (arm_controller text scope (some (suc ms)) armed disposed)

-- `reason instanceof RunTimeoutError ? reason : undefined`
abbrev pub if_timeout : Fault → Option DeadlineScope → Option Fault
if_timeout f none = none
if_timeout f (some scope) = some f

abbrev pub when_timeout : Option Fault → Option Fault
when_timeout none = none
when_timeout (some f) = if_timeout f f.scope

-- `timeoutReason(signal)` at a moment.
unfoldable pub timeout_reason : Signal → ℕ → Option Fault
unfolding aborted
timeout_reason s now = when_timeout (aborted s now)
