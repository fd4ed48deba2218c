-- ===== src/Automation/Invoker.antt =====
-- packages/automation/src/memovi_automation/application/services/capability_invoker.py. What an
-- execution does is a `Run`: what happens to the shared state while it is under way, how long it
-- takes, and how it ends.
pub mod After
pub mod Timely
use memovi.Prelude.{
  ◌||◌, ℕ, String, concat, Bool, true, false, ◌&&◌, Option, none, some, ltb, str_eq, if◌then◌else◌,
}
use memovi.Automation.Values.{
  Error, Outcome, returned, raised, unknown_capability, invalid_arguments, execution_not_found,
  authorization_denied, capability_execution, capability_timeout, capability_cancelled,
  automation_domain, other, Value, Arguments, CapabilityError, CapabilityExecutionPolicy,
}
use memovi.Automation.Arguments.{validate_capability_arguments}
use memovi.Automation.Store.{Capability, State, cancel_token, token_cancelled}

pub record Run : Type 0 where
  -- What the capability and every other thread do to the state until the capability ends.
  pub meanwhile : State → State
  pub duration : ℕ
  pub ending : Outcome Value
  -- The readings of the clock around the execution.
  pub started : ℕ
  pub finished : ℕ

-- CapabilityResult
pub record CapabilityResult : Type 0 where
  pub success : Bool
  pub cancelled : Bool
  pub timed_out : Bool
  pub output : Option Value
  pub error : Option CapabilityError

abbrev pub failure_result : String → String → CapabilityResult
failure_result code message = record {
  success = false;
  cancelled = false;
  timed_out = false;
  output = none;
  error = some (record { code = code; message = message });
}

abbrev pub cancelled_result : String → CapabilityResult
cancelled_result capability =
    record (failure_result "cancelled"
      (concat "Capability '" (concat capability "' was cancelled."))) { cancelled = true }

abbrev pub success_result : Value → CapabilityResult
success_result output = record {
  success = true;
  cancelled = false;
  timed_out = false;
  output = some output;
  error = none;
}

-- The number of seconds is left out of the message.
abbrev timeout_error : String → Error
timeout_error capability =
    capability_timeout (concat "Capability '" (concat capability "' timed out."))

-- A `TimeoutError` of the capability's own, which is the exception that `future.result` raises.
abbrev pub is_timeout_error : Outcome Value → Bool
is_timeout_error (raised (other name)) = str_eq name "TimeoutError"
is_timeout_error _ = false

-- `_invoke_capability`. The pool waits for its thread when it is left, so that the capability has
-- ended whether or not it took longer than the timeout. A `TimeoutError` that the capability itself
-- raises is caught as the timeout of the pool.
unfoldable pub invoke_capability :
    String → CapabilityExecutionPolicy → ℕ → Run → State → Outcome Value × State
invoke_capability capability policy token run s = elim policy.timeout_seconds [
  | none ↦
      if policy.cancellable && token_cancelled token s.cancelled_tokens
      then (raised (capability_cancelled "Capability invocation was cancelled."), s)
      else (run.ending, run.meanwhile s)
  | some limit ↦
      if ltb limit run.duration || is_timeout_error run.ending
      then (
        raised (timeout_error capability),
        if policy.cancellable then cancel_token token (run.meanwhile s) else run.meanwhile s,
      )
      else (run.ending, run.meanwhile s)
]

-- The `except` clauses, and the check for a cancellation after a success.
abbrev pub settle_invocation :
    String
    → CapabilityExecutionPolicy
    → ℕ
    → Outcome Value × State
    → Outcome CapabilityResult × State
settle_invocation capability policy token (returned output, s) =
    if policy.cancellable && token_cancelled token s.cancelled_tokens
    then (returned (cancelled_result capability), s)
    else (returned (success_result output), s)
settle_invocation capability policy token (raised (capability_cancelled m), s) =
    (returned (cancelled_result capability), s)
settle_invocation capability policy token (raised (capability_timeout m), s) =
    (returned (record (failure_result "timeout" m) { timed_out = true }), s)
settle_invocation capability policy token (raised (capability_execution code m), s) =
    (returned (failure_result code m), s)
settle_invocation capability policy token (raised (other m), s) = (
  returned (
      failure_result "execution_failed"
        (concat "Capability '" (concat capability "' failed during execution."))),
  s,
)
settle_invocation capability policy token (raised e, s) = (raised e, s)

abbrev pub invoke_validated :
    String
    → CapabilityExecutionPolicy
    → ℕ
    → Run
    → State
    → Outcome Arguments
    → Outcome CapabilityResult × State
invoke_validated capability policy token run s (raised e) = (raised e, s)
invoke_validated capability policy token run s (returned validated) =
    if policy.cancellable && token_cancelled token s.cancelled_tokens
    then (returned (cancelled_result capability), s)
    else settle_invocation capability policy token (invoke_capability capability policy token run s)

abbrev mismatch : String → String → Error
mismatch declared requested = invalid_arguments (
    concat "Capability metadata id '"
      (concat declared (concat "' does not match request capability_id '" (concat requested "'."))))

-- `invoke`, for a registered capability; the engine has looked it up already.
unfoldable pub invoke :
    String
    → Capability
    → Arguments
    → CapabilityExecutionPolicy
    → ℕ
    → Run
    → State
    → Outcome CapabilityResult × State
unfolding invoke_capability
invoke requested capability arguments policy token run s =
    if str_eq capability.metadata.id requested
    then invoke_validated requested policy token run s
        (validate_capability_arguments arguments capability.metadata)
    else (raised (mismatch capability.metadata.id requested), s)
