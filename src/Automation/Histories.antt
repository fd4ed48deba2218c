-- ===== src/Automation/Histories.antt =====
-- Sequences of the engine's operations, in any order and by any user, and what they keep of the
-- execution store.
mod Starts
mod Ends
use memovi.Prelude.{
  ℕ, String, ◌≡◌, ◌∙◌, ap, ◌⊎◌, refl, inl, inr, Bool, true, false, Option, none, some, List, [],
  ◌∷◌, All, str_eq, eq_iff, eq_refl, arith, if◌then◌else◌, is_some, Bool-cases, Option-cases,
}
use memovi.Prelude.Maps.{lookup, map_values, lookup-map_values, lookup-insert, Option_map}
use memovi.Automation.Values.{
  Value, Error, Outcome, returned, raised, unknown_capability, execution_not_found,
  invalid_arguments, authorization_denied, capability_execution, capability_timeout,
  capability_cancelled, automation_domain, other, PermissionMode, always_allow, ask_every_time,
  deny, pending_approval, same_status, is_terminal, executing, CapabilityExecutionRequest,
  AuthenticatedExecutionContext, CapabilityExecutionResult,
}
use memovi.Automation.Store.{
  State, get_result, get_pending, save_result, clear_pending, fail_interrupted_executions,
  interrupted_to_failed, get_capability,
}
use memovi.Automation.Authorization.{
  Engine, Decision, authorize_capability, require_workspace_member, require_workspace_owner,
}
use memovi.Automation.Invoker.{Run}
use memovi.Automation.Engine.{
  published, publish_progress, append_audit, result_of, conclude, failed_result, execute,
  remember_token,
}
use memovi.Automation.Engine.Consistency.{
  IsTame, get_result-save_result, IsConsistent, waits, save_result-IsConsistent,
  clear_pending-IsConsistent, save_pending-IsConsistent, conclude-IsConsistent,
  cancel_token-IsConsistent, execute-IsConsistent,
}
use memovi.Automation.Submission.{
  submit, submit_context, submit_decided, submit_evaluated, evaluate_submit_policy, await_approval,
  denial_error,
}
use memovi.Automation.Operations.{
  approve, approve_found, approve_decided, approve_evaluated, approval_context, for_member, cancel,
  cancel_found, cancel_current, cancel_flag, cancelled_from,
}
use memovi.Automation.Administration.{
  recover_interrupted_executions, set_permission_mode, interruption, audit_all, set_known,
  set_by_owner,
}
use memovi.Automation.Histories.Starts.{submit-IsConsistent, approve_found-IsConsistent}
use memovi.Automation.Histories.Ends.{
  cancel_found-IsConsistent, for_member-IsConsistent, recover-IsConsistent, mode-IsConsistent,
  published-IsConsistent,
}

pub data Operation : Type 0 where
  submit_op : CapabilityExecutionRequest → AuthenticatedExecutionContext → Run → Operation
  approve_op : String → String → AuthenticatedExecutionContext → Run → Operation
  cancel_op : String → String → AuthenticatedExecutionContext → ℕ → Operation
  recover_op : ℕ → Operation
  -- What a capability that is running reports.
  progress_op : String → Value → ℕ → Operation
  mode_op : String → PermissionMode → String → AuthenticatedExecutionContext → Operation

abbrev pub perform : Engine → Operation → State → State
perform engine (submit_op request context run) s = (submit engine request context run s).1
perform engine (approve_op id workspace context run) s =
    (approve engine id workspace context run s).1
perform engine (cancel_op id workspace context now) s = (cancel engine id workspace context now s).1
perform engine (recover_op now) s = (recover_interrupted_executions now s).1
perform engine (progress_op id output now) s = publish_progress id output now s
perform engine (mode_op capability mode workspace context) s =
    (set_permission_mode engine capability mode workspace context s).1

abbrev pub perform_all : Engine → List Operation → State → State
perform_all engine [] s = s
perform_all engine (op ∷ ops) s = perform_all engine ops (perform engine op s)

abbrev pub IsTameOperation : Operation → Type 0
IsTameOperation (submit_op request context run) = IsTame run
IsTameOperation (approve_op id workspace context run) = IsTame run
IsTameOperation (cancel_op id workspace context now) = Unit
IsTameOperation (recover_op now) = Unit
IsTameOperation (progress_op id output now) = Unit
IsTameOperation (mode_op capability mode workspace context) = Unit

perform-IsConsistent :
    (engine : Engine) (op : Operation) (s : State)
    → IsTameOperation op
    → IsConsistent s
    → IsConsistent (perform engine op s)
unfolding approve cancel publish_progress
perform-IsConsistent engine (submit_op request context run) s tame h =
    submit-IsConsistent engine request context run s tame h
perform-IsConsistent engine (approve_op id workspace context run) s tame h =
    for_member-IsConsistent s
      (approve_found engine id workspace context run s (get_pending id s) (get_result id s))
      (require_workspace_member engine context.user_id workspace) h
      (approve_found-IsConsistent engine run tame s h id workspace context (get_pending id s)
        (get_result id s))
perform-IsConsistent engine (cancel_op id workspace context now) s tame h =
    for_member-IsConsistent s (cancel_found id workspace context now s (get_result id s))
      (require_workspace_member engine context.user_id workspace) h
      (cancel_found-IsConsistent id workspace context now s (get_result id s) refl h)
perform-IsConsistent engine (recover_op now) s tame h = recover-IsConsistent now s h
perform-IsConsistent engine (progress_op id output now) s tame h =
    published-IsConsistent output now s (get_result id s) h
perform-IsConsistent engine (mode_op capability mode workspace context) s tame h =
    mode-IsConsistent engine capability mode workspace context s h

-- Whatever operations are performed, by whichever users and whatever the capabilities do, an execution
-- waits for an approval exactly if its request is kept, if that holds at the start and if what runs
-- while a capability does keeps it.
pub perform_all-IsConsistent :
    (engine : Engine) (ops : List Operation) (s : State)
    → All IsTameOperation ops
    → IsConsistent s
    → IsConsistent (perform_all engine ops s)
perform_all-IsConsistent engine [] s tame h = h
perform_all-IsConsistent engine (op ∷ ops) s tame h =
    perform_all-IsConsistent engine ops (perform engine op s) tame.1
      (perform-IsConsistent engine op s tame.0 h)
