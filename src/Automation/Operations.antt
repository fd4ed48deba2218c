-- ===== src/Automation/Operations.antt =====
-- packages/automation/src/memovi_automation/application/services/capability_execution_engine.py:
-- `approve` and `cancel`.
pub mod Approval
pub mod Refusal
use memovi.Prelude.{
  ℕ, String, concat, Bool, true, false, not, Option, none, some, List, [], ◌∷◌, ◌++◌, str_eq,
  if◌then◌else◌, is_some, get_or,
}
use memovi.Prelude.Maps.{lookup, insert, erase}
use memovi.Automation.Values.{
  Error, Outcome, returned, raised, unknown_capability, execution_not_found, invalid_arguments,
  authorization_denied, capability_execution, Value, PermissionMode, ask_every_time, deny,
  always_allow, CapabilityExecutionStatus, pending_approval, executing, completed, failed,
  cancelled, same_status, is_terminal, CapabilityExecutionRequest, AuthenticatedExecutionContext,
  CapabilityExecutionResult, CapabilityError, CapabilityExecutionPolicy, ExecutionAuditEntry,
  default_execution_policy,
}
use memovi.Automation.Store.{
  Capability, State, get_capability, save_result, get_result, save_pending, get_pending,
  clear_pending, fail_interrupted_executions, set_mode, get_mode, cancel_token,
}
use memovi.Automation.Authorization.{
  Engine, Denial, unknown_denial, policy_denial, Decision, require_workspace_member,
  require_workspace_owner, authorize_capability,
}
use memovi.Automation.Invoker.{Run, CapabilityResult, invoke}
use memovi.Automation.Engine.{
  append_audit, result_of, conclude, failed_result, remember_token, execute,
}
use memovi.Automation.Submission.{evaluate_submit_policy, denial_error}

abbrev pub unknown_execution : String → Error
unknown_execution id =
    execution_not_found (concat "Unknown capability execution '" (concat id "'."))

-- The context of an approval: the identity is the approver's, the token is the one of the submission
-- where the engine still has it.
abbrev pub approval_context :
    CapabilityExecutionRequest
    → AuthenticatedExecutionContext
    → Option ℕ
    → AuthenticatedExecutionContext
approval_context request context token = record context {
  workspace_id = request.workspace_id;
  cancellation = get_or token context.cancellation;
  conversation_id = request.conversation_id;
  source = request.source;
}

abbrev pub approve_evaluated :
    Engine
    → CapabilityExecutionRequest
    → AuthenticatedExecutionContext
    → PermissionMode
    → Run
    → State
    → Outcome PermissionMode
    → Outcome CapabilityExecutionResult × State
approve_evaluated engine request context mode run s (returned chosen) =
    execute engine request context mode run s
approve_evaluated engine request context mode run s (raised (capability_execution code m)) =
    (raised (authorization_denied m code), s)
approve_evaluated engine request context mode run s (raised e) = (raised e, s)

abbrev pub approve_decided :
    Engine
    → CapabilityExecutionRequest
    → AuthenticatedExecutionContext
    → Run
    → State
    → Outcome Decision
    → Outcome CapabilityExecutionResult × State
approve_decided engine request context run s (raised e) = (raised e, s)
approve_decided engine request context run s (returned decision) = elim decision.denial [
  | some denial ↦
      (raised (authorization_denied (denial_error request denial).message "permission_denied"), s)
  | none ↦
      approve_evaluated engine request context decision.permission_mode run s
        (evaluate_submit_policy engine request decision.permission_mode)
]

abbrev status_value : CapabilityExecutionStatus → String
status_value pending_approval = "pending_approval"
status_value executing = "executing"
status_value completed = "completed"
status_value failed = "failed"
status_value cancelled = "cancelled"

abbrev pub not_awaiting : String → CapabilityExecutionStatus → Error
not_awaiting id status = invalid_arguments (
    concat "Execution '" (
      concat id (concat "' is not awaiting approval (status=" (concat (status_value status) ")."))))

abbrev pub approve_found :
    Engine
    → String
    → String
    → AuthenticatedExecutionContext
    → Run
    → State
    → Option (CapabilityExecutionRequest × AuthenticatedExecutionContext)
    → Option CapabilityExecutionResult
    → Outcome CapabilityExecutionResult × State
approve_found engine id workspace context run s (some (request, submitted)) (some current) =
    if str_eq request.workspace_id workspace
    then (if same_status current.status pending_approval
        then approve_decided engine request
            (approval_context request context (lookup id s.cancellations)) run s
            (authorize_capability engine context.user_id workspace request.capability_id s)
        else (raised (not_awaiting id current.status), s))
    else (raised (unknown_execution id), s)
approve_found engine id workspace context run s pending current = (raised (unknown_execution id), s)

abbrev pub for_member :
    State
    → Outcome CapabilityExecutionResult × State
    → Outcome (Unit {0})
    → Outcome CapabilityExecutionResult × State
for_member s rest (returned member) = rest
for_member s rest (raised e) = (raised e, s)

unfoldable pub approve :
    Engine
    → String
    → String
    → AuthenticatedExecutionContext
    → Run
    → State
    → Outcome CapabilityExecutionResult × State
unfolding evaluate_submit_policy
approve engine id workspace context run s =
    for_member s
      (approve_found engine id workspace context run s (get_pending id s) (get_result id s))
      (require_workspace_member engine context.user_id workspace)

abbrev pub cancel_flag : Option ℕ → State → State
cancel_flag none s = s
cancel_flag (some token) s = cancel_token token s

abbrev pub cancelled_from : CapabilityExecutionResult → ℕ → CapabilityExecutionResult
cancelled_from current now = record current {
  status = cancelled;
  output = none;
  error = some (record {
    code = "cancelled";
    message = concat "Capability execution '" (concat current.execution_id "' was cancelled.");
  });
  updated_at = now;
}

abbrev source_of : Option (CapabilityExecutionRequest × AuthenticatedExecutionContext) → String
source_of none = "api"
source_of (some (request, submitted)) = request.source

-- The writes of `cancel` for an execution that is not terminal.
unfoldable pub cancel_current :
    String
    → AuthenticatedExecutionContext
    → ℕ
    → CapabilityExecutionResult
    → State
    → Outcome CapabilityExecutionResult × State
cancel_current id context now current s =
    let r = cancelled_from current now in
    let stored = clear_pending id (save_result r (cancel_flag (lookup id s.cancellations) s)) in
    (
      returned r,
      append_audit (source_of (get_pending id s)) (some context.user_id) r
          (record stored { cancellations = erase id stored.cancellations }),
    )

abbrev pub cancel_found :
    String
    → String
    → AuthenticatedExecutionContext
    → ℕ
    → State
    → Option CapabilityExecutionResult
    → Outcome CapabilityExecutionResult × State
cancel_found id workspace context now s none = (raised (unknown_execution id), s)
cancel_found id workspace context now s (some current) =
    if str_eq current.workspace_id workspace
    then if is_terminal current.status
      then (returned current, s)
      else cancel_current id context now current s
    else (raised (unknown_execution id), s)

unfoldable pub cancel :
    Engine
    → String
    → String
    → AuthenticatedExecutionContext
    → ℕ
    → State
    → Outcome CapabilityExecutionResult × State
unfolding cancel_current
cancel engine id workspace context now s =
    for_member s (cancel_found id workspace context now s (get_result id s))
      (require_workspace_member engine context.user_id workspace)
