-- ===== src/Automation/Engine.antt =====
-- packages/automation/src/memovi_automation/application/services/capability_execution_engine.py:
-- `_execute`, `_audit` and `_failed_result`. What may raise returns its outcome beside the state; what
-- it wrote before the raise stays.
pub mod Consistency
pub mod Ended
pub mod Stuck
use memovi.Prelude.{
  ℕ, String, concat, Bool, true, false, not, Option, none, some, List, [], ◌∷◌, ◌++◌, str_eq,
  if◌then◌else◌, is_some, get_or,
}
use memovi.Prelude.Maps.{lookup, insert, erase}
use memovi.Automation.Values.{
  Error, Outcome, returned, raised, unknown_capability, execution_not_found, invalid_arguments,
  authorization_denied, capability_execution, Value, PermissionMode, ask_every_time, deny,
  always_allow, CapabilityExecutionStatus, pending_approval, executing, completed, failed,
  cancelled, same_status, is_terminal, CapabilityExecutionRequest, AuthenticatedExecutionContext,
  CapabilityExecutionResult, CapabilityError, CapabilityExecutionPolicy, ExecutionAuditEntry,
  default_execution_policy,
}
use memovi.Automation.Store.{
  Capability, State, get_capability, save_result, get_result, save_pending, get_pending,
  clear_pending, fail_interrupted_executions, set_mode, get_mode, cancel_token,
}
use memovi.Automation.Authorization.{
  Engine, Denial, unknown_denial, policy_denial, Decision, require_workspace_member,
  require_workspace_owner, authorize_capability,
}
use memovi.Automation.Invoker.{Run, CapabilityResult, invoke}

-- `_audit`
unfoldable pub append_audit : String → Option String → CapabilityExecutionResult → State → State
append_audit source user r s = record s {
  audit =
      s.audit
      ++ record {
        execution_id = r.execution_id;
        workspace_id = r.workspace_id;
        capability_id = r.capability_id;
        status = r.status;
        permission_mode = r.permission_mode;
        timestamp = r.updated_at;
        conversation_id = r.conversation_id;
        source = source;
        user_id = user;
      }
        ∷ [];
}

-- The record that an operation stores for a request.
abbrev pub result_of :
    CapabilityExecutionRequest
    → PermissionMode
    → CapabilityExecutionStatus
    → Option Value
    → Option CapabilityError
    → ℕ
    → ℕ
    → CapabilityExecutionResult
result_of request mode status output error created_at updated_at = record {
  execution_id = request.id;
  capability_id = request.capability_id;
  workspace_id = request.workspace_id;
  status = status;
  permission_mode = mode;
  output = output;
  error = error;
  conversation_id = request.conversation_id;
  source = request.source;
  created_at = created_at;
  updated_at = updated_at;
}

-- `_store_result` and `_audit`, which follow each other everywhere.
abbrev pub conclude :
    CapabilityExecutionRequest
    → AuthenticatedExecutionContext
    → CapabilityExecutionResult
    → State
    → Outcome CapabilityExecutionResult × State
conclude request context r s =
    (returned r, append_audit request.source (some context.user_id) r (save_result r s))

abbrev pub failed_result :
    CapabilityExecutionRequest
    → PermissionMode
    → CapabilityError
    → ℕ
    → ℕ
    → CapabilityExecutionResult
failed_result request mode error created_at now =
    result_of request mode failed none (some error) created_at now

abbrev pub remember_token : String → ℕ → State → State
remember_token id token s = record s { cancellations = insert id token s.cancellations }

-- `_execute` up to the call of the invoker.
unfoldable pub begin_execution :
    CapabilityExecutionRequest → AuthenticatedExecutionContext → PermissionMode → ℕ → State → State
begin_execution request context mode now s =
    let r = result_of request mode executing none none now now in
    append_audit request.source (some context.user_id) r
      (clear_pending request.id (save_result r (remember_token request.id context.cancellation s)))

abbrev pub status_of : CapabilityResult → CapabilityExecutionStatus
status_of r = if r.cancelled then cancelled else if r.success then completed else failed

-- What follows the call of the invoker. An exception other than that on arguments leaves `_execute`.
unfoldable pub finish_execution :
    CapabilityExecutionRequest
    → AuthenticatedExecutionContext
    → PermissionMode
    → Run
    → Outcome CapabilityResult × State
    → Outcome CapabilityExecutionResult × State
finish_execution request context mode run (returned r, s) =
    conclude request context
      (result_of request mode (status_of r) r.output r.error run.started run.finished) s
finish_execution request context mode run (raised (invalid_arguments m), s) =
    conclude request context
      (failed_result request mode (record { code = "invalid_arguments"; message = m }) run.started
        run.finished)
      s
finish_execution request context mode run (raised e, s) = (raised e, s)

abbrev pub unregistered_result :
    CapabilityExecutionRequest → PermissionMode → Run → CapabilityExecutionResult
unregistered_result request mode run =
    failed_result request mode
      (record {
        code = "unknown_capability";
        message = concat "Unknown capability '" (concat request.capability_id "'.");
      })
      run.started run.finished

abbrev pub execute_registered :
    CapabilityExecutionRequest
    → AuthenticatedExecutionContext
    → PermissionMode
    → Run
    → Outcome Capability
    → State
    → Outcome CapabilityExecutionResult × State
execute_registered request context mode run (raised e) s =
    conclude request context (unregistered_result request mode run) s
execute_registered request context mode run (returned c) s =
    finish_execution request context mode run (
      invoke request.capability_id c request.arguments
        (get_or request.policy default_execution_policy) context.cancellation run s)

-- `_execute`
unfoldable pub execute :
    Engine
    → CapabilityExecutionRequest
    → AuthenticatedExecutionContext
    → PermissionMode
    → Run
    → State
    → Outcome CapabilityExecutionResult × State
unfolding begin_execution finish_execution
execute engine request context mode run s =
    execute_registered request context mode run
      (get_capability request.capability_id engine.registry)
      (begin_execution request context mode run.started s)

abbrev pub published : Value → ℕ → State → Option CapabilityExecutionResult → State
published output now s none = s
published output now s (some current) =
    if same_status current.status executing
    then save_result (record current { output = some output; updated_at = now }) s
    else s

-- `_publish_progress`
unfoldable pub publish_progress : String → Value → ℕ → State → State
publish_progress id output now s = published output now s (get_result id s)
