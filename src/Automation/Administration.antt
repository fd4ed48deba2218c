-- ===== src/Automation/Administration.antt =====
-- packages/automation/src/memovi_automation/application/services/capability_execution_engine.py: what
-- reads executions, the recovery at a start, and the permission modes.
pub mod Recovery
pub mod Modes
use memovi.Prelude.{
  ℕ, String, concat, Bool, true, false, not, Option, none, some, List, [], ◌∷◌, ◌++◌, str_eq,
  if◌then◌else◌, is_some, get_or,
}
use memovi.Prelude.Maps.{lookup, insert, erase}
use memovi.Automation.Values.{
  Error, Outcome, returned, raised, unknown_capability, execution_not_found, invalid_arguments,
  authorization_denied, capability_execution, Value, PermissionMode, ask_every_time, deny,
  always_allow, CapabilityExecutionStatus, pending_approval, executing, completed, failed,
  cancelled, same_status, is_terminal, CapabilityExecutionRequest, AuthenticatedExecutionContext,
  CapabilityExecutionResult, CapabilityError, CapabilityExecutionPolicy, ExecutionAuditEntry,
  default_execution_policy,
}
use memovi.Automation.Store.{
  Capability, State, get_capability, save_result, get_result, save_pending, get_pending,
  clear_pending, fail_interrupted_executions, set_mode, get_mode, cancel_token,
}
use memovi.Automation.Authorization.{
  Engine, Denial, unknown_denial, policy_denial, Decision, require_workspace_member,
  require_workspace_owner, authorize_capability,
}
use memovi.Automation.Invoker.{Run, CapabilityResult, invoke}
use memovi.Automation.Engine.{
  append_audit, result_of, conclude, failed_result, remember_token, execute,
}
use memovi.Automation.Submission.{evaluate_submit_policy, denial_error}
use memovi.Automation.Operations.{unknown_execution}

abbrev get_found :
    String → String → Option CapabilityExecutionResult → Outcome CapabilityExecutionResult
get_found id workspace none = raised (unknown_execution id)
get_found id workspace (some r) =
    if str_eq r.workspace_id workspace then returned r else raised (unknown_execution id)

-- `get`
unfoldable pub get_execution : String → String → State → Outcome CapabilityExecutionResult
get_execution id workspace s = get_found id workspace (get_result id s)

abbrev pub audit_all : List CapabilityExecutionResult → State → State
audit_all [] s = s
audit_all (r ∷ rs) s = audit_all rs (append_audit r.source none r s)

abbrev pub audited : List CapabilityExecutionResult × State → List CapabilityExecutionResult × State
audited (recovered, s) = (recovered, audit_all recovered s)

abbrev pub interruption : String
interruption = "Capability execution was interrupted by process restart."

-- `recover_interrupted_executions`
unfoldable pub recover_interrupted_executions : ℕ → State → List CapabilityExecutionResult × State
recover_interrupted_executions now s = audited (fail_interrupted_executions now interruption s)

abbrev pub set_known :
    String → String → PermissionMode → State → Outcome Capability → Outcome (Unit {0}) × State
set_known workspace capability mode s (raised e) = (raised e, s)
set_known workspace capability mode s (returned c) =
    (returned tt, record s { modes = set_mode workspace capability mode s.modes })

abbrev pub set_by_owner :
    State → Outcome (Unit {0}) × State → Outcome (Unit {0}) → Outcome (Unit {0}) × State
set_by_owner s rest (returned owner) = rest
set_by_owner s rest (raised e) = (raised e, s)

unfoldable pub set_permission_mode :
    Engine
    → String
    → PermissionMode
    → String
    → AuthenticatedExecutionContext
    → State
    → Outcome (Unit {0}) × State
set_permission_mode engine capability mode workspace context s =
    set_by_owner s
      (set_known workspace capability mode s (get_capability capability engine.registry))
      (require_workspace_owner engine context.user_id workspace)

abbrev mode_known : Engine → String → String → State → Outcome Capability → Outcome PermissionMode
mode_known engine workspace capability s (raised e) = raised e
mode_known engine workspace capability s (returned c) =
    returned (get_mode engine.store_default_mode workspace capability s.modes)

unfoldable pub get_permission_mode : Engine → String → String → State → Outcome PermissionMode
get_permission_mode engine capability workspace s =
    mode_known engine workspace capability s (get_capability capability engine.registry)
