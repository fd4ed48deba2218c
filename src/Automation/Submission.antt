-- ===== src/Automation/Submission.antt =====
-- packages/automation/src/memovi_automation/application/services/capability_execution_engine.py:
-- `submit`, which refuses an execution, leaves it waiting for an approval, or runs it.
use memovi.Prelude.{ℕ, String, concat, Option, none, some, List, str_eq, if◌then◌else◌}
use memovi.Automation.Values.{
  Outcome, returned, raised, invalid_arguments, capability_execution, Value, PermissionMode,
  ask_every_time, pending_approval, CapabilityExecutionRequest, AuthenticatedExecutionContext,
  CapabilityExecutionResult, CapabilityError,
}
use memovi.Automation.Store.{Capability, State, get_capability, save_result, save_pending}
use memovi.Automation.Authorization.{
  Engine, Denial, unknown_denial, policy_denial, Decision, authorize_capability,
}
use memovi.Automation.Invoker.{Run}
use memovi.Automation.Engine.{
  append_audit, result_of, conclude, failed_result, remember_token, execute,
}

-- `evaluate_submit_policy`, where the capability has it.
abbrev pub hook :
    Option (List (String × Value) → PermissionMode → Outcome PermissionMode)
    → CapabilityExecutionRequest
    → PermissionMode
    → Outcome PermissionMode
hook none request mode = returned mode
hook (some evaluate) request mode = evaluate request.arguments mode

abbrev pub hook_of :
    Outcome Capability → CapabilityExecutionRequest → PermissionMode → Outcome PermissionMode
hook_of (raised e) request mode = returned mode
hook_of (returned c) request mode = hook c.evaluate_submit request mode

unfoldable pub evaluate_submit_policy :
    Engine → CapabilityExecutionRequest → PermissionMode → Outcome PermissionMode
evaluate_submit_policy engine request mode =
    hook_of (get_capability request.capability_id engine.registry) request mode

-- The execution waits for an approval.
unfoldable pub await_approval :
    CapabilityExecutionRequest
    → AuthenticatedExecutionContext
    → ℕ
    → State
    → Outcome CapabilityExecutionResult × State
await_approval request context now s =
    let r = result_of request ask_every_time pending_approval none none now now in
    (
      returned r,
      append_audit request.source (some context.user_id) r (
          save_pending request context
            (save_result r (remember_token request.id context.cancellation s))),
    )

abbrev pub denial_error : CapabilityExecutionRequest → Denial → CapabilityError
denial_error request unknown_denial = record {
  code = "unknown_capability";
  message = concat "Unknown capability '" (concat request.capability_id "'.");
}
denial_error request policy_denial = record {
  code = "permission_denied";
  message =
      concat "Capability '"
        (concat request.capability_id "' is denied by the active permission policy.");
}

abbrev pub submit_evaluated :
    Engine
    → CapabilityExecutionRequest
    → AuthenticatedExecutionContext
    → PermissionMode
    → Run
    → State
    → Outcome PermissionMode
    → Outcome CapabilityExecutionResult × State
submit_evaluated engine request context mode run s (returned ask_every_time) =
    await_approval request context run.started s
submit_evaluated engine request context mode run s (returned chosen) =
    execute engine request context chosen run s
submit_evaluated engine request context mode run s (raised (capability_execution code m)) =
    conclude request context
      (failed_result request mode (record { code = code; message = m }) run.started run.started) s
submit_evaluated engine request context mode run s (raised e) = (raised e, s)

abbrev pub submit_decided :
    Engine
    → CapabilityExecutionRequest
    → AuthenticatedExecutionContext
    → Run
    → State
    → Outcome Decision
    → Outcome CapabilityExecutionResult × State
submit_decided engine request context run s (raised e) = (raised e, s)
submit_decided engine request context run s (returned decision) = elim decision.denial [
  | some denial ↦
      conclude request context
        (failed_result request decision.permission_mode (denial_error request denial) run.started
          run.started)
        s
  | none ↦
      submit_evaluated engine request context decision.permission_mode run s
        (evaluate_submit_policy engine request decision.permission_mode)
]

-- The context that authorization makes again for the request, with the caller's token.
abbrev pub submit_context :
    CapabilityExecutionRequest → AuthenticatedExecutionContext → AuthenticatedExecutionContext
submit_context request context = record context {
  conversation_id = elim request.conversation_id [
    | none ↦ context.conversation_id
    | some conversation ↦ some conversation
  ];
  source = request.source;
}

-- `submit`
unfoldable pub submit :
    Engine
    → CapabilityExecutionRequest
    → AuthenticatedExecutionContext
    → Run
    → State
    → Outcome CapabilityExecutionResult × State
unfolding await_approval evaluate_submit_policy
submit engine request context run s =
    if str_eq context.workspace_id request.workspace_id
    then submit_decided engine request (submit_context request context) run s
        (authorize_capability engine context.user_id request.workspace_id request.capability_id s)
    else (
      raised (
          invalid_arguments "Authenticated execution context workspace_id must match the request."),
      s,
    )
