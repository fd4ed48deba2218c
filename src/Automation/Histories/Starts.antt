-- ===== src/Automation/Histories/Starts.antt =====
-- Submissions and approvals keep the execution store consistent.
use memovi.Prelude.{ℕ, String, refl, inl, inr, Option, none, some, str_eq, Bool-cases, Option-cases}
use memovi.Prelude.Maps.{lookup}
use memovi.Automation.Values.{
  Outcome, returned, raised, capability_execution, PermissionMode, always_allow, ask_every_time,
  deny, pending_approval, same_status, CapabilityExecutionRequest, AuthenticatedExecutionContext,
  CapabilityExecutionResult,
}
use memovi.Automation.Store.{State, get_result, get_pending, save_result}
use memovi.Automation.Authorization.{Engine, Decision, authorize_capability}
use memovi.Automation.Invoker.{Run}
use memovi.Automation.Engine.{append_audit, failed_result, remember_token}
use memovi.Automation.Engine.Consistency.{
  IsTame, IsConsistent, save_pending-IsConsistent, conclude-IsConsistent, execute-IsConsistent,
}
use memovi.Automation.Submission.{
  submit, submit_context, submit_decided, submit_evaluated, evaluate_submit_policy, await_approval,
  denial_error,
}
use memovi.Automation.Operations.{
  approve_found, approve_decided, approve_evaluated, approval_context,
}

await_approval-IsConsistent :
    (request : CapabilityExecutionRequest) (context : AuthenticatedExecutionContext) (now : ℕ)
    (s : State)
    → IsConsistent s
    → IsConsistent (await_approval request context now s).1
unfolding await_approval append_audit save_result get_result get_pending
await_approval-IsConsistent request context now s h =
    save_pending-IsConsistent request context ask_every_time now
      (remember_token request.id context.cancellation s) h

module _ (engine : Engine) (run : Run) (tame : IsTame run) (s : State) (h : IsConsistent s) where
  submit_evaluated-IsConsistent :
      (request : CapabilityExecutionRequest) (context : AuthenticatedExecutionContext)
      (mode : PermissionMode) (chosen : Outcome PermissionMode)
      → IsConsistent (submit_evaluated engine request context mode run s chosen).1
  submit_evaluated-IsConsistent request context mode (returned ask_every_time) =
      await_approval-IsConsistent request context run.started s h
  submit_evaluated-IsConsistent request context mode (returned always_allow) =
      execute-IsConsistent engine request context always_allow run s tame h
  submit_evaluated-IsConsistent request context mode (returned deny) =
      execute-IsConsistent engine request context deny run s tame h
  submit_evaluated-IsConsistent request context mode (raised (capability_execution code m)) =
      conclude-IsConsistent request context
        (failed_result request mode (record { code = code; message = m }) run.started run.started) s
        refl h
  submit_evaluated-IsConsistent request context mode (raised e) = h

  submit_decided-IsConsistent :
      (request : CapabilityExecutionRequest) (context : AuthenticatedExecutionContext)
      (decided : Outcome Decision)
      → IsConsistent (submit_decided engine request context run s decided).1
  submit_decided-IsConsistent request context (raised e) = h
  submit_decided-IsConsistent request context (returned decision) =
      elim (Option-cases decision.denial) [
        | inl e ↦ rw e (
            submit_evaluated-IsConsistent request context decision.permission_mode
              (evaluate_submit_policy engine request decision.permission_mode))
        | inr (denial, e) ↦ rw e (
            conclude-IsConsistent request context
              (failed_result request decision.permission_mode (denial_error request denial)
                run.started run.started)
              s refl h)
      ]

  approve_evaluated-IsConsistent :
      (request : CapabilityExecutionRequest) (context : AuthenticatedExecutionContext)
      (mode : PermissionMode) (chosen : Outcome PermissionMode)
      → IsConsistent (approve_evaluated engine request context mode run s chosen).1
  approve_evaluated-IsConsistent request context mode (returned chosen) =
      execute-IsConsistent engine request context mode run s tame h
  approve_evaluated-IsConsistent request context mode (raised (capability_execution code m)) = h
  approve_evaluated-IsConsistent request context mode (raised e) = h

  approve_decided-IsConsistent :
      (request : CapabilityExecutionRequest) (context : AuthenticatedExecutionContext)
      (decided : Outcome Decision)
      → IsConsistent (approve_decided engine request context run s decided).1
  approve_decided-IsConsistent request context (raised e) = h
  approve_decided-IsConsistent request context (returned decision) =
      elim (Option-cases decision.denial) [
        | inl e ↦ rw e (
            approve_evaluated-IsConsistent request context decision.permission_mode
              (evaluate_submit_policy engine request decision.permission_mode))
        | inr (denial, e) ↦ rw e h
      ]

  pub approve_found-IsConsistent :
      (id workspace : String) (context : AuthenticatedExecutionContext)
      (waiting : Option (CapabilityExecutionRequest × AuthenticatedExecutionContext))
      (current : Option CapabilityExecutionResult)
      → IsConsistent (approve_found engine id workspace context run s waiting current).1
  approve_found-IsConsistent id workspace context none none = h
  approve_found-IsConsistent id workspace context none (some current) = h
  approve_found-IsConsistent id workspace context (some waiting) none = h
  approve_found-IsConsistent id workspace context (some (request, submitted)) (some current) =
      elim (Bool-cases (str_eq request.workspace_id workspace)) [
        | inl e ↦ rw e (elim (Bool-cases (same_status current.status pending_approval)) [
          | inl b ↦ rw b (
              approve_decided-IsConsistent request
                (approval_context request context (lookup id s.cancellations))
                (authorize_capability engine context.user_id workspace request.capability_id s))
          | inr b ↦ rw b h
        ])
        | inr e ↦ rw e h
      ]

pub submit-IsConsistent :
    (engine : Engine) (request : CapabilityExecutionRequest)
    (context : AuthenticatedExecutionContext) (run : Run) (s : State)
    → IsTame run
    → IsConsistent s
    → IsConsistent (submit engine request context run s).1
unfolding submit
submit-IsConsistent engine request context run s tame h =
    elim (Bool-cases (str_eq context.workspace_id request.workspace_id)) [
      | inl e ↦ rw e (
          submit_decided-IsConsistent engine run tame s h request (submit_context request context) (
            authorize_capability engine context.user_id request.workspace_id request.capability_id
              s))
      | inr e ↦ rw e h
    ]
