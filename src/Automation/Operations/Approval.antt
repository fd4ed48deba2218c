-- ===== src/Automation/Operations/Approval.antt =====
-- An approval is used once, and what has ended stays as it ended.
use memovi.Prelude.{
  ℕ, String, ◌≡◌, refl, inl, inr, true, Option, none, some, str_eq, eq_refl, Bool-cases,
  Option-cases, subst,
}
use memovi.Prelude.Maps.{lookup}
use memovi.Automation.Values.{
  Outcome, returned, raised, capability_execution, PermissionMode, pending_approval, same_status,
  is_terminal, CapabilityExecutionRequest, AuthenticatedExecutionContext, CapabilityExecutionResult,
}
use memovi.Automation.Store.{State, get_result, get_pending}
use memovi.Automation.Authorization.{
  Engine, Decision, authorize_capability, require_workspace_member,
}
use memovi.Automation.Invoker.{Run}
use memovi.Automation.Engine.Consistency.{IsConsistent}
use memovi.Automation.Engine.Ended.{HasEnded, execute-HasEnded}
use memovi.Automation.Submission.{evaluate_submit_policy}
use memovi.Automation.Operations.{
  approve, approve_found, approve_decided, approve_evaluated, approval_context, unknown_execution,
  cancel,
}

module _ (engine : Engine) (run : Run) (s : State) where
  approve_evaluated-HasEnded :
      (request : CapabilityExecutionRequest) (context : AuthenticatedExecutionContext)
      (mode : PermissionMode) (chosen : Outcome PermissionMode)
      → HasEnded request.id (approve_evaluated engine request context mode run s chosen)
  approve_evaluated-HasEnded request context mode (returned chosen) =
      execute-HasEnded engine request context mode run s
  approve_evaluated-HasEnded request context mode (raised (capability_execution code m)) = tt
  approve_evaluated-HasEnded request context mode (raised e) = tt

  approve_decided-HasEnded :
      (request : CapabilityExecutionRequest) (context : AuthenticatedExecutionContext)
      (decided : Outcome Decision)
      → HasEnded request.id (approve_decided engine request context run s decided)
  approve_decided-HasEnded request context (raised e) = tt
  approve_decided-HasEnded request context (returned decision) =
      elim (Option-cases decision.denial) [
        | inl e ↦ rw e (
            approve_evaluated-HasEnded request context decision.permission_mode
              (evaluate_submit_policy engine request decision.permission_mode))
        | inr (denial, e) ↦ rw e tt
      ]

  approve_found-HasEnded :
      (id workspace : String) (context : AuthenticatedExecutionContext)
      (waiting : Option (CapabilityExecutionRequest × AuthenticatedExecutionContext))
      (current : Option CapabilityExecutionResult)
      → ((request : CapabilityExecutionRequest) (submitted : AuthenticatedExecutionContext)
          → waiting ≡ some (request, submitted)
          → request.id ≡ id)
      → HasEnded id (approve_found engine id workspace context run s waiting current)
  approve_found-HasEnded id workspace context none none keyed = tt
  approve_found-HasEnded id workspace context none (some current) keyed = tt
  approve_found-HasEnded id workspace context (some waiting) none keyed = tt
  approve_found-HasEnded id workspace context (some (request, submitted)) (some current) keyed =
      elim (Bool-cases (str_eq request.workspace_id workspace)) [
        | inl e ↦ rw e (elim (Bool-cases (same_status current.status pending_approval)) [
          | inl b ↦ rw b (
              subst
                (λ k. HasEnded k (
                  approve_decided engine request
                    (approval_context request context (lookup id s.cancellations)) run s
                    (authorize_capability engine context.user_id workspace request.capability_id
                      s)))
                (keyed request submitted refl)
                (approve_decided-HasEnded request
                  (approval_context request context (lookup id s.cancellations))
                  (authorize_capability engine context.user_id workspace request.capability_id s)))
          | inr b ↦ rw b tt
        ])
        | inr e ↦ rw e tt
      ]

  approve-HasEnded :
      (id workspace : String) (context : AuthenticatedExecutionContext)
      → IsConsistent s
      → HasEnded id (approve engine id workspace context run s)
  unfolding approve require_workspace_member
  approve-HasEnded id workspace context h =
      elim (Bool-cases (engine.membership.is_member context.user_id workspace)) [
        | inl e ↦ rw e (
            approve_found-HasEnded id workspace context (get_pending id s) (get_result id s)
              (h.1 id))
        | inr e ↦ rw e tt
      ]

-- If an approval returns a result, that is a terminal one and is stored; a later approval of the same
-- execution by a member of any workspace is refused, as an unknown execution, and a cancellation by a
-- member of its workspace gives the same result back, and neither changes the state.
pub approve_once :
    (engine : Engine) (id workspace : String) (context : AuthenticatedExecutionContext) (run : Run)
    (s after : State) (r : CapabilityExecutionResult) (other_workspace : String)
    (other_context : AuthenticatedExecutionContext) (other_run : Run) (now : ℕ)
    → IsConsistent s
    → approve engine id workspace context run s ≡ (returned r, after)
    → engine.membership.is_member other_context.user_id other_workspace ≡ true
    → engine.membership.is_member other_context.user_id r.workspace_id ≡ true
    → (get_result id after ≡ some r)
      × (is_terminal r.status ≡ true)
      × (approve engine id other_workspace other_context other_run after
          ≡ (raised (unknown_execution id), after))
      × (cancel engine id r.workspace_id other_context now after ≡ (returned r, after))
unfolding approve cancel require_workspace_member
approve_once engine id workspace context run s after r other_workspace other_context other_run now h
      approved member same_member =
    let (same, stored, gone, ended) =
      subst (HasEnded id) approved (approve-HasEnded engine run s id workspace context h) in
    (
      stored,
      ended,
      rw (member, gone) refl,
      rw (same_member, stored, eq_refl r.workspace_id, ended) refl,
    )
