-- ===== src/Automation/Operations/Refusal.antt =====
-- What the engine refuses: users who are not members, and capabilities that a policy denies or holds
-- back.
use memovi.Prelude.{ℕ, String, ◌≡◌, refl, inl, inr, ◌⊎◌, true, false, none, str_eq, Bool-cases}
use memovi.Automation.Values.{
  Outcome, returned, raised, ask_every_time, deny, pending_approval, failed,
  CapabilityExecutionRequest, AuthenticatedExecutionContext, CapabilityExecutionResult,
}
use memovi.Automation.Store.{Capability, State, get_capability, get_mode}
use memovi.Automation.Authorization.{Engine, authorize_capability, require_workspace_member}
use memovi.Automation.Invoker.{Run}
use memovi.Automation.Submission.{submit, evaluate_submit_policy, await_approval}
use memovi.Automation.Operations.{approve, cancel}

-- A user who is not a member of the workspace changes nothing: neither by submitting, nor by
-- approving, nor by cancelling.
pub outsider_changes_nothing :
    (engine : Engine) (request : CapabilityExecutionRequest) (id : String)
    (context : AuthenticatedExecutionContext) (run : Run) (now : ℕ) (s : State)
    → engine.membership.is_member context.user_id request.workspace_id ≡ false
    → ((submit engine request context run s).1 ≡ s)
      × ((approve engine id request.workspace_id context run s).1 ≡ s)
      × ((cancel engine id request.workspace_id context now s).1 ≡ s)
unfolding submit approve cancel authorize_capability require_workspace_member
outsider_changes_nothing engine request id context run now s outsider = (
  elim (Bool-cases (str_eq context.workspace_id request.workspace_id)) [
    | inl e ↦ rw (e, outsider) refl
    | inr e ↦ rw e refl
  ],
  rw outsider refl,
  rw outsider refl,
)

-- What a submission that is held back gives: an exception, a failure or a wait for an approval.
abbrev pub IsHeld : Outcome CapabilityExecutionResult → Type 0
IsHeld (raised e) = Unit
IsHeld (returned r) = (r.status ≡ failed) ⊎ (r.status ≡ pending_approval)

-- A member submits a registered capability that has no hook of its own and whose mode is to deny or to
-- ask. The submission raises, fails or waits for an approval, and no run has a part in it: with any
-- other run that starts at the same time, the result and the state are the same.
pub gated_submission :
    (engine : Engine) (request : CapabilityExecutionRequest)
    (context : AuthenticatedExecutionContext) (run other_run : Run) (s : State) (c : Capability)
    → engine.membership.is_member context.user_id request.workspace_id ≡ true
    → get_capability request.capability_id engine.registry ≡ returned c
    → c.evaluate_submit ≡ none
    → (get_mode engine.store_default_mode request.workspace_id request.capability_id s.modes ≡ deny)
      ⊎ (get_mode engine.store_default_mode request.workspace_id request.capability_id s.modes
          ≡ ask_every_time)
    → other_run.started ≡ run.started
    → IsHeld (submit engine request context run s).0
      × (submit engine request context other_run s ≡ submit engine request context run s)
unfolding submit authorize_capability require_workspace_member evaluate_submit_policy await_approval
gated_submission engine request context run other_run s c member found hookless gate started =
    elim (Bool-cases (str_eq context.workspace_id request.workspace_id)) [
      | inl e ↦ elim gate [
        | inl denied ↦ rw (e, member, found, denied, started) (inl refl, refl)
        | inr asked ↦ rw (e, member, found, asked, found, hookless, started) (inr refl, refl)
      ]
      | inr e ↦ rw e (tt, refl)
    ]
