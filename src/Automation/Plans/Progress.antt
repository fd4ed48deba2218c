-- ===== src/Automation/Plans/Progress.antt =====
-- How far the execution of a plan gets, and in which order.
use memovi.Prelude.{
  String, ◌≡◌, sym, refl, inl, inr, ◌⊎◌, true, false, none, some, List, [], ◌∷◌, All, str_eq,
  Bool-cases, Option-cases, subst,
}
use memovi.Automation.Values.{
  Outcome, returned, raised, CapabilityExecutionStatus, pending_approval, executing, completed,
  failed, cancelled, AuthenticatedExecutionContext, CapabilityExecutionResult,
}
use memovi.Automation.Store.{State}
use memovi.Automation.Authorization.{Engine}
use memovi.Automation.Invoker.{Run}
use memovi.Automation.Submission.{submit}
use memovi.Automation.Plans.{ExecutionStep, ExecutionPlan, contains, validate_plan}
use memovi.Automation.Plans.Execution.{
  ExecutionStepResult, ExecutionPlanResult, PlanStatus, plan_completed, stops_with, prepend,
  stop_or_go, after_step, step_request, step_result, execute_steps, execute_validated, execute_plan,
}
use memovi.Automation.Plans.Validity.{IsOrdered, validate_plan-IsOrdered}

completed_of : (status : CapabilityExecutionStatus) → stops_with status ≡ none → status ≡ completed
completed_of pending_approval h = cc
completed_of executing h = cc
completed_of completed h = refl
completed_of failed h = cc
completed_of cancelled h = cc

module _ (engine : Engine) (plan : ExecutionPlan) (context : AuthenticatedExecutionContext)
    (schedule : String → String × Run) where
  -- `submit` of a step of the plan.
  abbrev pub submitted : ExecutionStep → State → Outcome CapabilityExecutionResult × State
  submitted step =
      submit engine (step_request plan step (schedule step.step_id).0) context
        (schedule step.step_id).1

  -- The state goes from `s` to `after` by the submissions of the first steps, in their order, and by
  -- nothing else, and these give the results. Each is made when all that its step depends on is among
  -- the steps `finished` by then, which are the completed ones.
  abbrev pub IsProgress :
      List String
      → List ExecutionStep
      → State
      → PlanStatus
      → List ExecutionStepResult
      → State
      → Type 0
  IsProgress finished [] s status results after =
      (results ≡ []) × (status ≡ plan_completed) × (after ≡ s)
  IsProgress finished (step ∷ steps) s status [] after = true ≡ false
  IsProgress finished (step ∷ steps) s status (r ∷ results) after =
      (x : CapabilityExecutionResult) × (next : State) × (submitted step s ≡ (returned x, next))
      × (r ≡ step_result step x)
      × All (λ d. contains d finished ≡ true) step.dependencies
      × (((r.status ≡ completed)
            × IsProgress (step.step_id ∷ finished) steps next status results after)
          ⊎ ((results ≡ []) × (stops_with r.status ≡ some status) × (after ≡ next)))

  abbrev pub HasProgress :
      List String → List ExecutionStep → State → Outcome ExecutionPlanResult × State → Type 0
  HasProgress finished steps s (raised e, after) = Unit
  HasProgress finished steps s (returned result, after) =
      IsProgress finished steps s result.status result.step_results after

  module _ (finished : List String) (step : ExecutionStep) (steps : List ExecutionStep) (s : State)
      (ready : All (λ d. contains d finished ≡ true) step.dependencies) where
    prepend-HasProgress :
        (r : CapabilityExecutionResult) (next : State) (rest : Outcome ExecutionPlanResult × State)
        → submitted step s ≡ (returned r, next)
        → r.status ≡ completed
        → HasProgress (step.step_id ∷ finished) steps next rest
        → HasProgress finished (step ∷ steps) s (prepend (step_result step r) rest)
    prepend-HasProgress r next (raised e, after) ran done h = tt
    prepend-HasProgress r next (returned result, after) ran done h =
        (r, next, ran, refl, ready, inl (done, h))

    after_step-HasProgress :
        (rest : State → Outcome ExecutionPlanResult × State)
        (outcome : Outcome CapabilityExecutionResult × State)
        → submitted step s ≡ outcome
        → ((t : State) → HasProgress (step.step_id ∷ finished) steps t (rest t))
        → HasProgress finished (step ∷ steps) s (after_step step rest outcome)
    after_step-HasProgress rest (raised e, next) ran h = tt
    after_step-HasProgress rest (returned r, next) ran h =
        elim (Option-cases (stops_with r.status)) [
          | inl e ↦
              subst
                (λ o.
                  HasProgress finished (step ∷ steps) s
                    (stop_or_go (step_result step r) rest next o))
                (sym e)
                (prepend-HasProgress r next (rest next) ran (completed_of r.status e) (h next))
          | inr (status, e) ↦
              subst
                (λ o.
                  HasProgress finished (step ∷ steps) s
                    (stop_or_go (step_result step r) rest next o))
                (sym e) (r, next, ran, refl, ready, inr (refl, e, refl))
        ]

  execute_steps-HasProgress :
      (finished : List String) (steps : List ExecutionStep) (s : State)
      → IsOrdered finished steps
      → HasProgress finished steps s (execute_steps engine plan context schedule steps s)
  unfolding execute_steps
  execute_steps-HasProgress finished [] s h = (refl, refl, refl)
  execute_steps-HasProgress finished (step ∷ steps) s h =
      after_step-HasProgress finished step steps s h.0
        (execute_steps engine plan context schedule steps) (submitted step s) refl
        (λ t. execute_steps-HasProgress (step.step_id ∷ finished) steps t h.1)

  execute_validated-HasProgress :
      (s : State) (valid : Outcome (Unit {0}))
      → (valid ≡ returned tt → IsOrdered [] plan.steps)
      → HasProgress [] plan.steps s (execute_validated engine plan context schedule s valid)
  execute_validated-HasProgress s (raised e) ordered = tt
  execute_validated-HasProgress s (returned done) ordered =
      elim (Bool-cases (str_eq context.workspace_id plan.workspace_id)) [
        | inl e ↦ rw e (execute_steps-HasProgress [] plan.steps s (ordered refl))
        | inr e ↦ rw e tt
      ]

  -- If the execution of a plan returns, what it has done is to submit the first steps, in the order of
  -- the plan: the state after is the one that the last of these submissions gave, and no other was
  -- made. When a step was submitted every step that it depends on had completed. Each step but the last
  -- one submitted has completed; the plan has completed if these are all of its steps, and has the
  -- status that the last result gives otherwise.
  pub execute_plan-IsProgress :
      (s after : State) (result : ExecutionPlanResult)
      → execute_plan engine plan context schedule s ≡ (returned result, after)
      → IsProgress [] plan.steps s result.status result.step_results after
  unfolding execute_plan
  execute_plan-IsProgress s after result h = subst (HasProgress [] plan.steps s) h (
      execute_validated-HasProgress s (validate_plan engine.registry plan)
        (validate_plan-IsOrdered engine.registry plan))
