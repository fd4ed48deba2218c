-- ===== src/Automation/Workflows/Planned.antt =====
-- The plan that a step of a workflow is run by.
use memovi.Prelude.{String, ◌≡◌, refl, inl, inr, List, [], ◌∷◌, str_eq, Bool-cases}
use memovi.Prelude.Maps.{lookup}
use memovi.Prelude.Results.{Result, ok, err}
use memovi.Automation.Values.{
  Outcome, unknown_capability, execution_not_found, invalid_arguments, authorization_denied,
  capability_execution, capability_timeout, capability_cancelled, invalid_execution_plan,
  automation_domain, other, returned, raised, Value, Arguments, object,
}
use memovi.Automation.Codec.{to_entries}
use memovi.Automation.Store.{Capability}
use memovi.Automation.Plans.{ExecutionPlan, validate_plan}
use memovi.Automation.Workflows.Definitions.{WorkflowError, WorkflowStep, WorkflowContext}
use memovi.Automation.Workflows.Substitution.{substitute_value}
use memovi.Automation.Workflows.Run.{RunPorts, WorkflowInstance}
use memovi.Automation.Workflows.Steps.{
  Prepared, ready, refused, crashed, validated, planned, operation_of, step_plan, step_arguments,
  prepare_step, planned_step, create_plan,
}

-- The plan of a step has that one step.
abbrev pub IsPlanOf : WorkflowStep → ExecutionPlan → Type 0
IsPlanOf step plan = (arguments : Arguments) × (plan.steps ≡ planned_step step arguments ∷ [])

abbrev pub AllPlans : WorkflowStep → Prepared → Type 0
AllPlans step (ready plan) = IsPlanOf step plan
AllPlans step (refused e) = Unit
AllPlans step (crashed e) = Unit

module _ (registry : List (String × Capability)) (ports : RunPorts) (run : WorkflowInstance)
    (step : WorkflowStep) where
  validated-AllPlans :
      (arguments : Arguments) (valid : Outcome (Unit {0}))
      → AllPlans step (validated (step_plan ports run (planned_step step arguments)) valid)
  validated-AllPlans arguments (returned done) = (arguments, refl)
  validated-AllPlans arguments (raised (invalid_execution_plan code m)) = tt
  validated-AllPlans arguments (raised (unknown_capability m)) = tt
  validated-AllPlans arguments (raised (execution_not_found m)) = tt
  validated-AllPlans arguments (raised (invalid_arguments m)) = tt
  validated-AllPlans arguments (raised (authorization_denied code m)) = tt
  validated-AllPlans arguments (raised (capability_execution code m)) = tt
  validated-AllPlans arguments (raised (capability_timeout m)) = tt
  validated-AllPlans arguments (raised (capability_cancelled m)) = tt
  validated-AllPlans arguments (raised (automation_domain m)) = tt
  validated-AllPlans arguments (raised (other m)) = tt

  create_plan-AllPlans :
      (arguments : Arguments) → AllPlans step (create_plan registry ports run step arguments)
  unfolding create_plan
  create_plan-AllPlans arguments =
      elim (Bool-cases
        (str_eq (operation_of ports.shown (lookup "operation" arguments)) step.operation)) [
          | inl e ↦ rw e (
              validated-AllPlans arguments
                (validate_plan registry (step_plan ports run (planned_step step arguments))))
          | inr e ↦ rw e tt
        ]

  planned-AllPlans :
      (input : Result WorkflowError Value) → AllPlans step (planned registry ports run step input)
  unfolding create_plan
  planned-AllPlans (err e) = tt
  planned-AllPlans (ok v) = create_plan-AllPlans (step_arguments step v)

  pub prepare_step-AllPlans :
      (context : WorkflowContext) → AllPlans step (prepare_step registry ports run step context)
  unfolding prepare_step
  prepare_step-AllPlans context =
      planned-AllPlans
        (substitute_value ports.shown context (object (to_entries step.input_mapping)))
