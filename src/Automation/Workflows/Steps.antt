-- ===== src/Automation/Workflows/Steps.antt =====
-- packages/automation/src/memovi_automation/application/services: workflow_engine.py, the loop over the
-- steps, with what capability_planner.py makes of one step. A workflow's step has its texts stripped
-- already, and a run's workspace is that of its caller, so that the checks of the planner for blank
-- texts cannot fail.
use memovi.Prelude.{String, Option, none, some, List, [], ◌∷◌, str_eq, if◌then◌else◌}
use memovi.Prelude.Maps.{lookup}
use memovi.Prelude.Strings.{strip}
use memovi.Prelude.Results.{Result, ok, err}
use memovi.Automation.Values.{
  Error, Outcome, returned, raised, invalid_execution_plan, Value, null, text, object, Arguments,
  failed,
}
use memovi.Automation.Codec.{to_str, to_entries, to_arguments}
use memovi.Automation.Store.{Capability}
use memovi.Automation.Plans.{ExecutionStep, ExecutionPlan, validate_plan}
use memovi.Automation.Workflows.Definitions.{WorkflowError, WorkflowStep, WorkflowContext}
use memovi.Automation.Workflows.Substitution.{substitute_value}
use memovi.Automation.Workflows.Run.{
  StepError, workflow_error, plan_error, WorkflowStepResult, RunPorts, WorkflowInstance,
  set_default,
}

-- The items of a value that are not `None`.
abbrev pub without_nulls : Arguments → Arguments
without_nulls [] = []
without_nulls ((key, null) ∷ items) = without_nulls items
without_nulls ((key, v) ∷ items) = (key, v) ∷ without_nulls items

abbrev pub items_of : Value → Arguments
items_of (object items) = to_arguments items
items_of v = []

abbrev pub step_arguments : WorkflowStep → Value → Arguments
step_arguments step v = set_default "operation" (text step.operation) (without_nulls (items_of v))

-- What preparing a step gives: a plan, an error that the step records, or another exception.
pub data Prepared : Type 0 where
  ready : ExecutionPlan → Prepared
  refused : StepError → Prepared
  crashed : Error → Prepared

abbrev pub validated : ExecutionPlan → Outcome (Unit {0}) → Prepared
validated plan (returned done) = ready plan
validated plan (raised (invalid_execution_plan code message)) = refused (plan_error code message)
validated plan (raised e) = crashed e

-- `_build_step`, and `__post_init__` of execution_plan.py: the operation of the arguments is the step's.
abbrev pub operation_of : (Value → String) → Option Value → String
operation_of shown none = ""
operation_of shown (some v) = strip (to_str shown v)

abbrev pub planned_step : WorkflowStep → Arguments → ExecutionStep
planned_step step arguments = record {
  step_id = step.step_id;
  capability_id = step.capability_id;
  operation = step.operation;
  arguments = arguments;
  dependencies = [];
}

abbrev pub step_plan : RunPorts → WorkflowInstance → ExecutionStep → ExecutionPlan
step_plan ports run planned = record {
  plan_id = ports.plan_id planned;
  workspace_id = run.workspace;
  conversation_id = run.conversation_id;
  steps = planned ∷ [];
}

-- `create_plan` of the planner, on the one step
unfoldable pub create_plan :
    List (String × Capability) → RunPorts → WorkflowInstance → WorkflowStep → Arguments → Prepared
unfolding validate_plan lookup strip
create_plan registry ports run step arguments =
    if str_eq (operation_of ports.shown (lookup "operation" arguments)) step.operation
    then (let plan = step_plan ports run (planned_step step arguments) in
        validated plan (validate_plan registry plan))
    else refused
        (plan_error "invalid_step" "Execution step operation must match arguments['operation'].")

abbrev pub planned :
    List (String × Capability)
    → RunPorts
    → WorkflowInstance
    → WorkflowStep
    → Result WorkflowError Value
    → Prepared
planned registry ports run step (err e) = refused (workflow_error e)
planned registry ports run step (ok v) = create_plan registry ports run step (step_arguments step v)

-- The `try` block of the loop.
unfoldable pub prepare_step :
    List (String × Capability)
    → RunPorts
    → WorkflowInstance
    → WorkflowStep
    → WorkflowContext
    → Prepared
unfolding substitute_value create_plan lookup
prepare_step registry ports run step context =
    planned registry ports run step
      (substitute_value ports.shown context (object (to_entries step.input_mapping)))

abbrev pub refused_result : WorkflowStep → StepError → WorkflowStepResult
refused_result step e = record {
  step_id = step.step_id;
  capability_id = step.capability_id;
  operation = step.operation;
  execution_id = none;
  status = failed;
  output = none;
  error = some e;
  plan_id = none;
}
