-- ===== src/Automation/Workflows/Run.antt =====
-- packages/automation/src/memovi_automation/application/services/workflow_engine.py: the run of a
-- workflow, step by step. Metadata, times, metrics and the summary rows of the history are left out.
use memovi.Prelude.{String, Option, none, some, List, [], ◌∷◌, ◌++◌}
use memovi.Prelude.Maps.{lookup, insert, map_values}
use memovi.Automation.Values.{Error, Value, Arguments, CapabilityExecutionStatus, CapabilityError}
use memovi.Automation.Store.{State}
use memovi.Automation.Invoker.{Run}
use memovi.Automation.Plans.{ExecutionStep}
use memovi.Automation.Workflows.Definitions.{WorkflowError, WorkflowDefinition, WorkflowContext}

-- The statuses of a run that `execute` gives or stores.
pub data RunStatus : Type 0 where
  run_running run_completed run_awaiting_approval run_cancelled run_failed : RunStatus

-- What a failed step records: the code and the message of an exception or of a capability's error.
pub data StepError : Type 0 where
  workflow_error : WorkflowError → StepError
  plan_error : String → String → StepError
  capability_error : CapabilityError → StepError
  no_step_results : StepError
  -- the reason that the recovery of interrupted runs gives
  interruption : String → StepError

pub record WorkflowStepResult : Type 0 where
  pub step_id : String
  pub capability_id : String
  pub operation : String
  pub execution_id : Option String
  pub status : CapabilityExecutionStatus
  pub output : Option Value
  pub error : Option StepError
  pub plan_id : Option String

-- `context` is what `_with_resume_context` puts into the metadata.
pub record WorkflowExecutionResult : Type 0 where
  pub instance_id : String
  pub workflow_id : String
  pub workflow_name : String
  pub workspace_id : String
  pub status : RunStatus
  pub completed_steps : List String
  pub failed_steps : List String
  pub step_results : List WorkflowStepResult
  pub outputs : Arguments
  pub errors : List StepError
  pub audit_references : List String
  pub context : WorkflowContext

-- The engine's state, and the results that the history keeps by the run's identifier.
pub record RunState : Type 0 where
  pub engine : State
  pub results : List (String × WorkflowExecutionResult)

-- What is raised out of a run.
pub data RunError : Type 0 where
  engine_error : Error → RunError
  invalid : WorkflowError → RunError
  workspace_mismatch : RunError
  unknown_workflow : String → RunError

-- What a run is given from outside: Python's `str`, the identifier of a step's plan, a digest of its
-- contents that is only reported, and for each step the fresh identifier and the run of its capability.
pub record RunPorts : Type 0 where
  pub shown : Value → String
  pub plan_id : ExecutionStep → String
  pub schedule : String → String × Run

-- The arguments of `_continue_steps` that it does not change.
pub record WorkflowInstance : Type 0 where
  pub definition : WorkflowDefinition
  pub workspace : String
  pub instance_id : String
  pub conversation_id : Option String

-- The local variables of `_continue_steps`.
pub record Progress : Type 0 where
  pub status : RunStatus
  pub context : WorkflowContext
  pub step_results : List WorkflowStepResult
  pub completed : List String
  pub failed : List String
  pub errors : List StepError
  pub audit_refs : List String

-- `_collect_outputs`
abbrev chosen_output : String → Option Value → Option Value → Arguments → Arguments
chosen_output name (some v) output rest = (name, v) ∷ rest
chosen_output name none (some v) rest = (name, v) ∷ rest
chosen_output name none none rest = rest

unfoldable pub expected_values : List String → WorkflowContext → Arguments
unfolding lookup
expected_values [] context = []
expected_values (name ∷ names) context =
    chosen_output name (lookup name context.variables) (lookup name context.step_outputs)
      (expected_values names context)

-- `setdefault`
abbrev pub default_with : String → Value → Arguments → Option Value → Arguments
default_with key v items (some old) = items
default_with key v items none = items ++ (key, v) ∷ []

abbrev pub set_default : String → Value → Arguments → Arguments
set_default key v items = default_with key v items (lookup key items)

unfoldable pub set_defaults : Arguments → Arguments → Arguments
unfolding lookup
set_defaults [] merged = merged
set_defaults ((key, v) ∷ items) merged = set_defaults items (set_default key v merged)

abbrev outputs_or : List String → WorkflowContext → Arguments
outputs_or [] context = set_defaults context.step_outputs context.variables
outputs_or (name ∷ names) context = expected_values (name ∷ names) context

unfoldable pub collect_outputs : WorkflowDefinition → WorkflowContext → Arguments
unfolding expected_values set_defaults
collect_outputs d context = outputs_or d.expected_outputs context

-- The result of a run as it is stored and given back.
abbrev pub result_of : WorkflowInstance → Progress → RunStatus → Arguments → WorkflowExecutionResult
result_of run p status outputs = record {
  instance_id = run.instance_id;
  workflow_id = run.definition.workflow_id;
  workflow_name = run.definition.name;
  workspace_id = run.workspace;
  status = status;
  completed_steps = p.completed;
  failed_steps = p.failed;
  step_results = p.step_results;
  outputs = outputs;
  errors = p.errors;
  audit_references = p.audit_refs;
  context = p.context;
}

-- `store_result` of the history
unfoldable pub store_result : WorkflowExecutionResult → RunState → RunState
unfolding insert
store_result result w = record w { results = insert result.instance_id result w.results }

-- `_persist_progress`, which the runs call with the status `running`
unfoldable pub persist_progress : WorkflowInstance → Progress → Arguments → RunState → RunState
unfolding store_result
persist_progress run p outputs w = store_result (result_of run p run_running outputs) w

-- `_finish`
unfoldable pub finish_run :
    WorkflowInstance → Progress → RunState → WorkflowExecutionResult × RunState
unfolding collect_outputs store_result
finish_run run p w =
    let result = result_of run p p.status (collect_outputs run.definition p.context) in
    (result, store_result result w)

-- `fail_interrupted_executions` of the history, which `recover_interrupted_workflows` calls at a start.
abbrev pub failed_if_running :
    String → RunStatus → WorkflowExecutionResult → WorkflowExecutionResult
failed_if_running reason run_running r = record r {
  status = run_failed;
  errors = r.errors ++ interruption reason ∷ [];
}
failed_if_running reason _ r = r

unfoldable pub recover_interrupted : String → RunState → RunState
unfolding map_values
recover_interrupted reason w = record w {
  results = map_values (λ r. failed_if_running reason r.status r) w.results;
}
