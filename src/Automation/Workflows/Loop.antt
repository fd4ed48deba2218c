-- ===== src/Automation/Workflows/Loop.antt =====
-- packages/automation/src/memovi_automation/application/services/workflow_engine.py: the loop over the
-- steps.
use memovi.Prelude.{String, Option, none, some, List, [], ◌∷◌, ◌++◌, str_eq, if◌then◌else◌}
use memovi.Prelude.Results.{Result, ok, err}
use memovi.Automation.Values.{
  Outcome, returned, raised, Value, null, CapabilityExecutionStatus, completed, CapabilityError,
  AuthenticatedExecutionContext,
}
use memovi.Automation.Store.{State}
use memovi.Automation.Authorization.{Engine}
use memovi.Automation.Plans.{ExecutionPlan}
use memovi.Automation.Plans.Execution.{
  ExecutionStepResult, PlanStatus, plan_completed, plan_awaiting_approval, plan_cancelled,
  ExecutionPlanResult, execute_plan,
}
use memovi.Automation.Workflows.Definitions.{WorkflowError, WorkflowStep, WorkflowContext}
use memovi.Automation.Workflows.Substitution.{bind_completed_step}
use memovi.Automation.Workflows.Run.{
  RunStatus, run_completed, run_awaiting_approval, run_cancelled, run_failed, StepError,
  capability_error, no_step_results, WorkflowStepResult, WorkflowExecutionResult, RunState,
  RunError, engine_error, invalid, RunPorts, WorkflowInstance, Progress, collect_outputs,
  persist_progress, finish_run,
}
use memovi.Automation.Workflows.Steps.{
  Prepared, ready, refused, crashed, prepare_step, refused_result,
}

abbrev step_error : Option CapabilityError → Option StepError
step_error none = none
step_error (some e) = some (capability_error e)

abbrev pub workflow_result : WorkflowStep → ExecutionPlan → ExecutionStepResult → WorkflowStepResult
workflow_result step plan r = record {
  step_id = step.step_id;
  capability_id = step.capability_id;
  operation = step.operation;
  execution_id = some r.execution_id;
  status = r.status;
  output = r.output;
  error = step_error r.error;
  plan_id = some plan.plan_id;
}

-- `if plan_step.error_message: errors.append(...)`
abbrev pub reported : Option CapabilityError → List StepError
reported none = []
reported (some e) = if str_eq e.message "" then [] else capability_error e ∷ []

abbrev pub audited : String → List String
audited id = if str_eq id "" then [] else id ∷ []

abbrev pub end_step : WorkflowStep → RunStatus → List StepError → Progress → Progress
end_step step status errors p = record p {
  status = status;
  failed = p.failed ++ step.step_id ∷ [];
  errors = p.errors ++ errors;
}

abbrev pub with_result : WorkflowStepResult → List String → Progress → Progress
with_result r audit p = record p {
  step_results = p.step_results ++ r ∷ [];
  audit_refs = p.audit_refs ++ audit;
}

abbrev pub output_value : Option Value → Value
output_value none = null
output_value (some v) = v

-- What follows a step: the loop goes on, or ends with some `Progress`, or an exception leaves it.
abbrev pub Loop : Type 0
Loop = Progress → RunState → Result RunError Progress × RunState

abbrev pub completing : WorkflowStep → WorkflowContext → Progress → Progress
completing step context p = record p {
  completed = p.completed ++ step.step_id ∷ [];
  context = context;
}

abbrev pub go_on :
    WorkflowInstance
    → WorkflowStep
    → Loop
    → Progress
    → RunState
    → Result WorkflowError WorkflowContext
    → Result RunError Progress × RunState
go_on run step rest p w (err e) = (err (invalid e), w)
go_on run step rest p w (ok context) =
    let next = completing step context p in
    rest next (persist_progress run next (collect_outputs run.definition context) w)

abbrev pub after_status :
    WorkflowInstance
    → WorkflowStep
    → Loop
    → ExecutionStepResult
    → Progress
    → RunState
    → PlanStatus
    → CapabilityExecutionStatus
    → Result RunError Progress × RunState
after_status run step rest r p w plan_awaiting_approval status =
    (ok (record p { status = run_awaiting_approval }), w)
after_status run step rest r p w plan_cancelled status =
    (ok (end_step step run_cancelled (reported r.error) p), w)
after_status run step rest r p w plan_completed completed =
    go_on run step rest p w (bind_completed_step step (output_value r.output) p.context)
after_status run step rest r p w _ status = (ok (end_step step run_failed (reported r.error) p), w)

abbrev pub after_results :
    WorkflowInstance
    → WorkflowStep
    → ExecutionPlan
    → Loop
    → Progress
    → RunState
    → PlanStatus
    → List ExecutionStepResult
    → Result RunError Progress × RunState
after_results run step plan rest p w status [] =
    (ok (end_step step run_failed (no_step_results ∷ []) p), w)
after_results run step plan rest p w status (r ∷ others) =
    after_status run step rest r
      (with_result (workflow_result step plan r) (audited r.execution_id) p) w status r.status

abbrev pub after_plan :
    WorkflowInstance
    → WorkflowStep
    → ExecutionPlan
    → Loop
    → Progress
    → RunState
    → Outcome ExecutionPlanResult × State
    → Result RunError Progress × RunState
after_plan run step plan rest p w (raised e, s) = (err (engine_error e), record w { engine = s })
after_plan run step plan rest p w (returned result, s) =
    after_results run step plan rest p (record w { engine = s }) result.status result.step_results

abbrev pub first_progress : WorkflowContext → Progress
first_progress context = record {
  status = run_completed;
  context = context;
  step_results = [];
  completed = [];
  failed = [];
  errors = [];
  audit_refs = [];
}

module _ (engine : Engine) (ports : RunPorts) (run : WorkflowInstance)
    (auth : AuthenticatedExecutionContext) where
  abbrev pub run_step :
      WorkflowStep → Loop → Progress → RunState → Prepared → Result RunError Progress × RunState
  run_step step rest p w (refused e) =
      (ok (end_step step run_failed (e ∷ []) (with_result (refused_result step e) [] p)), w)
  run_step step rest p w (crashed e) = (err (engine_error e), w)
  run_step step rest p w (ready plan) =
      after_plan run step plan rest p w (execute_plan engine plan auth ports.schedule w.engine)

  -- The loop of `_continue_steps`.
  unfoldable pub continue_steps : List WorkflowStep → Loop
  unfolding prepare_step execute_plan bind_completed_step persist_progress collect_outputs
  continue_steps [] p w = (ok p, w)
  continue_steps (step ∷ steps) p w =
      run_step step (continue_steps steps) p w
        (prepare_step engine.registry ports run step p.context)

  abbrev pub after_loop :
      Result RunError Progress × RunState → Result RunError WorkflowExecutionResult × RunState
  after_loop (err e, w) = (err e, w)
  after_loop (ok p, w) = (ok (finish_run run p w).0, (finish_run run p w).1)

  -- `execute` behind its checks: the run is stored as running, and then continued from the first step.
  unfoldable pub start_run :
      WorkflowContext → RunState → Result RunError WorkflowExecutionResult × RunState
  unfolding continue_steps persist_progress finish_run
  start_run context w =
      let p = first_progress context in
      after_loop (continue_steps run.definition.steps p (persist_progress run p [] w))
