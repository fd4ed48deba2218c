-- ===== src/Automation/Plans/Execution.antt =====
-- packages/automation/src/memovi_automation/application/services/plan_execution_service.py: the steps
-- of a validated plan are submitted one after the other until one does not complete.
use memovi.Prelude.{String, Option, none, some, List, [], ◌∷◌, str_eq, if◌then◌else◌}
use memovi.Automation.Values.{
  Outcome, returned, raised, invalid_arguments, Value, CapabilityExecutionStatus, pending_approval,
  executing, completed, failed, cancelled, CapabilityError, CapabilityExecutionRequest,
  AuthenticatedExecutionContext, CapabilityExecutionResult,
}
use memovi.Automation.Store.{State}
use memovi.Automation.Authorization.{Engine}
use memovi.Automation.Invoker.{Run}
use memovi.Automation.Submission.{submit}
use memovi.Automation.Plans.{ExecutionStep, ExecutionPlan, validate_plan}

pub record ExecutionStepResult : Type 0 where
  pub step_id : String
  pub capability_id : String
  pub operation : String
  pub execution_id : String
  pub status : CapabilityExecutionStatus
  pub output : Option Value
  pub error : Option CapabilityError

pub data PlanStatus : Type 0 where
  plan_completed plan_awaiting_approval plan_cancelled plan_failed : PlanStatus

-- The request of a step; its identifier is a fresh one, and `policy` and `source` are the defaults.
abbrev pub step_request : ExecutionPlan → ExecutionStep → String → CapabilityExecutionRequest
step_request plan step id = record {
  id = id;
  capability_id = step.capability_id;
  workspace_id = plan.workspace_id;
  arguments = step.arguments;
  conversation_id = plan.conversation_id;
  policy = none;
  source = "capability_planner";
}

abbrev pub step_result : ExecutionStep → CapabilityExecutionResult → ExecutionStepResult
step_result step r = record {
  step_id = step.step_id;
  capability_id = step.capability_id;
  operation = step.operation;
  execution_id = r.execution_id;
  status = r.status;
  output = r.output;
  error = r.error;
}

-- The tests that end the loop, or `none` where it goes on.
abbrev pub stops_with : CapabilityExecutionStatus → Option PlanStatus
stops_with pending_approval = some plan_awaiting_approval
stops_with cancelled = some plan_cancelled
stops_with failed = some plan_failed
stops_with executing = some plan_failed
stops_with completed = none

pub record ExecutionPlanResult : Type 0 where
  pub status : PlanStatus
  pub step_results : List ExecutionStepResult

abbrev pub prepend :
    ExecutionStepResult → Outcome ExecutionPlanResult × State → Outcome ExecutionPlanResult × State
prepend r (returned result, s) =
    (returned (record result { step_results = r ∷ result.step_results }), s)
prepend r (raised e, s) = (raised e, s)

abbrev pub stop_or_go :
    ExecutionStepResult
    → (State → Outcome ExecutionPlanResult × State)
    → State
    → Option PlanStatus
    → Outcome ExecutionPlanResult × State
stop_or_go r rest s (some status) =
    (returned (record { status = status; step_results = r ∷ [] }), s)
stop_or_go r rest s none = prepend r (rest s)

abbrev pub after_step :
    ExecutionStep
    → (State → Outcome ExecutionPlanResult × State)
    → Outcome CapabilityExecutionResult × State
    → Outcome ExecutionPlanResult × State
after_step step rest (raised e, s) = (raised e, s)
after_step step rest (returned r, s) = stop_or_go (step_result step r) rest s (stops_with r.status)

-- The loop of `execute_plan`; `schedule` gives each step its fresh identifier and its run.
unfoldable pub execute_steps :
    Engine
    → ExecutionPlan
    → AuthenticatedExecutionContext
    → (String → String × Run)
    → List ExecutionStep
    → State
    → Outcome ExecutionPlanResult × State
execute_steps engine plan context schedule [] s =
    (returned (record { status = plan_completed; step_results = [] }), s)
execute_steps engine plan context schedule (step ∷ steps) s =
    after_step step (execute_steps engine plan context schedule steps) (
      submit engine (step_request plan step (schedule step.step_id).0) context
        (schedule step.step_id).1 s)

abbrev pub execute_validated :
    Engine
    → ExecutionPlan
    → AuthenticatedExecutionContext
    → (String → String × Run)
    → State
    → Outcome (Unit {0})
    → Outcome ExecutionPlanResult × State
execute_validated engine plan context schedule s (raised e) = (raised e, s)
execute_validated engine plan context schedule s (returned done) =
    if str_eq context.workspace_id plan.workspace_id
    then execute_steps engine plan context schedule plan.steps s
    else (
      raised
          (invalid_arguments "Authenticated execution context workspace_id must match the plan."),
      s,
    )

-- `execute_plan`
unfoldable pub execute_plan :
    Engine
    → ExecutionPlan
    → AuthenticatedExecutionContext
    → (String → String × Run)
    → State
    → Outcome ExecutionPlanResult × State
unfolding execute_steps validate_plan
execute_plan engine plan context schedule s =
    execute_validated engine plan context schedule s (validate_plan engine.registry plan)
