-- ===== src/Automation/Trials.antt =====
-- Theorems on approvals, recovery, plans and modes at concrete inputs.
use memovi.Prelude.Strings.{strip}
use memovi.Prelude.{String, ◌≡◌, refl, true, none, some, [], ◌∷◌}
use memovi.Prelude.Maps.{lookup, insert, erase}
use memovi.Automation.Values.{
  automation_domain, deny, returned, raised, text, string_type, always_allow, ask_every_time,
  executing, completed, is_terminal, CapabilityExecutionResult,
}
use memovi.Automation.Arguments.{
  parameter_of, validate_parameter_value, validate_capability_arguments,
}
use memovi.Automation.Store.{
  State, get_result, get_pending, get_capability, get_mode, save_result, save_pending,
  clear_pending, token_cancelled,
}
use memovi.Automation.Authorization.{
  require_workspace_owner, require_workspace_member, authorize_capability,
}
use memovi.Automation.Invoker.{Run, invoke}
use memovi.Automation.Engine.{append_audit, result_of, execute}
use memovi.Automation.Engine.Stuck.{execute_stuck}
use memovi.Automation.Submission.{submit}
use memovi.Automation.Operations.{approve, cancel, unknown_execution}
use memovi.Automation.Operations.Approval.{approve_once}
use memovi.Automation.Administration.{
  recover_interrupted_executions, set_permission_mode, get_permission_mode,
}
use memovi.Automation.Administration.Modes.{get-set_permission_mode}
use memovi.Automation.Administration.Recovery.{AfterRecovery, recovered_once}
use memovi.Automation.Histories.{submit_op, perform_all, perform_all-IsConsistent}
use memovi.Automation.Plans.{
  ExecutionStep, ExecutionPlan, check_dependencies, position, validate_plan,
}
use memovi.Automation.Plans.Execution.{
  ExecutionPlanResult, plan_completed, step_result, execute_plan,
}
use memovi.Automation.Plans.Validity.{IsOrdered, validate_plan-IsOrdered}
use memovi.Automation.Plans.Progress.{IsProgress, execute_plan-IsProgress}
use memovi.Automation.Examples.{
  filesystem, engine, arguments, request, context, run, start, allowing, start-IsConsistent,
}

abbrev interrupted : CapabilityExecutionResult
interrupted = result_of request always_allow executing none none 10 10

abbrev restarted : State
restarted = record start { results = ("e1", interrupted) ∷ [] }

recovered_once_example :
    let recovered = (recover_interrupted_executions 50 restarted).1 in
    ((x : CapabilityExecutionResult) × (get_result "e1" recovered ≡ some x)
      × AfterRecovery 50 interrupted x)
    × (recover_interrupted_executions 60 recovered ≡ ([], recovered))
unfolding lookup get_result
recovered_once_example = recovered_once 50 60 restarted "e1" interrupted refl

abbrev waiting : State
waiting = perform_all engine (submit_op request context run ∷ []) start

abbrev approved : CapabilityExecutionResult
approved = result_of request ask_every_time completed (some (text "done")) none 10 15

approve_once_example :
    let after = (approve engine "e1" "w1" context run waiting).1 in
    (get_result "e1" after ≡ some approved)
    × (is_terminal approved.status ≡ true)
    × (approve engine "e1" "w1" context run after ≡ (raised (unknown_execution "e1"), after))
    × (cancel engine "e1" "w1" context 30 after ≡ (returned approved, after))
unfolding strip lookup insert erase get_capability get_mode get_result get_pending save_result
    save_pending clear_pending approve submit execute require_workspace_member authorize_capability
    append_audit invoke validate_capability_arguments parameter_of validate_parameter_value
approve_once_example =
    approve_once engine "e1" "w1" context run waiting
      (approve engine "e1" "w1" context run waiting).1 approved "w1" context run 30
      (perform_all-IsConsistent engine (submit_op request context run ∷ []) start ((λ t h. h), tt)
        start-IsConsistent)
      refl refl refl

abbrev first_step : ExecutionStep
first_step = record {
  step_id = "read";
  capability_id = "filesystem";
  operation = "read";
  arguments = arguments;
  dependencies = [];
}

abbrev second_step : ExecutionStep
second_step = record first_step { step_id = "list"; dependencies = "read" ∷ [] }

abbrev plan : ExecutionPlan
plan = record {
  plan_id = "p1";
  workspace_id = "w1";
  conversation_id = none;
  steps = first_step ∷ second_step ∷ [];
}

validate_plan-IsOrdered_example : IsOrdered [] plan.steps
unfolding strip validate_plan check_dependencies position get_capability lookup
    validate_capability_arguments parameter_of validate_parameter_value
validate_plan-IsOrdered_example = validate_plan-IsOrdered engine.registry plan refl

abbrev schedule : String → String × Run
schedule step = (step, run)

abbrev plan_result : ExecutionPlanResult
plan_result = record {
  status = plan_completed;
  step_results =
      step_result first_step (record approved {
        execution_id = "read";
        source = "capability_planner";
        permission_mode = always_allow;
      })
      ∷ step_result second_step (record approved {
        execution_id = "list";
        source = "capability_planner";
        permission_mode = always_allow;
      })
      ∷ [];
}

execute_plan-IsProgress_example :
    IsProgress engine plan context schedule [] plan.steps allowing plan_completed
      plan_result.step_results
      (execute_plan engine plan context schedule allowing).1
unfolding strip execute_plan check_dependencies position get_capability lookup
    validate_capability_arguments parameter_of validate_parameter_value submit authorize_capability
    get_mode execute invoke token_cancelled append_audit clear_pending save_result
execute_plan-IsProgress_example =
    execute_plan-IsProgress engine plan context schedule allowing
      (execute_plan engine plan context schedule allowing).1 plan_result refl

abbrev broken_run : Run
broken_run = record run { ending = raised (automation_domain "Capability error code is required.") }

execute_stuck_example :
    ((execute engine request context always_allow broken_run start).0
      ≡ raised (automation_domain "Capability error code is required."))
    × (get_result "e1" (execute engine request context always_allow broken_run start).1
        ≡ some (result_of request always_allow executing none none 10 10))
unfolding strip lookup get_capability parameter_of token_cancelled
execute_stuck_example =
    execute_stuck engine request context always_allow broken_run start filesystem
      "Capability error code is required." refl refl
      (
        ((record { name = "path"; type = string_type; required = true }, refl, refl), tt),
        ((λ r. refl), ((λ r. cc), tt)),
      )
      tt refl refl refl

get-set_permission_mode_example :
    ((set_permission_mode engine "filesystem" deny "w1" context start).0 ≡ returned tt)
    × (get_permission_mode engine "filesystem" "w1"
          (set_permission_mode engine "filesystem" deny "w1" context start).1
        ≡ returned deny)
    × (get_permission_mode engine "filesystem" "w2"
          (set_permission_mode engine "filesystem" deny "w1" context start).1
        ≡ get_permission_mode engine "filesystem" "w2" start)
unfolding strip lookup get_capability require_workspace_owner
get-set_permission_mode_example =
    get-set_permission_mode engine "filesystem" deny "w1" context start filesystem filesystem "w2"
      "filesystem" refl refl refl refl
