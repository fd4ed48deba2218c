-- ===== src/Automation/Workflows/Trial.antt =====
-- The theorem on the runs of workflows at a concrete workflow of two steps.
use memovi.Prelude.{Option, String, ◌≡◌, refl, true, none, some, List, [], ◌∷◌}
use memovi.Prelude.Maps.{lookup}
use memovi.Automation.Values.{text, Arguments, always_allow}
use memovi.Automation.Values.{string_type}
use memovi.Automation.Store.{
  Capability, get_capability, get_mode, token_cancelled, clear_pending, save_result,
}
use memovi.Automation.Arguments.{
  validate_capability_arguments, parameter_of, validate_parameter_value,
}
use memovi.Automation.Plans.{check_dependencies}
use memovi.Automation.Submission.{submit}
use memovi.Automation.Engine.{execute, append_audit}
use memovi.Automation.Invoker.{invoke}
use memovi.Automation.Authorization.{Engine, authorize_capability}
use memovi.Automation.Examples.{engine, context, run, allowing}
use memovi.Automation.Workflows.Definitions.{WorkflowStep, WorkflowDefinition, string_variable}
use memovi.Automation.Workflows.Examples.{parsers}
use memovi.Automation.Workflows.Run.{
  RunState, WorkflowExecutionResult, RunStatus, RunPorts, run_completed,
}
use memovi.Automation.Workflows.Execute.{get_workflow, execute_workflow}
use memovi.Automation.Workflows.Executed.{HasExecuted, execute_workflow-HasExecuted}

abbrev files : Capability
files = record {
  metadata = record {
    id = "files";
    parameters =
        record { name = "operation"; type = string_type; required = true }
        ∷ record { name = "path"; type = string_type; required = true }
        ∷ [];
  };
  supported_operations = some ("read" ∷ []);
  evaluate_submit = none;
}

abbrev with_files : Engine
with_files = record engine { registry = ("files", files) ∷ [] }

abbrev reading : WorkflowStep
reading = record {
  step_id = "a";
  capability_id = "files";
  operation = "read";
  input_mapping = ("path", text "${dir}") ∷ [];
  output_mapping = ("found", "$") ∷ [];
  expected_result = none;
}

abbrev showing : WorkflowStep
showing = record reading {
  step_id = "b";
  input_mapping = ("path", text "${steps.a}") ∷ [];
  output_mapping = [];
}

abbrev library : List (String × WorkflowDefinition)
library =
    (
      "w",
      record {
        workflow_id = "w";
        name = "Show";
        steps = reading ∷ showing ∷ [];
        variables =
            record { name = "dir"; type = string_variable; required = true; default = none } ∷ [];
        expected_outputs = "found" ∷ [];
        required_capabilities = "files" ∷ [];
        version = 1;
      },
    )
    ∷ []

abbrev ports : RunPorts
ports = record { shown = λ v. "object"; plan_id = λ step. step.step_id; schedule = λ id. (id, run) }

abbrev world : RunState
world = record {
  engine = record allowing { modes = (("w1", "files"), always_allow) ∷ [] };
  results = [];
}

abbrev variables : Arguments
variables = ("dir", text "tmp") ∷ []

execute_workflow-HasExecuted_example :
    HasExecuted "r1" world
      (get_workflow with_files.registry library "w")
      (execute_workflow with_files parsers ports library "r1" "w" "w1" context variables none world)
execute_workflow-HasExecuted_example =
    execute_workflow-HasExecuted with_files parsers ports "r1" "w1" context variables none world
      library "w"

abbrev ends : Option WorkflowExecutionResult → Option (RunStatus × List String × Arguments)
ends none = none
ends (some r) = some (r.status, r.completed_steps, r.outputs)

ran_to_the_end :
    ends (
      lookup "r1"
        (execute_workflow with_files parsers ports library "r1" "w" "w1" context variables none
          world).1.results)
    ≡ some (run_completed, "a" ∷ "b" ∷ [], ("found", text "done") ∷ [])
unfolding lookup execute_workflow check_dependencies get_capability validate_capability_arguments
    parameter_of validate_parameter_value submit authorize_capability get_mode execute invoke
    token_cancelled append_audit clear_pending save_result
ran_to_the_end = refl
