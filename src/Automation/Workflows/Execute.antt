-- ===== src/Automation/Workflows/Execute.antt =====
-- packages/automation/src/memovi_automation/application/services/workflow_engine.py: `execute`, and the
-- definition that it runs, which is kept in a library by its identifier.
use memovi.Prelude.{String, Option, none, some, List, str_eq, if◌then◌else◌}
use memovi.Prelude.Maps.{lookup}
use memovi.Prelude.Strings.{strip}
use memovi.Prelude.Results.{Result, ok, err, ◌>>=◌}
use memovi.Automation.Values.{Arguments, AuthenticatedExecutionContext}
use memovi.Automation.Store.{Capability}
use memovi.Automation.Authorization.{Engine}
use memovi.Automation.Workflows.Definitions.{WorkflowError, WorkflowDefinition, WorkflowContext}
use memovi.Automation.Workflows.Validator.{Parsers, validate_definition, validate_variables}
use memovi.Automation.Workflows.Run.{
  WorkflowExecutionResult, RunState, RunError, invalid, workspace_mismatch, unknown_workflow,
  RunPorts, WorkflowInstance,
}
use memovi.Automation.Workflows.Loop.{start_run}

-- `get_workflow`
abbrev pub found : String → Option WorkflowDefinition → Result RunError WorkflowDefinition
found id none = err (unknown_workflow id)
found id (some d) = ok d

abbrev pub validly : {A : Type 0} → Result WorkflowError A → Result RunError A
validly (err e) = err (invalid e)
validly (ok a) = ok a

unfoldable pub get_workflow :
    List (String × Capability)
    → List (String × WorkflowDefinition)
    → String
    → Result RunError WorkflowDefinition
unfolding lookup strip validate_definition
get_workflow registry library id =
    found id (lookup (strip id) library) >>= λ d. validly (validate_definition registry d)

abbrev pub instance_of : WorkflowDefinition → String → String → Option String → WorkflowInstance
instance_of d workspace instance_id conversation_id = record {
  definition = d;
  workspace = strip workspace;
  instance_id = instance_id;
  conversation_id = conversation_id;
}

-- `execute`: `instance_id` is the fresh identifier of the run.
abbrev pub execute_accepted :
    Engine
    → RunPorts
    → WorkflowInstance
    → AuthenticatedExecutionContext
    → RunState
    → Result RunError WorkflowContext
    → Result RunError WorkflowExecutionResult × RunState
execute_accepted engine ports run auth w (err e) = (err e, w)
execute_accepted engine ports run auth w (ok context) =
    if str_eq auth.workspace_id run.workspace
    then start_run engine ports run auth context w
    else (err workspace_mismatch, w)

abbrev pub execute_found :
    Engine
    → Parsers
    → RunPorts
    → String
    → String
    → AuthenticatedExecutionContext
    → Arguments
    → Option String
    → RunState
    → Result RunError WorkflowDefinition
    → Result RunError WorkflowExecutionResult × RunState
execute_found engine parsers ports instance_id workspace auth variables conversation_id w (err e) =
    (err e, w)
execute_found engine parsers ports instance_id workspace auth variables conversation_id w (ok d) =
    execute_accepted engine ports (instance_of d workspace instance_id conversation_id) auth w
      (validly (validate_variables parsers d variables))

unfoldable pub execute_workflow :
    Engine
    → Parsers
    → RunPorts
    → List (String × WorkflowDefinition)
    → String
    → String
    → String
    → AuthenticatedExecutionContext
    → Arguments
    → Option String
    → RunState
    → Result RunError WorkflowExecutionResult × RunState
unfolding get_workflow strip validate_variables start_run
execute_workflow engine parsers ports library instance_id id workspace auth variables
      conversation_id w =
    execute_found engine parsers ports instance_id workspace auth variables conversation_id w
      (get_workflow engine.registry library id)
