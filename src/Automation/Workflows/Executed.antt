-- ===== src/Automation/Workflows/Executed.antt =====
-- What `execute` gives back and what it leaves in the history.
use memovi.Prelude.{
  ◌⊎◌, subst, sym, ◌++◌, ◌∷◌, [], some, String, ◌≡◌, refl, inl, inr, Option, some, List, str_eq,
  Bool-cases,
}
use memovi.Prelude.Maps.{lookup-map_values, lookup}
use memovi.Prelude.Results.{Result, ok, err}
use memovi.Automation.Values.{Arguments, AuthenticatedExecutionContext}
use memovi.Automation.Authorization.{Engine}
use memovi.Automation.Workflows.Definitions.{WorkflowDefinition, WorkflowContext}
use memovi.Automation.Workflows.Run.{
  run_running, run_failed, interruption, failed_if_running, recover_interrupted,
  WorkflowExecutionResult, RunState, RunError, RunPorts, WorkflowInstance,
}
use memovi.Automation.Workflows.Loop.{start_run}
use memovi.Automation.Workflows.Runs.{IsRun, IsUnfinished}
use memovi.Prelude.Strings.{strip}
use memovi.Automation.Workflows.Validator.{Parsers, validate_variables}
use memovi.Automation.Workflows.Execute.{
  get_workflow, validly, instance_of, execute_accepted, execute_found, execute_workflow,
}
use memovi.Automation.Workflows.Finished.{IsFinished, start_run-IsFinished}

-- The history has the run as one that is still running, and the recovery at the next start makes of it
-- a failed one, which has the reason as its last error.
abbrev pub IsInterrupted : String → RunState → Type 0
IsInterrupted id w =
    (r : WorkflowExecutionResult) × (lookup id w.results ≡ some r)
    × (r.status ≡ run_running)
    × ((reason : String)
        → lookup id (recover_interrupted reason w).results
          ≡ some (record r { status = run_failed; errors = r.errors ++ interruption reason ∷ [] }))

IsUnfinished-IsInterrupted : (id : String) (w : RunState) → IsUnfinished id w → IsInterrupted id w
unfolding recover_interrupted
IsUnfinished-IsInterrupted id w (r, stored, running) = (
  r,
  stored,
  running,
  λ reason.
      rw (lookup-map_values (λ r. failed_if_running reason r.status r) id w.results, stored)
        (subst
          (λ status.
            some (failed_if_running reason status r)
            ≡ some
                (record r { status = run_failed; errors = r.errors ++ interruption reason ∷ [] }))
          (sym running) refl),
)

-- What has become of a run of the workflow that `found` is, from the world `w`.
abbrev pub HasExecuted :
    String
    → RunState
    → Result RunError WorkflowDefinition
    → Result RunError WorkflowExecutionResult × RunState
    → Type 0
HasExecuted id w found (err e, after) = (after ≡ w) ⊎ IsInterrupted id after
HasExecuted id w found (ok result, after) =
    (d : WorkflowDefinition) × (found ≡ ok d)
    × IsRun d.steps result.status result.step_results result.completed_steps result.failed_steps
    × (lookup id after.results ≡ some result)

IsFinished-HasExecuted :
    (run : WorkflowInstance) (w : RunState) (o : Result RunError WorkflowExecutionResult × RunState)
    → IsFinished run o
    → HasExecuted run.instance_id w (ok run.definition) o
IsFinished-HasExecuted run w (err e, after) unfinished =
    inr (IsUnfinished-IsInterrupted run.instance_id after unfinished)
IsFinished-HasExecuted run w (ok result, after) (is_run, stored) =
    (run.definition, refl, is_run, stored)

execute_accepted-HasExecuted :
    (engine : Engine) (ports : RunPorts) (run : WorkflowInstance)
    (auth : AuthenticatedExecutionContext) (w : RunState)
    (accepted : Result RunError WorkflowContext)
    → HasExecuted run.instance_id w
        (ok run.definition)
        (execute_accepted engine ports run auth w accepted)
execute_accepted-HasExecuted engine ports run auth w (err e) = inl refl
execute_accepted-HasExecuted engine ports run auth w (ok context) =
    elim (Bool-cases (str_eq auth.workspace_id run.workspace)) [
      | inl e ↦ rw e (
          IsFinished-HasExecuted run w (start_run engine ports run auth context w)
            (start_run-IsFinished engine ports run auth context w))
      | inr e ↦ rw e (inl refl)
    ]

module _ (engine : Engine) (parsers : Parsers) (ports : RunPorts) (instance_id workspace : String)
    (auth : AuthenticatedExecutionContext) (variables : Arguments) (conversation_id : Option String)
    (w : RunState) where
  execute_found-HasExecuted :
      (found : Result RunError WorkflowDefinition)
      → HasExecuted instance_id w found (
          execute_found engine parsers ports instance_id workspace auth variables conversation_id w
            found)
  unfolding strip
  execute_found-HasExecuted (err e) = inl refl
  execute_found-HasExecuted (ok d) =
      execute_accepted-HasExecuted engine ports
        (instance_of d workspace instance_id conversation_id) auth w
        (validly (validate_variables parsers d variables))

  -- `execute` gives a result or raises. The result has the results of the first steps of the workflow
  -- of that identifier, in their order, and all but the last one are of completed steps. The run has
  -- completed if these are all of the steps; otherwise the status of the last result gives the status
  -- of the run, and its step is the failed one, unless it waits for an approval. The history has exactly
  -- this result. Where `execute` raises, either nothing has changed, the engine's state included, or
  -- the history has the run as one that is still running, and the recovery of interrupted runs makes
  -- it a failed one, with its reason as the last error.
  pub execute_workflow-HasExecuted :
      (library : List (String × WorkflowDefinition)) (id : String)
      → HasExecuted instance_id w (get_workflow engine.registry library id) (
          execute_workflow engine parsers ports library instance_id id workspace auth variables
            conversation_id w)
  unfolding execute_workflow
  execute_workflow-HasExecuted library id =
      execute_found-HasExecuted (get_workflow engine.registry library id)
