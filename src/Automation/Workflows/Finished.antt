-- ===== src/Automation/Workflows/Finished.antt =====
-- A run of a workflow, from its first step on.
use memovi.Prelude.{String, ap, ◌≡◌, refl, sym, inl, inr, some, List, [], ◌∷◌, subst, eq_refl}
use mathlib.Core.List.{append-nil}
use memovi.Prelude.Maps.{lookup, lookup-insert}
use memovi.Prelude.Results.{Result, ok, err}
use memovi.Automation.Values.{Outcome, returned, raised, Arguments, AuthenticatedExecutionContext}
use memovi.Automation.Store.{State}
use memovi.Automation.Authorization.{Engine}
use memovi.Automation.Invoker.{Run}
use memovi.Automation.Plans.{ExecutionPlan}
use memovi.Automation.Plans.Execution.{
  ExecutionStepResult, PlanStatus, plan_completed, ExecutionPlanResult, execute_plan,
}
use memovi.Automation.Plans.Progress.{IsProgress, execute_plan-IsProgress}
use memovi.Automation.Workflows.Definitions.{WorkflowStep, WorkflowContext}
use memovi.Automation.Workflows.Substitution.{bind_completed_step}
use memovi.Automation.Workflows.Run.{
  run_completed, WorkflowExecutionResult, RunState, RunError, RunPorts, WorkflowInstance, Progress,
  persist_progress, store_result, finish_run,
}
use memovi.Automation.Workflows.Steps.{
  Prepared, ready, refused, crashed, prepare_step, planned_step,
}
use memovi.Automation.Workflows.Loop.{
  output_value, Loop, workflow_result, after_status, after_results, after_plan, run_step,
  continue_steps, with_result, audited, first_progress, after_loop, start_run,
}
use memovi.Automation.Workflows.Planned.{AllPlans, prepare_step-AllPlans}
use memovi.Automation.Workflows.Runs.{
  IsRun, whole, stops, IsUnfinished, HasRun, persist_progress-IsUnfinished, go_on-HasRun,
  after_status-HasRun,
}

module _ (run : WorkflowInstance) (step : WorkflowStep) (steps : List WorkflowStep) (rest : Loop)
    (goes : (p : Progress) (w : RunState)
      → p.status ≡ run_completed
      → IsUnfinished run.instance_id w
      → HasRun run.instance_id steps p (rest p w)) where
  after_results-HasRun :
      (plan : ExecutionPlan) (arguments : Arguments) (p : Progress) (w : RunState)
      (status : PlanStatus) (results : List ExecutionStepResult) (engine : Engine)
      (auth : AuthenticatedExecutionContext) (schedule : String → String × Run)
      (before after : State)
      → p.status ≡ run_completed
      → IsUnfinished run.instance_id w
      → IsProgress engine plan auth schedule []
          (planned_step step arguments ∷ [])
          before
          status
          results
          after
      → HasRun run.instance_id
          (step ∷ steps)
          p
          (after_results run step plan rest p w status results)
  after_results-HasRun plan arguments p w status [] engine auth schedule before after h unfinished
        progress =
      absurd cc
  after_results-HasRun plan arguments p w status (r ∷ others) engine auth schedule before after h
        unfinished (_, _, _, given, _, either) =
      let same : r.step_id ≡ step.step_id = ap (λ x. x.step_id) given in
      let q = with_result (workflow_result step plan r) (audited r.execution_id) p in
      elim either [
        | inl (done, (none_left, whole_plan, _)) ↦
            subst
              (λ plan_status.
                HasRun run.instance_id (step ∷ steps) p
                  (after_status run step rest r q w plan_status r.status))
              (sym whole_plan)
              (subst
                (λ status.
                  HasRun run.instance_id (step ∷ steps) p
                    (after_status run step rest r q w plan_completed status))
                (sym done)
                (go_on-HasRun run step steps rest goes p (workflow_result step plan r)
                  (audited r.execution_id) w
                  (bind_completed_step step (output_value r.output) p.context) h unfinished refl
                  done))
        | inr (none_left, ended, _) ↦
            after_status-HasRun run step steps rest goes plan p r w status r.status h unfinished
              same refl ended
      ]

  after_plan-HasRun :
      (plan : ExecutionPlan) (arguments : Arguments) (p : Progress) (w : RunState)
      (outcome : Outcome ExecutionPlanResult × State) (engine : Engine)
      (auth : AuthenticatedExecutionContext) (schedule : String → String × Run) (before : State)
      → p.status ≡ run_completed
      → IsUnfinished run.instance_id w
      → ((result : ExecutionPlanResult) (s : State)
          → outcome ≡ (returned result, s)
          → IsProgress engine plan auth schedule []
              (planned_step step arguments ∷ [])
              before
              result.status
              result.step_results
              s)
      → HasRun run.instance_id (step ∷ steps) p (after_plan run step plan rest p w outcome)
  after_plan-HasRun plan arguments p w (raised e, s) engine auth schedule before h unfinished
        progress =
      unfinished
  after_plan-HasRun plan arguments p w (returned result, s) engine auth schedule before h unfinished
        progress =
      after_results-HasRun plan arguments p (record w { engine = s }) result.status
        result.step_results engine auth schedule before s h unfinished (progress result s refl)

  run_step-HasRun :
      (engine : Engine) (ports : RunPorts) (auth : AuthenticatedExecutionContext) (p : Progress)
      (w : RunState) (prepared : Prepared)
      → p.status ≡ run_completed
      → IsUnfinished run.instance_id w
      → AllPlans step prepared
      → HasRun run.instance_id
          (step ∷ steps)
          p
          (run_step engine ports run auth step rest p w prepared)
  run_step-HasRun engine ports auth p w (refused e) h unfinished plans =
      (_, [], _, refl, sym (append-nil p.completed), refl, stops refl refl)
  run_step-HasRun engine ports auth p w (crashed e) h unfinished plans = unfinished
  run_step-HasRun engine ports auth p w (ready plan) h unfinished (arguments, one) =
      after_plan-HasRun plan arguments p w (execute_plan engine plan auth ports.schedule w.engine)
        engine auth ports.schedule w.engine h unfinished
        (λ result s ran.
          subst
            (λ all.
              IsProgress engine plan auth ports.schedule [] all w.engine result.status
                result.step_results s)
            one (execute_plan-IsProgress engine plan auth ports.schedule w.engine s result ran))

module _ (engine : Engine) (ports : RunPorts) (run : WorkflowInstance)
    (auth : AuthenticatedExecutionContext) where
  continue_steps-HasRun :
      (steps : List WorkflowStep) (p : Progress) (w : RunState)
      → p.status ≡ run_completed
      → IsUnfinished run.instance_id w
      → HasRun run.instance_id steps p (continue_steps engine ports run auth steps p w)
  unfolding continue_steps
  continue_steps-HasRun [] p w h unfinished = (
    [],
    [],
    [],
    sym (append-nil p.step_results),
    sym (append-nil p.completed),
    sym (append-nil p.failed),
    rw h whole,
  )
  continue_steps-HasRun (step ∷ steps) p w h unfinished =
      run_step-HasRun run step steps (continue_steps engine ports run auth steps)
        (continue_steps-HasRun steps) engine ports auth p w
        (prepare_step engine.registry ports run step p.context) h unfinished
        (prepare_step-AllPlans engine.registry ports run step p.context)

-- What a finished run gives, and what the history has of it.
abbrev pub IsFinished :
    WorkflowInstance → Result RunError WorkflowExecutionResult × RunState → Type 0
IsFinished run (err e, w) = IsUnfinished run.instance_id w
IsFinished run (ok result, w) =
    IsRun run.definition.steps result.status result.step_results result.completed_steps
      result.failed_steps
    × (lookup run.instance_id w.results ≡ some result)

module _ (engine : Engine) (ports : RunPorts) (run : WorkflowInstance)
    (auth : AuthenticatedExecutionContext) where
  after_loop-IsFinished :
      (context : WorkflowContext) (o : Result RunError Progress × RunState)
      → HasRun run.instance_id run.definition.steps (first_progress context) o
      → IsFinished run (after_loop engine ports run auth o)
  unfolding finish_run store_result
  after_loop-IsFinished context (err e, w) unfinished = unfinished
  after_loop-IsFinished context (ok p, w) (results, ids, failing, e, c, f, is_run) = (
    rw (e, c, f) is_run,
    rw
        (
          lookup-insert run.instance_id run.instance_id (finish_run run p w).0 w.results,
          eq_refl run.instance_id,
        )
        refl,
  )

  pub start_run-IsFinished :
      (context : WorkflowContext) (w : RunState)
      → IsFinished run (start_run engine ports run auth context w)
  unfolding start_run
  start_run-IsFinished context w =
      let p = first_progress context in
      let stored = persist_progress run p [] w in
      after_loop-IsFinished context
        (continue_steps engine ports run auth run.definition.steps p stored)
        (continue_steps-HasRun engine ports run auth run.definition.steps p stored refl
          (persist_progress-IsUnfinished run p [] w))
