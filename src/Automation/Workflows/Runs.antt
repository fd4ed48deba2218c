-- ===== src/Automation/Workflows/Runs.antt =====
-- What a run of a workflow gives back and what it leaves in the history.
use memovi.Prelude.{String, ◌≡◌, refl, sym, ◌∙◌, Option, none, some, List, [], ◌∷◌, ◌++◌, eq_refl}
use mathlib.Core.List.{append-nil, append_assoc}
use memovi.Prelude.Maps.{lookup, lookup-insert}
use memovi.Prelude.Results.{Result, ok, err}
use memovi.Automation.Values.{
  Arguments, CapabilityExecutionStatus, pending_approval, executing, completed, failed, cancelled,
}
use memovi.Automation.Plans.{ExecutionPlan}
use memovi.Automation.Plans.Execution.{
  ExecutionStepResult, PlanStatus, plan_awaiting_approval, plan_cancelled, plan_failed, stops_with,
}
use memovi.Automation.Workflows.Definitions.{WorkflowError, WorkflowStep, WorkflowContext}
use memovi.Automation.Workflows.Run.{
  RunStatus, run_running, run_completed, run_awaiting_approval, run_cancelled, run_failed,
  WorkflowStepResult, WorkflowExecutionResult, RunState, RunError, WorkflowInstance, Progress,
  result_of, collect_outputs, persist_progress, store_result,
}
use memovi.Automation.Workflows.Loop.{
  Loop, workflow_result, go_on, after_status, with_result, completing, audited,
}

-- The status of a run that ends with a step of this status.
abbrev pub stopped : CapabilityExecutionStatus → Option RunStatus
stopped completed = none
stopped pending_approval = some run_awaiting_approval
stopped cancelled = some run_cancelled
stopped failed = some run_failed
stopped executing = some run_failed

abbrev pub failed_by : RunStatus → String → List String
failed_by run_awaiting_approval id = []
failed_by _ id = id ∷ []

-- The steps of a workflow, and the status, the results, the completed and the failed steps of a run:
-- the results are those of the first steps, all but the last one completed.
pub data IsRun
    : List WorkflowStep
      → RunStatus
      → List WorkflowStepResult
      → List String
      → List String
      → Type 0 where
  whole : IsRun [] run_completed [] [] []
  stops :
      {step : WorkflowStep} {steps : List WorkflowStep} {status : RunStatus}
      {r : WorkflowStepResult}
      → r.step_id ≡ step.step_id
      → stopped r.status ≡ some status
      → IsRun (step ∷ steps) status (r ∷ []) [] (failed_by status step.step_id)
  goes_on :
      {step : WorkflowStep} {steps : List WorkflowStep} {status : RunStatus}
      {r : WorkflowStepResult} {results : List WorkflowStepResult} {done failing : List String}
      → r.step_id ≡ step.step_id
      → r.status ≡ completed
      → IsRun steps status results done failing
      → IsRun (step ∷ steps) status (r ∷ results) (step.step_id ∷ done) failing

-- The history has the run as one that is still running.
abbrev pub IsUnfinished : String → RunState → Type 0
IsUnfinished id w =
    (r : WorkflowExecutionResult) × (lookup id w.results ≡ some r) × (r.status ≡ run_running)

-- What the loop adds to the lists of `p`.
abbrev pub HasRun :
    String → List WorkflowStep → Progress → Result RunError Progress × RunState → Type 0
HasRun id steps p (err e, w) = IsUnfinished id w
HasRun id steps p (ok after, w) =
    (results : List WorkflowStepResult) × (done : List String) × (failing : List String)
    × (after.step_results ≡ p.step_results ++ results)
    × (after.completed ≡ p.completed ++ done)
    × (after.failed ≡ p.failed ++ failing)
    × IsRun steps after.status results done failing

module _ (run : WorkflowInstance) where
  pub persist_progress-IsUnfinished :
      (p : Progress) (outputs : Arguments) (w : RunState)
      → IsUnfinished run.instance_id (persist_progress run p outputs w)
  unfolding persist_progress store_result
  persist_progress-IsUnfinished p outputs w = (
    result_of run p run_running outputs,
    rw
        (
          lookup-insert run.instance_id run.instance_id (result_of run p run_running outputs)
              w.results,
          eq_refl run.instance_id,
        )
        refl,
    refl,
  )

  module _ (step : WorkflowStep) (steps : List WorkflowStep) where
    -- The step has been completed, and the loop went on.
    longer :
        (p : Progress) (r : WorkflowStepResult) (audit : List String) (context : WorkflowContext)
        (o : Result RunError Progress × RunState)
        → r.step_id ≡ step.step_id
        → r.status ≡ completed
        → HasRun run.instance_id steps (completing step context (with_result r audit p)) o
        → HasRun run.instance_id (step ∷ steps) p o
    longer p r audit context (err e, w) same done known = known
    longer p r audit context (ok after, w) same done (results, ids, failing, e, c, f, continued) = (
      r ∷ results,
      step.step_id ∷ ids,
      failing,
      e ∙ append_assoc p.step_results (r ∷ []) results,
      c ∙ append_assoc p.completed (step.step_id ∷ []) ids,
      f,
      goes_on same done continued,
    )

    module _ (rest : Loop)
        (goes : (p : Progress) (w : RunState)
          → p.status ≡ run_completed
          → IsUnfinished run.instance_id w
          → HasRun run.instance_id steps p (rest p w)) where
      pub go_on-HasRun :
          (p : Progress) (r : WorkflowStepResult) (audit : List String) (w : RunState)
          (bound : Result WorkflowError WorkflowContext)
          → p.status ≡ run_completed
          → IsUnfinished run.instance_id w
          → r.step_id ≡ step.step_id
          → r.status ≡ completed
          → HasRun run.instance_id
              (step ∷ steps)
              p
              (go_on run step rest (with_result r audit p) w bound)
      go_on-HasRun p r audit w (err e) h unfinished same done = unfinished
      go_on-HasRun p r audit w (ok context) h unfinished same done =
          let next = completing step context (with_result r audit p) in
          let stored = persist_progress run next (collect_outputs run.definition context) w in
          longer p r audit context (rest next stored) same done (
            goes next stored h
              (persist_progress-IsUnfinished next (collect_outputs run.definition context) w))

      pub after_status-HasRun :
          (plan : ExecutionPlan) (p : Progress) (r : ExecutionStepResult) (w : RunState)
          (plan_status : PlanStatus) (status : CapabilityExecutionStatus)
          → p.status ≡ run_completed
          → IsUnfinished run.instance_id w
          → r.step_id ≡ step.step_id
          → r.status ≡ status
          → stops_with status ≡ some plan_status
          → HasRun run.instance_id (step ∷ steps) p (
              after_status run step rest r
                (with_result (workflow_result step plan r) (audited r.execution_id) p)
                w
                plan_status
                status)
      after_status-HasRun plan p r w plan_status completed h unfinished same e stop = absurd cc
      after_status-HasRun plan p r w plan_status pending_approval h unfinished same e stop =
          let it : plan_status ≡ plan_awaiting_approval = cc in
          rw it (
            _,
            [],
            [],
            refl,
            sym (append-nil p.completed),
            sym (append-nil p.failed),
            stops refl (rw e refl),
          )
      after_status-HasRun plan p r w plan_status cancelled h unfinished same e stop =
          let it : plan_status ≡ plan_cancelled = cc in
          rw it (_, [], _, refl, sym (append-nil p.completed), refl, stops refl (rw e refl))
      after_status-HasRun plan p r w plan_status failed h unfinished same e stop =
          let it : plan_status ≡ plan_failed = cc in
          rw it (_, [], _, refl, sym (append-nil p.completed), refl, stops refl (rw e refl))
      after_status-HasRun plan p r w plan_status executing h unfinished same e stop =
          let it : plan_status ≡ plan_failed = cc in
          rw it (_, [], _, refl, sym (append-nil p.completed), refl, stops refl (rw e refl))
