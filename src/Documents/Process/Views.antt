-- ===== src/Documents/Process/Views.antt =====
-- What a run of `ProcessDocument.execute` leaves in the tables and in the publisher's buffer, on each
-- of its branches.
use memovi.Prelude.{ℕ, String, ◌≡◌, refl, ◌≢◌, false, Option, none, some, [], ◌∷◌, ◌++◌, arith, ◌∙◌}
use memovi.Prelude.Table.{get, get-modify_self, get-modify_ne}
use memovi.Events
use memovi.Documents.Errors.{Error, ok, err, invalid_processing_state, processing_job_not_found}
use memovi.Documents.Text.{Text, normalize_text}
use memovi.Documents.Job.{ProcessingStatus, pending, completed, failed, same_status}
use memovi.Documents.Session.{
  Document, DocumentVersion, ProcessingJobRecord, job_id, version_id, write_job, get_by_id,
}
use memovi.Documents.Process.{
  Ports, Run, Instants, DocumentEvent, message, extracted, execute, load_pending_job,
}
use memovi.Documents.Process.Steps.{
  started_job, normalizing_job, completed_job, failed_job, get-with_job, get-with_job_ne, IsSound,
}
use memovi.Documents.Process.Outcome.{
  IsReady, is_transient, started_event, completed_event, failed_event, started_run, normalizing_run,
  completed_run, failed_run, execute_completes, execute_fails, started_row, normalizing_row,
  version_row,
}

two_events :
    (first second : DocumentEvent) (run : Run)
    → (Events.publish second (Events.publish first run.publisher)).pending
      ≡ (run.publisher.pending ++ first ∷ []) ++ second ∷ []
unfolding Events.publish
two_events first second run = refl

-- What a run that ends in `status` leaves of the jobs: the row of its own job ended at the given time
-- with its attempt kept, and the rows of the other jobs are as they were.
pub record HasEnded (run : Run) (r : ProcessingJobRecord) (status : ProcessingStatus)
    (started ended : ℕ) (reason : Option String) (after : Run) : Type 0 where
  pub job_row :
      (row : ProcessingJobRecord) × (get job_id r.id after.db.jobs ≡ some row)
      × (row.status ≡ status)
      × (row.started_at ≡ some started)
      × (row.completed_at ≡ some ended)
      × (row.failure_reason ≡ reason)
      × (row.attempt ≡ r.attempt)
  pub other_jobs : (k : String) → r.id ≢ k → get job_id k after.db.jobs ≡ get job_id k run.db.jobs

module _ (ports : Ports) (at : Instants) (run : Run) (r : ProcessingJobRecord) (d : Document)
    (v : DocumentVersion) (ready : IsReady run r d v) where
  completed-HasEnded :
      (text : Text)
      → HasEnded run r completed at.started at.completed r.failure_reason
          (completed_run at run r v text)
  unfolding write_job
  completed-HasEnded text = record {
    job_row = (
      _,
      get-with_job (completed_job at r.job) (normalizing_run at run r v text)
          (normalizing_row ports at run r d v ready text),
      refl,
      refl,
      refl,
      refl,
      refl,
    );
    other_jobs = λ k ne.
        get-with_job_ne (completed_job at r.job) (normalizing_run at run r v text) k ne
        ∙ get-with_job_ne (normalizing_job at r.job) (started_run at run r) k ne
        ∙ get-with_job_ne (started_job at r.job) run k ne;
  }

  failed-HasEnded :
      (reason : String)
      → HasEnded run r failed at.started at.failed (some reason) (failed_run at run r reason)
  unfolding write_job
  failed-HasEnded reason = record {
    job_row = (
      _,
      get-with_job (failed_job at reason r.job) (started_run at run r)
          (started_row ports at run r d v ready),
      refl,
      refl,
      refl,
      refl,
      refl,
    );
    other_jobs = λ k ne.
        get-with_job_ne (failed_job at reason r.job) (started_run at run r) k ne
        ∙ get-with_job_ne (started_job at r.job) run k ne;
  }

  -- Where the text of the document can be extracted, processing a pending job returns `completed`; it
  -- stores the normalised text in the job's version and in no other, leaves the job completed at the
  -- times of the run and every other job as it was, and announces that the processing started and
  -- completed, in this order.
  pub execute_completed :
      (text : Text)
      → extracted ports d v ≡ ok text
      → let (result, after) = execute ports at r.id run in
        (result
          ≡ ok (record {
            processing_job_id = r.id;
            processing_status = completed;
            events = started_event at r ∷ completed_event at r ∷ [];
          }))
        × HasEnded run r completed at.started at.completed r.failure_reason after
        × (get version_id v.id after.db.versions
            ≡ some (record v { normalized_content = some (normalize_text text) }))
        × ((k : String)
            → v.id ≢ k
            → get version_id k after.db.versions ≡ get version_id k run.db.versions)
        × (after.publisher.pending
            ≡ (run.publisher.pending ++ started_event at r ∷ []) ++ completed_event at r ∷ [])
  execute_completed text found = rw (execute_completes ports at run r d v ready text found) (
    refl,
    completed-HasEnded text,
    get-modify_self version_id (λ x. record x { normalized_content = some (normalize_text text) })
        (λ x. refl) v.id run.db.versions (version_row ports at run r d v ready),
    (λ k ne.
        get-modify_ne version_id (λ x. record x { normalized_content = some (normalize_text text) })
          (λ x. refl) v.id k run.db.versions ne),
    two_events (started_event at r) (completed_event at r) run,
  )

  -- Where it cannot be extracted and the exception is not transient, processing returns `failed` and
  -- raises nothing; the job is failed with the exception's message, the versions and every other job
  -- are as they were, and it is announced that the processing started and failed.
  pub execute_failed :
      (e : Error)
      → extracted ports d v ≡ err e
      → is_transient e ≡ false
      → let (result, after) = execute ports at r.id run in
        (result
          ≡ ok (record {
            processing_job_id = r.id;
            processing_status = failed;
            events = started_event at r ∷ failed_event at r (message e) ∷ [];
          }))
        × HasEnded run r failed at.started at.failed (some (message e)) after
        × (after.db.versions ≡ run.db.versions)
        × (after.publisher.pending
            ≡ (run.publisher.pending ++ started_event at r ∷ [])
              ++ failed_event at r (message e) ∷ [])
  execute_failed e found permanent = rw (execute_fails ports at run r d v ready e found permanent) (
    refl,
    failed-HasEnded (message e),
    refl,
    two_events (started_event at r) (failed_event at r (message e)) run,
  )

-- A job that is missing, or whose row is sound and not pending, is refused before anything is
-- written or announced.
pub execute_refused :
    (ports : Ports) (at : Instants) (run : Run) (id : String)
    → (get job_id id run.db.jobs ≡ none
        → execute ports at id run ≡ (err processing_job_not_found, run))
      × ((r : ProcessingJobRecord)
          → get job_id id run.db.jobs ≡ some r
          → IsSound r.job
          → same_status r.status pending ≡ false
          → execute ports at id run
            ≡ (err (invalid_processing_state "Processing job is not pending."), run))
unfolding execute load_pending_job get_by_id
execute_refused ports at run id =
    ((λ h. ground (arith, h)), λ r h sound s. ground (arith, h, sound, s))
