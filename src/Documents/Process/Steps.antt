-- ===== src/Documents/Process/Steps.antt =====
-- The steps of a run of `ProcessDocument`, each as an equation about the state that it leaves.
use memovi.Prelude.{String, ◌≡◌, ◌≢◌, some, arith}
use memovi.Prelude.Table.{get, modify, get-modify_self, get-modify_ne}
use memovi.Events
use memovi.Documents.Errors.{Result, ok}
use memovi.Documents.Text.{Text}
use memovi.Documents.Job.{
  ProcessingJob, pending, extracting, normalizing, completed, failed, start, post_init,
  advance_to_normalizing, complete, fail,
}
use memovi.Documents.Session.{
  Db, DocumentVersion, ProcessingJobRecord, job_id, version_id, write_job, save, get_by_id,
  version_init, with_normalized_content, save_version,
}
use memovi.Documents.Process.{Run, Instants, DocumentEvent, transition_job, load_pending_job, on_db}

-- The run with the job saved, with the version's content saved, and with an event announced.
abbrev pub with_job : ProcessingJob → Run → Run
with_job job run = record run {
  db = record run.db { jobs = modify job_id job.id (write_job job) run.db.jobs };
}

abbrev pub with_content : String → Text → Run → Run
with_content id content run = record run {
  db = record run.db {
    versions =
        modify version_id id (λ v. record v { normalized_content = some content }) run.db.versions;
  };
}

abbrev pub with_event : DocumentEvent → Run → Run
with_event event run = record run { publisher = Events.publish event run.publisher }

-- The job in the statuses that a run takes it through.
abbrev pub started_job : Instants → ProcessingJob → ProcessingJob
started_job at job = record job {
  status = extracting;
  updated_at = at.started;
  started_at = some at.started;
}

abbrev pub normalizing_job : Instants → ProcessingJob → ProcessingJob
normalizing_job at job = record (started_job at job) {
  status = normalizing;
  updated_at = at.normalizing;
}

abbrev pub completed_job : Instants → ProcessingJob → ProcessingJob
completed_job at job = record (normalizing_job at job) {
  status = completed;
  updated_at = at.completed;
  completed_at = some at.completed;
}

abbrev pub failed_job : Instants → String → ProcessingJob → ProcessingJob
failed_job at reason job = record (started_job at job) {
  status = failed;
  updated_at = at.failed;
  completed_at = some at.failed;
  failure_reason = some reason;
}

-- The entity's checks pass on the job.
abbrev pub IsSound : ProcessingJob → Type 0
IsSound job = post_init job ≡ ok job

module _ (at : Instants) (job : ProcessingJob) (sound : IsSound job) where
  pub start_lem :
      job.status ≡ pending → start (some at.started) at.started job ≡ ok (started_job at job)
  unfolding start post_init
  start_lem waiting = ground arith

  pub advance_lem :
      advance_to_normalizing (some at.normalizing) at.normalizing (started_job at job)
      ≡ ok (normalizing_job at job)
  unfolding advance_to_normalizing post_init
  advance_lem = ground arith

  pub complete_lem :
      complete (some at.completed) at.completed (normalizing_job at job) ≡ ok (completed_job at job)
  unfolding complete post_init
  complete_lem = ground arith

  pub fail_lem :
      (reason : String)
      → fail (some reason) (some at.failed) at.failed (started_job at job)
        ≡ ok (failed_job at reason job)
  unfolding fail post_init
  fail_lem reason = ground arith

pub save_lem :
    (job : ProcessingJob) (db : Db) {r : ProcessingJobRecord}
    → get job_id job.id db.jobs ≡ some r
    → save job db ≡ (ok tt, record db { jobs = modify job_id job.id (write_job job) db.jobs })
unfolding save
save_lem job db row = rw (row, save)

pub job_id-write_job :
    (job : ProcessingJob) (r : ProcessingJobRecord) → job_id (write_job job r) ≡ job_id r
unfolding write_job
job_id-write_job job r = ground arith

-- A transition that succeeds is saved, where the row is there.
pub transition_job_lem :
    (f : ProcessingJob → Result ProcessingJob) (job job' : ProcessingJob) (run : Run)
    {r : ProcessingJobRecord}
    → f job ≡ ok job'
    → get job_id job'.id run.db.jobs ≡ some r
    → transition_job f job run ≡ (ok job', with_job job' run)
unfolding transition_job
transition_job_lem f job job' run made row = rw made (rw (save_lem job' run.db row))

pub get-with_job :
    (job : ProcessingJob) (run : Run) {r : ProcessingJobRecord}
    → get job_id job.id run.db.jobs ≡ some r
    → get job_id job.id (with_job job run).db.jobs ≡ some (write_job job r)
get-with_job job run row =
    get-modify_self job_id (write_job job) (job_id-write_job job) job.id run.db.jobs row

pub get-with_job_ne :
    (job : ProcessingJob) (run : Run) (k : String)
    → job.id ≢ k
    → get job_id k (with_job job run).db.jobs ≡ get job_id k run.db.jobs
get-with_job_ne job run k ne =
    get-modify_ne job_id (write_job job) (job_id-write_job job) job.id k run.db.jobs ne

pub load_lem :
    (run : Run) (r : ProcessingJobRecord)
    → get job_id r.id run.db.jobs ≡ some r
    → IsSound r.job
    → r.status ≡ pending
    → load_pending_job r.id run ≡ (ok r.job, run)
unfolding load_pending_job get_by_id
load_lem run r row sound waiting = ground (arith, row, sound, waiting)

pub content_lem :
    (content : Text) (v : DocumentVersion)
    → version_init v ≡ ok v
    → with_normalized_content content v ≡ ok (record v { normalized_content = some content })
unfolding with_normalized_content version_init
content_lem content v sound = ground arith

pub save_version_lem :
    (content : Text) (v : DocumentVersion) (run : Run)
    → get version_id v.id run.db.versions ≡ some v
    → on_db (save_version (record v { normalized_content = some content })) run
      ≡ (ok tt, with_content v.id content run)
unfolding save_version
save_version_lem content v run row = rw (row, save_version)
