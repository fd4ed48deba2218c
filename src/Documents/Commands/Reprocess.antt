-- ===== src/Documents/Commands/Reprocess.antt =====
-- What ReprocessDocument leaves of the jobs of a document.
use memovi.Prelude.{
  ℕ, String, ◌≡◌, refl, ap, ◌∙◌, inl, inr, false, Option, none, some, List, [], ◌∷◌, ◌++◌, str_eq,
  eq_refl, arith, Bool-cases, if◌then◌else◌,
}
use memovi.Prelude.Table.{get, modify, Unique, get_of_In}
use memovi.Documents.Errors.{ok}
use memovi.Documents.Job.{
  ProcessingJob, pending, cancelled, is_terminal, cancel, create_pending, post_init,
}
use memovi.Documents.Session.{
  Db, Document, DocumentVersion, ProcessingJobRecord, job_id, document_id, write_job, add,
  to_domain, to_version, version_init,
}
use memovi.Documents.Process.Steps.{IsSound, save_lem}
use memovi.Documents.Commands.{
  latest_version, latest_row, has_document, is_version_of, cancel_active_jobs, get_by_document_id,
  reprocess_document,
}
use memovi.Documents.Commands.Latest.{IsLatest, latest_by_lem}

-- The job that was the latest, and the one that takes its place.
abbrev pub superseded : ℕ → ProcessingJob → ProcessingJob
superseded now job = record job {
  status = cancelled;
  updated_at = now;
  completed_at = some now;
  failure_reason = some "Superseded by document reprocess.";
}

abbrev pub new_job : String → ℕ → String → String → String → ProcessingJob
new_job uuid now document version workspace = record {
  id = uuid;
  document_id = document;
  document_version_id = version;
  status = pending;
  created_at = now;
  updated_at = now;
  failure_reason = none;
  attempt = 1;
  request_id = none;
  workspace_id = some workspace;
  started_at = none;
  completed_at = none;
}

cancel_lem :
    (now : ℕ) (job : ProcessingJob)
    → IsSound job
    → is_terminal job.status ≡ false
    → cancel (some "Superseded by document reprocess.") (some now) now job ≡ ok (superseded now job)
unfolding cancel post_init
cancel_lem now job sound active = ground arith

create_pending_lem :
    (uuid : String) (now : ℕ) (document version workspace : String)
    → str_eq uuid "" ≡ false
    → str_eq version "" ≡ false
    → create_pending uuid document version (some workspace) none now
      ≡ ok (new_job uuid now document version workspace)
unfolding create_pending post_init
create_pending_lem uuid now document version workspace u v = ground arith

-- The rows once the latest one, if there is one and it is not terminal, is cancelled as superseded.
abbrev pub settled_jobs :
    ℕ → Option ProcessingJobRecord → List ProcessingJobRecord → List ProcessingJobRecord
settled_jobs now none jobs = jobs
settled_jobs now (some r) jobs =
    if is_terminal r.status
    then jobs
    else modify job_id r.id (write_job (superseded now r.job)) jobs

abbrev pub IsSoundRow : Option ProcessingJobRecord → Type 0
IsSoundRow none = Unit
IsSoundRow (some r) = IsSound r.job

abbrev pub IsLatestRow : String → Db → Option ProcessingJobRecord → Type 0
IsLatestRow document db = IsLatest (has_document document) (λ r. r.created_at) db.jobs

abbrev pub IsLatestVersion : String → Db → DocumentVersion → Type 0
IsLatestVersion document db v =
    IsLatest (is_version_of document) (λ w. w.version_number) db.versions (some v)

abbrev job_of : Option ProcessingJobRecord → Option ProcessingJob
job_of none = none
job_of (some r) = some r.job

domain_lem :
    (latest : Option ProcessingJobRecord)
    → IsSoundRow latest
    → to_domain latest ≡ ok (job_of latest)
domain_lem none sound = refl
domain_lem (some r) sound = ground (arith, sound)

get_latest_job :
    (document : String) (db : Db) (latest : Option ProcessingJobRecord)
    → IsLatestRow document db latest
    → IsSoundRow latest
    → get_by_document_id document db ≡ ok (job_of latest)
unfolding get_by_document_id latest_row
get_latest_job document db latest is_latest sound =
    ap to_domain
      (latest_by_lem (has_document document) (λ r. r.created_at) db.jobs latest is_latest)
    ∙ domain_lem latest sound

version_lem : (v : DocumentVersion) → version_init v ≡ ok v → to_version (some v) ≡ ok (some v)
version_lem v sound = ground (arith, sound)

get_latest_version :
    (document : String) (db : Db) (v : DocumentVersion)
    → IsLatestVersion document db v
    → version_init v ≡ ok v
    → to_version (latest_version document db.versions) ≡ ok (some v)
unfolding latest_version
get_latest_version document db v is_latest sound =
    ap to_version (
      latest_by_lem (is_version_of document) (λ w. w.version_number) db.versions (some v) is_latest)
    ∙ version_lem v sound

cancel_active_jobs_lem :
    (now : ℕ) (document : String) (db : Db) (latest : Option ProcessingJobRecord)
    → IsLatestRow document db latest
    → Unique job_id db.jobs
    → IsSoundRow latest
    → cancel_active_jobs now document db
      ≡ (ok tt, record db { jobs = settled_jobs now latest db.jobs })
unfolding cancel_active_jobs
cancel_active_jobs_lem now document db none is_latest unique sound =
    rw (get_latest_job document db none is_latest sound) refl
cancel_active_jobs_lem now document db (some r) is_latest unique sound =
    elim (Bool-cases (is_terminal r.status)) [
      | inl e ↦ rw (get_latest_job document db (some r) is_latest sound, e) refl
      | inr e ↦
          rw (get_latest_job document db (some r) is_latest sound, e, cancel_lem now r.job sound e)
            (save_lem (superseded now r.job) db (get_of_In job_id db.jobs unique is_latest.0))
    ]

-- A document of the workspace has a latest version: any other of its versions has a lower number.
-- Reprocessing it cancels its latest job as superseded, if there is a job and the latest, which is
-- created after any other of the document, is not terminal; it adds a pending job for the latest
-- version at the end of the table, and changes nothing else.
pub reprocess_document_lem :
    (uuid : String) (cancelled_at created_at : ℕ) (db : Db) (d : Document) (v : DocumentVersion)
    (latest : Option ProcessingJobRecord)
    → get document_id d.id db.documents ≡ some d
    → IsLatestVersion d.id db v
    → version_init v ≡ ok v
    → IsLatestRow d.id db latest
    → IsSoundRow latest
    → Unique job_id db.jobs
    → str_eq uuid "" ≡ false
    → str_eq v.id "" ≡ false
    → reprocess_document uuid cancelled_at created_at d.id d.workspace_id db ≡ (
      ok (new_job uuid created_at d.id v.id d.workspace_id),
      record db {
        jobs =
            settled_jobs cancelled_at latest db.jobs
            ++ record {
              job = new_job uuid created_at d.id v.id d.workspace_id;
              available_at = some created_at;
              claimed_at = none;
            }
              ∷ [];
      },
    )
unfolding reprocess_document add
reprocess_document_lem uuid cancelled_at created_at db d v latest stored version version_sound
      is_latest sound unique u w =
    rw
      (
        stored,
        eq_refl d.workspace_id,
        get_latest_version d.id db v version version_sound,
        cancel_active_jobs_lem cancelled_at d.id db latest is_latest unique sound,
        create_pending_lem uuid created_at d.id v.id d.workspace_id u w,
      )
      refl
