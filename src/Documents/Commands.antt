-- ===== src/Documents/Commands.antt =====
-- packages/documents/src/documents/application/commands: start_processing.py, complete_processing.py,
-- fail_processing.py and reprocess_document.py. Each is an action on the database in one session.
pub mod Latest
pub mod Reprocess
use memovi.Prelude.{ℕ, String, Bool, Option, none, some, List, [], ◌∷◌, leb, str_eq, if◌then◌else◌}
use memovi.Prelude.Table.{get}
use memovi.Documents.Errors.{
  Result, ok, err, processing_job_not_found, invalid_processing_transition, document_not_found,
  document_version_not_found,
}
use memovi.Documents.Job.{ProcessingJob, start, complete, fail, cancel, create_pending, is_terminal}
use memovi.Documents.Session.{
  Action, pure, raise, ◌>>=◌, ◌>>◌, Db, Document, DocumentVersion, ProcessingJobRecord, document_id,
  get_by_id, save, add, to_domain, to_version,
}
use memovi.Documents.Process.{
  DocumentEvent, processing_started, processing_completed, processing_failed, as_state_error,
}

abbrev required : Result (Option ProcessingJob) → Result ProcessingJob
required (err e) = err e
required (ok none) = err processing_job_not_found
required (ok (some job)) = ok job

-- The body that the three commands share: load, make the transition, save.
unfoldable pub update_job :
    (ProcessingJob → Result ProcessingJob) → String → Action Db ProcessingJob
update_job transition id = do
  job ← (λ db. (required (get_by_id id db), db))
  updated ← (λ db. (as_state_error (transition job), db))
  save updated
  pure updated

unfoldable pub start_processing : ℕ → String → Action Db (String × DocumentEvent)
unfolding update_job
start_processing now id = do
  updated ← update_job (start (some now) now) id
  pure (updated.id, processing_started updated.document_id updated.id now)

unfoldable pub complete_processing : ℕ → String → Action Db (String × DocumentEvent)
unfolding update_job
complete_processing now id = do
  updated ← update_job (complete (some now) now) id
  pure (updated.id, processing_completed updated.document_id updated.id now)

unfoldable pub fail_processing : ℕ → String → Option String → Action Db (String × DocumentEvent)
unfolding update_job
fail_processing now id reason = do
  updated ← update_job (fail reason (some now) now) id
  pure (updated.id, processing_failed updated.document_id updated.id now reason)

-- The last row by a stamp, of those that belong to something: `.order_by(stamp.desc()).first()`.
abbrev pub later_of {ℓ} : {R : Type ℓ} → (R → ℕ) → R → Option R → Option R
later_of stamp r none = some r
later_of stamp r (some s) = if leb (stamp s) (stamp r) then some r else some s

unfoldable pub latest_by {ℓ} : {R : Type ℓ} → (R → Bool) → (R → ℕ) → List R → Option R
latest_by belongs stamp [] = none
latest_by belongs stamp (r ∷ rs) =
    let rest = latest_by belongs stamp rs in if belongs r then later_of stamp r rest else rest

-- SqlAlchemyProcessingJobRepository.get_by_document_id: the row created last, of those that have the
-- document.
abbrev pub has_document : String → ProcessingJobRecord → Bool
has_document document r = str_eq r.document_id document

unfoldable pub latest_row : String → List ProcessingJobRecord → Option ProcessingJobRecord
latest_row document = latest_by (has_document document) (λ r. r.created_at)

unfoldable pub get_by_document_id : String → Db → Result (Option ProcessingJob)
unfolding latest_row
get_by_document_id document db = to_domain (latest_row document db.jobs)

-- SqlAlchemyDocumentRepository.get_latest_version
abbrev pub is_version_of : String → DocumentVersion → Bool
is_version_of document v = str_eq v.document_id document

unfoldable pub latest_version : String → List DocumentVersion → Option DocumentVersion
latest_version document = latest_by (is_version_of document) (λ v. v.version_number)

-- SqlAlchemyDocumentRepository.get_by_id: the document, if it is of the workspace.
abbrev in_workspace : String → Option Document → Result Document
in_workspace workspace none = err document_not_found
in_workspace workspace (some d) =
    if str_eq d.workspace_id workspace then ok d else err document_not_found

abbrev stored_version : Result (Option DocumentVersion) → Result DocumentVersion
stored_version (err e) = err e
stored_version (ok none) = err document_version_not_found
stored_version (ok (some v)) = ok v

-- `try: cancelled = latest.cancel(...)`, `except InvalidProcessingTransitionError: return`, `save`.
abbrev save_cancelled : Result ProcessingJob → Action Db (Unit {0})
save_cancelled (ok cancelled) = save cancelled
save_cancelled (err (invalid_processing_transition m)) = pure tt
save_cancelled (err e) = raise e

abbrev cancel_latest : ℕ → Result (Option ProcessingJob) → Action Db (Unit {0})
cancel_latest now (err e) = raise e
cancel_latest now (ok none) = pure tt
cancel_latest now (ok (some latest)) =
    if is_terminal latest.status
    then pure tt
    else save_cancelled (cancel (some "Superseded by document reprocess.") (some now) now latest)

-- `_cancel_active_jobs`
unfoldable pub cancel_active_jobs : ℕ → String → Action Db (Unit {0})
cancel_active_jobs now document db = cancel_latest now (get_by_document_id document db) db

-- ReprocessDocument.execute; `uuid` is the identifier of the new job, and the clock is read twice.
unfoldable pub reprocess_document : String → ℕ → ℕ → String → String → Action Db ProcessingJob
reprocess_document uuid cancelled_at created_at document workspace = do
  d ← (λ db. (in_workspace workspace (get document_id document db.documents), db))
  version ← (λ db. (stored_version (to_version (latest_version document db.versions)), db))
  cancel_active_jobs cancelled_at document
  job ← (λ db. (create_pending uuid document version.id (some workspace) none created_at, db))
  (λ db. (ok tt, add job db))
  pure job
