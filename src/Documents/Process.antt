-- ===== src/Documents/Process.antt =====
-- packages/documents/src/documents/application/commands/process_document.py and fail_processing.py:
-- one run of the processing of a job. The object storage, the text extraction of PDF files and the
-- decoding of bytes are parameters; the clock's readings are given in the order in which they are made.
pub mod Steps
pub mod Outcome
pub mod Views
use memovi.Prelude.{
  ℕ, String, concat, Bool, true, false, not, Option, none, some, List, [], ◌∷◌, ◌++◌, str_eq,
  if◌then◌else◌,
}
use memovi.Events
use memovi.Events.{TransactionScopedEventPublisher}
use memovi.Documents.Errors.{
  Error, Result, ok, err, invalid_processing_job, invalid_processing_transition,
  invalid_processing_state, processing_job_not_found, document_not_found,
  document_version_not_found, document_processing, unsupported_processor,
  transient_document_processing, os_error, value_error, runtime_error, invalid_document_version,
}
use memovi.Documents.Text.{Text, normalize_text, strip}
use memovi.Documents.Job.{
  ProcessingJob, ProcessingStatus, pending, same_status, start, advance_to_normalizing, complete,
  fail,
}
use memovi.Documents.Session.{
  Action, pure, raise, ◌>>=◌, ◌>>◌, catching, Db, Document, DocumentVersion, get_by_id, save,
  get_document, get_version_by_id, save_version, with_normalized_content,
}

-- domain/events
pub data DocumentEvent : Type 0 where
  processing_started : String → String → ℕ → DocumentEvent
  processing_completed : String → String → ℕ → DocumentEvent
  processing_failed : String → String → ℕ → Option String → DocumentEvent

-- `str(exc)` of an exception that the processing of a job can meet.
abbrev pub message : Error → String
message (invalid_processing_job m) = m
message (invalid_processing_transition m) = m
message (invalid_processing_state m) = m
message (invalid_document_version m) = m
message processing_job_not_found = "Processing job was not found."
message document_not_found = "Document was not found."
message document_version_not_found = "Document version was not found."
message (document_processing m) = m
message (unsupported_processor m) = m
message (transient_document_processing m) = m
message (os_error m) = m
message (value_error m) = m
message (runtime_error m) = m

-- What the package uses of libraries that it does not implement.
pub record Ports : Type 1 where
  pub Bytes : Type 0
  -- ObjectStorage.get_object
  pub get_object : String → Result Bytes
  -- `content.decode("utf-8")`, `none` for UnicodeDecodeError
  pub decode : Bytes → Option Text
  -- The texts of a PDF's pages joined by line feeds, `none` for PyPdfError
  pub pdf_text : Bytes → Option Text

-- infrastructure/processors/*.py
pub data Processor : Type 0 where
  pdf markdown plain_text : Processor

-- DefaultProcessorRegistry.processor_for. A MIME type is stripped and in lower case already.
unfoldable pub processor_for : String → Result Processor
processor_for mime_type =
    if str_eq mime_type "application/pdf"
    then ok pdf
    else if str_eq mime_type "text/markdown"
    then ok markdown
    else if str_eq mime_type "text/x-markdown"
    then ok markdown
    else if str_eq mime_type "text/plain"
    then ok plain_text
    else err (
        unsupported_processor
          (concat "No processor is registered for MIME type '" (concat mime_type "'.")))

-- `if not extracted.strip(): raise`
abbrev unless_blank : Text → Text → Error → Result Text
unless_blank [] shown e = err e
unless_blank (c ∷ rest) shown e = ok shown

abbrev or_unreadable : (Text → Result Text) → Option Text → Error → Result Text
or_unreadable k none e = err e
or_unreadable k (some text) e = k text

-- The state of a run: the session's view of the database and the publisher's buffer.
pub record Run : Type 0 where
  pub db : Db
  pub publisher : TransactionScopedEventPublisher DocumentEvent Error

-- The readings of the clock in one run.
pub record Instants : Type 0 where
  pub started : ℕ
  pub normalizing : ℕ
  pub completed : ℕ
  pub announced : ℕ
  pub failed : ℕ

pub record ProcessDocumentResult : Type 0 where
  pub processing_job_id : String
  pub processing_status : ProcessingStatus
  pub events : List DocumentEvent

abbrev rewrap : {A : Type 0} → Run → Result A × Db → Result A × Run
rewrap run (r, db) = (r, record run { db = db })

abbrev on_db : {A : Type 0} → Action Db A → Action Run A
on_db m run = rewrap run (m run.db)

unfoldable pub announce : DocumentEvent → Action Run (Unit {0})
announce event run = (ok tt, record run { publisher = Events.publish event run.publisher })

-- `except InvalidProcessingTransitionError as exc: raise InvalidProcessingStateError(str(exc))`
abbrev pub as_state_error : Result ProcessingJob → Result ProcessingJob
as_state_error (ok job) = ok job
as_state_error (err (invalid_processing_transition m)) = err (invalid_processing_state m)
as_state_error (err e) = err e

abbrev store : Result ProcessingJob → Action Run ProcessingJob
store (err e) = raise e
store (ok updated) = on_db (save updated) >> pure updated

-- `_transition`
unfoldable pub transition_job :
    (ProcessingJob → Result ProcessingJob) → ProcessingJob → Action Run ProcessingJob
transition_job transition job = store (as_state_error (transition job))

-- `_fail`
unfoldable pub fail_job :
    Instants → String → List DocumentEvent → ProcessingJob → Action Run ProcessDocumentResult
unfolding transition_job announce
fail_job at reason prior_events job = do
  updated ← transition_job (fail (some reason) (some at.failed) at.failed) job
  let failed_event = processing_failed updated.document_id updated.id at.failed (some reason)
  announce failed_event
  pure (record {
    processing_job_id = updated.id;
    processing_status = updated.status;
    events = prior_events ++ failed_event ∷ [];
  })

-- The `except Exception` clause: a transient exception is raised as such, any other fails the job.
unfoldable pub recover_from :
    Instants → List DocumentEvent → ProcessingJob → Error → Action Run ProcessDocumentResult
recover_from at events job (os_error m) = raise (transient_document_processing m)
recover_from at events job e = fail_job at (message e) events job

abbrev pending_only : Result (Option ProcessingJob) → Action Run ProcessingJob
pending_only (err e) = raise e
pending_only (ok none) = raise processing_job_not_found
pending_only (ok (some job)) =
    if same_status job.status pending
    then pure job
    else raise (invalid_processing_state "Processing job is not pending.")

-- `_load_pending_job`
unfoldable pub load_pending_job : String → Action Run ProcessingJob
load_pending_job id run = pending_only (get_by_id id run.db) run

abbrev or_missing_document : Option Document → Result Document
or_missing_document none = err document_not_found
or_missing_document (some d) = ok d

abbrev or_missing_version : Result (Option DocumentVersion) → Result DocumentVersion
or_missing_version (err e) = err e
or_missing_version (ok none) = err document_version_not_found
or_missing_version (ok (some v)) = ok v

module _ (ports : Ports) where
  open ports use {Bytes, get_object, decode, pdf_text}

  unfoldable pub extract_text : Processor → Bytes → Result Text
  extract_text pdf content =
      or_unreadable
        (λ text.
          unless_blank (strip text) (strip text)
            (document_processing "PDF content did not contain extractable text."))
        (pdf_text content) (document_processing "PDF content could not be extracted.")
  extract_text markdown content =
      or_unreadable
        (λ text. unless_blank (strip text) text (document_processing "Markdown content is empty."))
        (decode content) (document_processing "Markdown content is not valid UTF-8.")
  extract_text plain_text content =
      or_unreadable
        (λ text.
          unless_blank (strip text) text (document_processing "Plain text content is empty."))
        (decode content) (document_processing "Plain text content is not valid UTF-8.")

  abbrev extract_by : Result Processor → Bytes → Result Text
  extract_by (err e) content = err e
  extract_by (ok processor) content = extract_text processor content

  abbrev fetched : Document → Result Bytes → Result Text
  fetched document (err e) = err e
  fetched document (ok artifact) = extract_by (processor_for document.mime_type) artifact

  -- The first three statements of the `try` block.
  unfoldable pub extracted : Document → DocumentVersion → Result Text
  unfolding extract_text processor_for
  extracted document version = fetched document (get_object version.storage_key)

  -- The `try` block, with its handler at each statement that may raise: `job` is the job that the
  -- variable holds there.
  unfoldable pub transform :
      Instants
      → List DocumentEvent
      → Document
      → DocumentVersion
      → ProcessingJob
      → Action Run ProcessDocumentResult
  unfolding announce
  transform at events document version job =
      catching (λ run. (extracted document version, run)) (recover_from at events job)
        λ text.
          catching
            (transition_job (advance_to_normalizing (some at.normalizing) at.normalizing) job)
            (recover_from at events job)
            λ job.
              catching (λ run. (with_normalized_content (normalize_text text) version, run))
                (recover_from at events job)
                λ updated. catching (on_db (save_version updated)) (recover_from at events job) λ _.
                  catching (transition_job (complete (some at.completed) at.completed) job)
                    (recover_from at events job)
                    λ job.
                      let completed_event =
                        processing_completed job.document_id job.id at.announced in
                      catching (announce completed_event) (recover_from at events job) λ _.
                        pure (record {
                          processing_job_id = job.id;
                          processing_status = job.status;
                          events = events ++ completed_event ∷ [];
                        })

  -- `execute`
  unfoldable pub execute : Instants → String → Action Run ProcessDocumentResult
  unfolding announce
  execute at processing_job_id = do
    job ← load_pending_job processing_job_id
    document ← (λ run. (or_missing_document (get_document job.document_id run.db), run))
    version ← (λ run. (or_missing_version (get_version_by_id job.document_version_id run.db), run))
    job ← transition_job (start (some at.started) at.started) job
    let started_event = processing_started job.document_id job.id at.started
    announce started_event
    transform at (started_event ∷ []) document version job
