-- ===== src/Documents/Job.antt =====
-- packages/documents/src/documents/domain/entities/processing_job.py and
-- domain/enums/processing_status.py: the entity that tracks the processing of a document version.
-- A `datetime` is the number of microseconds since an epoch. Where the source reads the clock because
-- the caller gave no `now`, the reading is the argument `clock`.
pub mod Lifecycle
pub mod Validity
use memovi.Prelude.{
  ℕ, String, concat, Bool, true, false, not, Option, none, some, str_eq, ltb, get_or,
}
use memovi.Documents.Errors.{
  Result, ok, err, ◌>>=◌, ◌>>◌, require, invalid_processing_job, invalid_processing_transition,
}

pub data ProcessingStatus : Type 0 where
  pending extracting normalizing completed failed cancelled : ProcessingStatus

-- The text of the enum's member, which an f-string shows.
abbrev pub value : ProcessingStatus → String
value pending = "pending"
value extracting = "extracting"
value normalizing = "normalizing"
value completed = "completed"
value failed = "failed"
value cancelled = "cancelled"

-- Membership of _TERMINAL_STATUSES.
abbrev pub is_terminal : ProcessingStatus → Bool
is_terminal completed = true
is_terminal failed = true
is_terminal cancelled = true
is_terminal _ = false

-- Membership of _RUNNING_STATUSES.
abbrev pub is_running : ProcessingStatus → Bool
is_running extracting = true
is_running normalizing = true
is_running _ = false

abbrev pub same_status : ProcessingStatus → ProcessingStatus → Bool
same_status pending pending = true
same_status extracting extracting = true
same_status normalizing normalizing = true
same_status completed completed = true
same_status failed failed = true
same_status cancelled cancelled = true
same_status _ _ = false

pub record ProcessingJob : Type 0 where
  pub id : String
  pub document_id : String
  pub document_version_id : String
  pub status : ProcessingStatus
  pub created_at : ℕ
  pub updated_at : ℕ
  pub failure_reason : Option String
  pub attempt : ℕ
  pub request_id : Option String
  pub workspace_id : Option String
  pub started_at : Option ℕ
  pub completed_at : Option ℕ

-- `__post_init__`, which `replace` runs too: the job is made only if the checks pass.
unfoldable pub post_init : ProcessingJob → Result ProcessingJob
post_init job = do
  require (invalid_processing_job "Processing job ID is required.") (not (str_eq job.id ""))
  require (invalid_processing_job "Document version ID is required.")
      (not (str_eq job.document_version_id ""))
  require (invalid_processing_job "Processing job attempt must be at least 1.")
      (not (ltb job.attempt 1))
  ok job

-- `uuid` is the identifier that `uuid.uuid4()` returned.
unfoldable pub create_pending :
    String → String → String → Option String → Option ℕ → ℕ → Result ProcessingJob
unfolding post_init
create_pending uuid document_id document_version_id workspace_id now clock =
    let timestamp = get_or now clock in
    post_init (record {
      id = uuid;
      document_id = document_id;
      document_version_id = document_version_id;
      status = pending;
      created_at = timestamp;
      updated_at = timestamp;
      failure_reason = none;
      attempt = 1;
      request_id = none;
      workspace_id = workspace_id;
      started_at = none;
      completed_at = none;
    })

-- `if x is not None: updates[...] = x`.
abbrev or_keep : Option ℕ → Option ℕ → Option ℕ
or_keep none old = old
or_keep (some x) old = some x

-- f"Processing job in status '{self.status}'" followed by the rest of the message.
abbrev pub in_status : ProcessingStatus → String → String
in_status status rest =
    concat "Processing job in status '" (concat (value status) (concat "' " rest))

-- `_transition`, with its keyword arguments in the order of the source.
transition :
    ProcessingStatus
    → ProcessingStatus
    → Option ℕ
    → Option ℕ
    → Option ℕ
    → ℕ
    → ProcessingJob
    → Result ProcessingJob
unfolding post_init
transition expected next_status now started_at completed_at clock job = do
  require
      (invalid_processing_transition
        (in_status job.status (concat "cannot transition to '" (concat (value next_status) "'."))))
      (same_status job.status expected)
  post_init (record job {
    status = next_status;
    updated_at = get_or now clock;
    started_at = or_keep started_at job.started_at;
    completed_at = or_keep completed_at job.completed_at;
  })

unfoldable pub start : Option ℕ → ℕ → ProcessingJob → Result ProcessingJob
unfolding transition
start now clock job =
    let timestamp = get_or now clock in
    transition pending extracting (some timestamp) (some timestamp) none clock job

unfoldable pub advance_to_normalizing : Option ℕ → ℕ → ProcessingJob → Result ProcessingJob
unfolding transition
advance_to_normalizing now clock job = transition extracting normalizing now none none clock job

unfoldable pub complete : Option ℕ → ℕ → ProcessingJob → Result ProcessingJob
unfolding transition
complete now clock job =
    let timestamp = get_or now clock in
    transition normalizing completed (some timestamp) none (some timestamp) clock job

-- The common body of `fail` and `cancel`: the source writes it twice.
close_as :
    ProcessingStatus → String → Option String → Option ℕ → ℕ → ProcessingJob → Result ProcessingJob
unfolding post_init
close_as final cannot reason now clock job = do
  require (invalid_processing_transition (in_status job.status cannot))
      (not (is_terminal job.status))
  let timestamp = get_or now clock
  post_init (record job {
    status = final;
    updated_at = timestamp;
    completed_at = some timestamp;
    failure_reason = reason;
  })

unfoldable pub fail : Option String → Option ℕ → ℕ → ProcessingJob → Result ProcessingJob
unfolding close_as
fail reason now clock job = close_as failed "cannot fail." reason now clock job

unfoldable pub cancel : Option String → Option ℕ → ℕ → ProcessingJob → Result ProcessingJob
unfolding close_as
cancel reason now clock job = close_as cancelled "cannot be cancelled." reason now clock job

abbrev reset_by : ProcessingStatus → ℕ → ProcessingJob → Result ProcessingJob
reset_by completed timestamp job =
    err (invalid_processing_transition "Completed processing jobs cannot be reset to pending.")
reset_by cancelled timestamp job =
    err (invalid_processing_transition "Cancelled processing jobs cannot be reset to pending.")
reset_by pending timestamp job = ok job
reset_by _ timestamp job = post_init (record job {
  status = pending;
  updated_at = timestamp;
  failure_reason = none;
  started_at = none;
  completed_at = none;
})

unfoldable pub reset_to_pending : Option ℕ → ℕ → ProcessingJob → Result ProcessingJob
unfolding post_init
reset_to_pending now clock job = reset_by job.status (get_or now clock) job

unfoldable pub with_attempt : ℕ → ProcessingJob → Result ProcessingJob
unfolding post_init
with_attempt attempt job = do
  require (invalid_processing_job "Processing job attempt must be at least 1.")
      (not (ltb attempt 1))
  post_init (record job { attempt = attempt })
