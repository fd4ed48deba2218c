-- ===== src/Documents/Job/Validity.antt =====
-- What holds of every processing job that the entity's constructors and methods make.
use memovi.Prelude.{ℕ, String, ◌≤◌, ◌≡◌, ◌≢◌, ◌⊎◌, true, Option, none, is_some, arith, eq_iff}
use memovi.Documents.Errors.{Result, ok}
use memovi.Documents.Job.{
  ProcessingJob, pending, completed, failed, cancelled, is_running, is_terminal, create_pending,
  start, advance_to_normalizing, complete, fail, cancel, reset_to_pending, with_attempt,
}

-- The checks of `__post_init__`, and how the stamps follow the status.
pub record IsValid (job : ProcessingJob) : Type 0 where
  pub has_id : job.id ≢ ""
  pub has_version : job.document_version_id ≢ ""
  pub attempted : 1 ≤ job.attempt
  pub waiting : job.status ≡ pending → (job.started_at ≡ none) × (job.completed_at ≡ none)
  pub running :
      is_running job.status ≡ true → (is_some job.started_at ≡ true) × (job.completed_at ≡ none)
  pub finished : is_terminal job.status ≡ true → is_some job.completed_at ≡ true
  pub ran : job.status ≡ completed → is_some job.started_at ≡ true
  pub excused : is_some job.failure_reason ≡ true → (job.status ≡ failed) ⊎ (job.status ≡ cancelled)

-- An operation of the entity on a job.
pub data Op : Type 0 where
  start_op advance_op complete_op reset_op : Option ℕ → Op
  fail_op cancel_op : Option String → Option ℕ → Op
  attempt_op : ℕ → Op

unfoldable pub apply : Op → ℕ → ProcessingJob → Result ProcessingJob
apply (start_op now) clock job = start now clock job
apply (advance_op now) clock job = advance_to_normalizing now clock job
apply (complete_op now) clock job = complete now clock job
apply (reset_op now) clock job = reset_to_pending now clock job
apply (fail_op reason now) clock job = fail reason now clock job
apply (cancel_op reason now) clock job = cancel reason now clock job
apply (attempt_op n) clock job = with_attempt n job

pub create_pending-IsValid :
    (uuid document version : String) (workspace : Option String) (now : Option ℕ) (clock : ℕ)
    {job : ProcessingJob}
    → create_pending uuid document version workspace now clock ≡ ok job
    → IsValid job
unfolding create_pending
create_pending-IsValid uuid document version workspace now clock {job} h =
    ground (arith, eq_iff uuid "", eq_iff version "")

-- Every operation that succeeds on a valid job makes a valid job.
pub apply-IsValid :
    (op : Op) (clock : ℕ) (job : ProcessingJob) {job' : ProcessingJob}
    → IsValid job
    → apply op clock job ≡ ok job'
    → IsValid job'
unfolding apply start advance_to_normalizing complete reset_to_pending fail cancel with_attempt
apply-IsValid (start_op now) clock job v h =
    ground (arith, eq_iff job.id "", eq_iff job.document_version_id "")
apply-IsValid _ clock job v h = ground (arith, eq_iff job.id "", eq_iff job.document_version_id "")
