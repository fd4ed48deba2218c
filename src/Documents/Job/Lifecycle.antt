-- ===== src/Documents/Job/Lifecycle.antt =====
-- The transitions of a processing job's status, as a relation, and which operation makes which.
use memovi.Prelude.{
  ℕ, String, Option, ◌≡◌, refl, ◌⊎◌, inl, Bool, true, false, List, [], ◌∷◌, arith, eq_iff, not, ltb,
  subst, sym, ◌∙◌,
}
use memovi.Documents.Errors.{Result, ok, err}
use memovi.Documents.Job.{
  ProcessingJob, ProcessingStatus, pending, extracting, normalizing, completed, failed, cancelled,
  is_running, is_terminal, start, advance_to_normalizing, complete, fail, cancel, reset_to_pending,
  with_attempt,
}
use memovi.Documents.Job.Validity.{
  IsValid, Op, start_op, advance_op, complete_op, reset_op, fail_op, cancel_op, attempt_op, apply,
  apply-IsValid,
}

-- The edges of the lifecycle, each with the operation that follows it.
pub data Makes : Op → ProcessingStatus → ProcessingStatus → Type 0 where
  begin : {now : Option ℕ} → Makes (start_op now) pending extracting
  advance : {now : Option ℕ} → Makes (advance_op now) extracting normalizing
  finish : {now : Option ℕ} → Makes (complete_op now) normalizing completed
  give_up :
      {reason : Option String} {now : Option ℕ} {s : ProcessingStatus}
      → is_terminal s ≡ false
      → Makes (fail_op reason now) s failed
  stop :
      {reason : Option String} {now : Option ℕ} {s : ProcessingStatus}
      → is_terminal s ≡ false
      → Makes (cancel_op reason now) s cancelled
  interrupt :
      {now : Option ℕ} {s : ProcessingStatus} → is_running s ≡ true → Makes (reset_op now) s pending
  retry : {now : Option ℕ} → Makes (reset_op now) failed pending

-- In which statuses the documentation of the entity allows an operation on a well-formed job.
pub accepts : Op → ProcessingStatus → Bool
accepts (start_op now) pending = true
accepts (start_op now) _ = false
accepts (advance_op now) extracting = true
accepts (advance_op now) _ = false
accepts (complete_op now) normalizing = true
accepts (complete_op now) _ = false
accepts (reset_op now) completed = false
accepts (reset_op now) cancelled = false
accepts (reset_op now) _ = true
accepts (fail_op reason now) s = not (is_terminal s)
accepts (cancel_op reason now) s = not (is_terminal s)
accepts (attempt_op n) s = not (ltb n 1)

abbrev pub is_ok {ℓ} : {A : Type ℓ} → Result A → Bool
is_ok (ok a) = true
is_ok (err e) = false

-- On a well-formed job an operation succeeds exactly in the statuses that accept it.
pub apply-accepts :
    (op : Op) (clock : ℕ) (job : ProcessingJob)
    → IsValid job
    → is_ok (apply op clock job) ≡ accepts op job.status
unfolding apply accepts start advance_to_normalizing complete reset_to_pending fail cancel
    with_attempt
apply-accepts (start_op now) clock job v =
    ground (arith, eq_iff job.id "", eq_iff job.document_version_id "")
apply-accepts _ clock job v = ground (arith, eq_iff job.id "", eq_iff job.document_version_id "")

-- A successful operation leaves the status or follows its edge.
apply-Makes :
    (op : Op) (clock : ℕ) (job : ProcessingJob) {job' : ProcessingJob}
    → apply op clock job ≡ ok job'
    → (job'.status ≡ job.status) ⊎ Makes op job.status job'.status
unfolding apply start advance_to_normalizing complete reset_to_pending fail cancel with_attempt
apply-Makes (start_op now) clock job h = grind (arith, begin)
apply-Makes (advance_op now) clock job h = grind (arith, advance)
apply-Makes (complete_op now) clock job h = grind (arith, finish)
apply-Makes (reset_op now) clock job h = grind (arith, interrupt, retry)
apply-Makes (fail_op reason now) clock job h = grind (arith, give_up)
apply-Makes (cancel_op reason now) clock job h = grind (arith, stop)
apply-Makes (attempt_op n) clock job h = grind arith

-- `try: job = op(job)` with the exception passed over.
abbrev pub or_stay : Result ProcessingJob → ProcessingJob → ProcessingJob
or_stay (ok job') job = job'
or_stay (err e) job = job

-- The operations of a job one after another: one that raises leaves the job.
pub run : List (Op × ℕ) → ProcessingJob → ProcessingJob
run [] job = job
run ((op, clock) ∷ rest) job = run rest (or_stay (apply op clock job) job)

or_stay-IsValid :
    (r : Result ProcessingJob) (job : ProcessingJob)
    → ((job' : ProcessingJob) → r ≡ ok job' → IsValid job')
    → IsValid job
    → IsValid (or_stay r job)
or_stay-IsValid (ok job') job made v = made job' refl
or_stay-IsValid (err e) job made v = v

-- However the operations of a valid job are mixed, and whichever of them raise, the job stays valid.
pub run-IsValid : (ops : List (Op × ℕ)) (job : ProcessingJob) → IsValid job → IsValid (run ops job)
unfolding run
run-IsValid [] job v = v
run-IsValid ((op, clock) ∷ rest) job v =
    run-IsValid rest (or_stay (apply op clock job) job)
      (or_stay-IsValid (apply op clock job) job (λ job' h. apply-IsValid op clock job v h) v)

or_stay-Makes :
    (op : Op) (r : Result ProcessingJob) (job : ProcessingJob)
    → ((job' : ProcessingJob)
        → r ≡ ok job'
        → (job'.status ≡ job.status) ⊎ Makes op job.status job'.status)
    → ((or_stay r job).status ≡ job.status) ⊎ Makes op job.status (or_stay r job).status
or_stay-Makes op (ok job') job edge = edge job' refl
or_stay-Makes op (err e) job edge = inl refl

-- The status after each of the operations.
pub statuses : List (Op × ℕ) → ProcessingJob → List ProcessingStatus
statuses [] job = []
statuses ((op, clock) ∷ rest) job =
    let job' = or_stay (apply op clock job) job in job'.status ∷ statuses rest job'

-- From the status `s`, each operation leaves the status or follows its own edge of the lifecycle.
abbrev pub IsPath : ProcessingStatus → List (Op × ℕ) → List ProcessingStatus → Type 0
IsPath s [] [] = Unit
IsPath s ((op, clock) ∷ ops) (t ∷ ts) = ((t ≡ s) ⊎ Makes op s t) × IsPath t ops ts
IsPath s _ _ = ⊥

-- Whatever operations are tried, each of them leaves the status of the job as it is or follows an edge
-- of the lifecycle that is its own.
pub statuses-IsPath :
    (ops : List (Op × ℕ)) (job : ProcessingJob) → IsPath job.status ops (statuses ops job)
unfolding statuses
statuses-IsPath [] job = tt
statuses-IsPath ((op, clock) ∷ rest) job = (
  or_stay-Makes op (apply op clock job) job (λ job' h. apply-Makes op clock job h),
  statuses-IsPath rest (or_stay (apply op clock job) job),
)

-- The statuses that nothing leaves.
abbrev pub IsFinal : ProcessingStatus → Type 0
IsFinal s = (s ≡ completed) ⊎ (s ≡ cancelled)

apply_final :
    (op : Op) (clock : ℕ) (job : ProcessingJob)
    → IsFinal job.status
    → let job' = or_stay (apply op clock job) job in
      (job'.status ≡ job.status) × (job'.completed_at ≡ job.completed_at)
unfolding apply start advance_to_normalizing complete reset_to_pending fail cancel with_attempt
apply_final (start_op now) clock job h = ground arith
apply_final _ clock job h = ground arith

-- A completed or cancelled job keeps its status and the time at which it ended, whatever is tried.
pub run_final :
    (ops : List (Op × ℕ)) (job : ProcessingJob)
    → IsFinal job.status
    → ((run ops job).status ≡ job.status) × ((run ops job).completed_at ≡ job.completed_at)
unfolding run
run_final [] job h = (refl, refl)
run_final ((op, clock) ∷ rest) job h =
    let job' = or_stay (apply op clock job) job in
    let (same, stamp) = apply_final op clock job h in
    let (same', stamp') = run_final rest job' (subst IsFinal (sym same) h) in
    (same' ∙ same, stamp' ∙ stamp)
