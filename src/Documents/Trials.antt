-- ===== src/Documents/Trials.antt =====
-- Theorems on the queue, the job, the events, the text and the commands at concrete inputs.
use mathlib.Core.List.{Memᴰ}
use memovi.Prelude.{
  inl, inr, arith, ℕ, ◌≡◌, refl, true, false, none, some, List, [], ◌∷◌, ◌++◌, arith, eq_iff, ◌⊎◌,
  inr, All,
}
use memovi.Prelude.Table.{get}
use memovi.Events.{InProcessEventDispatcher, run_handlers, flush}
use memovi.Events.Flush.{flush_delivers, flush_raises, flush_redelivers}
use memovi.Documents.Errors.{Error, ok, os_error}
use memovi.Documents.Text.{normalize_text, strip}
use memovi.Documents.Text.Normal.{IsPlain, normalize_text-IsPlain}
use memovi.Documents.Job.{pending, extracting, cancelled, post_init}
use memovi.Documents.Job.Validity.{IsValid, Op, start_op, complete_op, reset_op, fail_op, apply}
use memovi.Documents.Job.Lifecycle.{
  IsPath, statuses, statuses-IsPath, is_ok, accepts, run, run-IsValid, run_final, apply-accepts,
}
use memovi.Documents.Session.{Db, ProcessingJobRecord, version_init}
use memovi.Documents.Queue.{
  QueuedProcessingJob, claimable, claim_next, interrupted_to_pending, release_stale,
  recover_interrupted_jobs,
}
use memovi.Documents.Queue.Claim.{IsClaim, claim_next_lem}
use memovi.Documents.Queue.Recovery.{
  IsRecovered, Pointwise, recover_lem, recover_twice, recovery_breaks_lease,
}
use memovi.Documents.Process.{DocumentEvent, processing_started, processing_completed}
use memovi.Documents.Commands.{reprocess_document}
use memovi.Documents.Commands.Reprocess.{settled_jobs, new_job, reprocess_document_lem}
use memovi.Documents.Worker.{event_type}
use memovi.Documents.Examples.{
  second_ne_first, first_job, first_row, second_row, document, version, db, cancelled_row,
}

claim_next_lem_example :
    ((q : QueuedProcessingJob) × (db' : Db) × (claim_next 300 20 db ≡ (some q, db'))
      × IsClaim 300 20 db q db')
    ⊎ ((claim_next 300 20 db ≡ (none, db)) × All (λ r. claimable 300 20 r ≡ false) db.jobs)
claim_next_lem_example = claim_next_lem 300 20 db

abbrev running_row : ProcessingJobRecord
running_row = record first_row {
  job = record first_job { status = extracting; started_at = some 11 };
  claimed_at = some 11;
}

abbrev running_db : Db
running_db = record db { jobs = running_row ∷ second_row ∷ [] }

recover_lem_example :
    Pointwise (IsRecovered 40) running_db.jobs (recover_interrupted_jobs 40 running_db).jobs
recover_lem_example = recover_lem 40 running_db

recover_twice_example :
    recover_interrupted_jobs 50 (recover_interrupted_jobs 40 running_db)
    ≡ recover_interrupted_jobs 40 running_db
recover_twice_example = recover_twice 40 50 running_db

abbrev claimed_row : ProcessingJobRecord
claimed_row = record first_row { claimed_at = some 20 }

recovery_breaks_lease_example :
    (claimable 300 30 claimed_row ≡ false)
    × (claimable 300 31 (release_stale 30 (interrupted_to_pending 30 claimed_row)) ≡ true)
recovery_breaks_lease_example =
    recovery_breaks_lease 300 20 30 31 claimed_row refl refl (omega arith) (omega arith)

first_job-IsValid : IsValid first_job
first_job-IsValid = ground (arith, eq_iff "j1" "", eq_iff "v1" "")

abbrev ops : List (Op × ℕ)
ops = (start_op none, 20) ∷ (complete_op none, 21) ∷ (fail_op (some "bad") (some 22), 23) ∷ []

run-IsValid_example : IsValid (run ops first_job)
run-IsValid_example = run-IsValid ops first_job first_job-IsValid

apply-accepts_example : is_ok (apply (reset_op none) 30 first_job) ≡ accepts (reset_op none) pending
apply-accepts_example = apply-accepts (reset_op none) 30 first_job first_job-IsValid

statuses-IsPath_example : IsPath pending ops (statuses ops first_job)
statuses-IsPath_example = statuses-IsPath ops first_job

run_final_example :
    ((run ops cancelled_row.job).status ≡ cancelled)
    × ((run ops cancelled_row.job).completed_at ≡ none)
run_final_example = run_final ops cancelled_row.job (inr refl)

-- A subscriber of completed processing that raises, and one that does not.
abbrev failing : InProcessEventDispatcher DocumentEvent Error
failing = record {
  subscribers = ("ProcessingCompleted", λ event. some (os_error "down")) ∷ [];
  published_events = [];
}

abbrev started : DocumentEvent
started = processing_started "d1" "j1" 21

abbrev ended : DocumentEvent
ended = processing_completed "d1" "j1" 24

flush_delivers_example : flush event_type (record { inner = failing; pending = started ∷ [] }) ≡ (
  none,
  record { inner = record failing { published_events = [] ++ started ∷ [] }; pending = [] },
)
unfolding run_handlers
flush_delivers_example =
    flush_delivers event_type (record { inner = failing; pending = started ∷ [] }) (refl, tt)

flush_raises_example :
    flush event_type (record { inner = failing; pending = (started ∷ []) ++ ended ∷ [] }) ≡ (
      some (os_error "down"),
      record {
        inner = record failing { published_events = [] ++ started ∷ [] };
        pending = (started ∷ []) ++ ended ∷ [];
      },
    )
unfolding run_handlers
flush_raises_example =
    flush_raises event_type (started ∷ []) ended [] failing (os_error "down") (refl, tt) refl

flush_redelivers_example :
    let left =
      (flush event_type (record { inner = failing; pending = (started ∷ []) ++ ended ∷ [] })).1 in
    let retried = record left { inner = record left.inner { subscribers = [] } } in
    (flush event_type retried).1.inner.published_events
    ≡ ([] ++ started ∷ []) ++ ((started ∷ []) ++ ended ∷ [])
unfolding run_handlers
flush_redelivers_example =
    flush_redelivers event_type (started ∷ []) ended [] failing (os_error "down") [] (refl, tt) refl
      (refl, (refl, tt))

normalize_text-IsPlain_example :
    All IsPlain (normalize_text (9 ∷ 97 ∷ 13 ∷ 10 ∷ 98 ∷ 9 ∷ []))
    × (strip (normalize_text (9 ∷ 97 ∷ 13 ∷ 10 ∷ 98 ∷ 9 ∷ []))
        ≡ normalize_text (9 ∷ 97 ∷ 13 ∷ 10 ∷ 98 ∷ 9 ∷ []))
normalize_text-IsPlain_example = normalize_text-IsPlain (9 ∷ 97 ∷ 13 ∷ 10 ∷ 98 ∷ 9 ∷ [])

reprocess_document_lem_example : reprocess_document "j9" 20 21 "d1" "w1" db ≡ (
  ok (new_job "j9" 21 "d1" "v1" "w1"),
  record db {
    jobs =
        settled_jobs 20 (some second_row) db.jobs
        ++ record {
          job = new_job "j9" 21 "d1" "v1" "w1";
          available_at = some 21;
          claimed_at = none;
        }
          ∷ [];
  },
)
unfolding get post_init version_init
reprocess_document_lem_example =
    reprocess_document_lem "j9" 20 21 db document version (some second_row) refl
      (Memᴰ.head refl, refl, ((λ _. inl refl), tt)) refl
      (Memᴰ.tail (Memᴰ.head refl), refl, ((λ _. inr (omega arith)), ((λ _. inl refl), tt))) refl
      ((second_ne_first, tt), (tt, tt)) refl refl
