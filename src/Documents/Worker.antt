-- ===== src/Documents/Worker.antt =====
-- packages/documents/src/documents/application/workers/document_processing_worker.py: the worker that
-- takes jobs from the queue and runs them. `session.commit()` makes the state of the session the
-- database and `session.rollback()` forgets it. Logging, metrics and the request context are left out.
pub mod Requeue
pub mod Retries
pub mod Exhaustion
use memovi.Prelude.{
  ℕ, suc, String, ◌+◌, Bool, true, false, Option, none, some, List, [], ◌∷◌, leb, if◌then◌else◌,
}
use memovi.Events
use memovi.Events.{TransactionScopedEventPublisher}
use memovi.Documents.Errors.{
  Error, Result, ok, err, processing_job_not_found, invalid_processing_transition,
  transient_document_processing,
}
use memovi.Documents.Job.{ProcessingJob, reset_to_pending}
use memovi.Documents.Session.{Action, Db, save, get_by_id}
use memovi.Documents.Queue.{Queue, QueuedProcessingJob, enqueue, dequeue_round}
use memovi.Documents.Process.{
  Ports, Run, Instants, DocumentEvent, ProcessDocumentResult, processing_started,
  processing_completed, processing_failed, execute,
}
use memovi.Documents.Commands.{fail_processing}

-- What the worker shares with the rest of the process: the committed database, the queue object and
-- the publisher, whose buffer no rollback touches.
pub record World : Type 0 where
  pub db : Db
  pub queue : Queue
  pub publisher : TransactionScopedEventPublisher DocumentEvent Error

-- The readings of the clock in one round of the worker.
pub record Times : Type 0 where
  pub dequeued : ℕ
  pub run : Instants
  pub reset : ℕ
  pub enqueued : ℕ
  pub exhausted : ℕ

abbrev pub event_type : DocumentEvent → String
event_type (processing_started document job at) = "ProcessingStarted"
event_type (processing_completed document job at) = "ProcessingCompleted"
event_type (processing_failed document job at reason) = "ProcessingFailed"

abbrev settle_flush :
    World
    → Option Error × TransactionScopedEventPublisher DocumentEvent Error
    → Result (Unit {0}) × World
settle_flush world (none, publisher) = (ok tt, record world { publisher = publisher })
settle_flush world (some e, publisher) = (err e, record world { publisher = publisher })

-- `_flush_pending_events`
unfoldable pub flush_pending_events : Action World (Unit {0})
flush_pending_events world = settle_flush world (Events.flush event_type world.publisher)

-- `_fail_exhausted_job`: the event goes into the buffer before the commit.
abbrev settle_failed : World → Result (String × DocumentEvent) × Db → Result (Unit {0}) × World
settle_failed world (err e, db) = (err e, world)
settle_failed world (ok (id, event), db) =
    flush_pending_events
      (record world { db = db; publisher = Events.publish event world.publisher })

unfoldable pub fail_exhausted_job : Times → String → String → Action World (Unit {0})
unfolding flush_pending_events
fail_exhausted_job times id reason world =
    settle_failed world (fail_processing times.exhausted id (some reason) world.db)

-- `_reset_job_to_pending`: whether the job was reset, and the exception where one is raised.
abbrev save_reset : World → Result (Unit {0}) × Db → Result Bool × World
save_reset world (ok done, db) = (ok true, record world { db = db })
save_reset world (err e, db) = (err e, world)

abbrev reset_loaded : World → Result ProcessingJob → Result Bool × World
reset_loaded world (ok updated) = save_reset world (save updated world.db)
reset_loaded world (err (invalid_processing_transition m)) = (ok false, world)
reset_loaded world (err e) = (err e, world)

abbrev reset_found : ℕ → World → Result (Option ProcessingJob) → Result Bool × World
reset_found now world (err e) = (err e, world)
reset_found now world (ok none) = (ok false, world)
reset_found now world (ok (some job)) = reset_loaded world (reset_to_pending (some now) now job)

unfoldable pub reset_job_to_pending : ℕ → String → Action World Bool
reset_job_to_pending now id world = reset_found now world (get_by_id id world.db)

abbrev with_db : World → Result (Unit {0}) × Db → Result (Unit {0}) × World
with_db world (r, db) = (r, record world { db = db })

abbrev enqueue_reset : Times → QueuedProcessingJob → Result Bool × World → Result (Unit {0}) × World
enqueue_reset times queued (err e, world) = (err e, world)
enqueue_reset times queued (ok false, world) = (ok tt, world)
enqueue_reset times queued (ok true, world) = with_db world (
    enqueue world.queue queued.processing_job_id (queued.attempt + 1) queued.request_id
      queued.workspace_id times.enqueued world.db)

-- `_handle_transient_failure`
unfoldable pub handle_transient_failure :
    ℕ → Times → QueuedProcessingJob → String → Action World (Unit {0})
handle_transient_failure max_retries times queued reason world =
    if leb max_retries queued.attempt
    then fail_exhausted_job times queued.processing_job_id reason world
    else enqueue_reset times queued
        (reset_job_to_pending times.reset queued.processing_job_id world)

-- What follows the run: a commit and a flush, a rollback and a retry, or a rollback and a raise.
settle_run :
    ℕ
    → Times
    → QueuedProcessingJob
    → World
    → Result ProcessDocumentResult × Run
    → Result (Unit {0}) × World
settle_run max_retries times queued world (ok result, run) =
    flush_pending_events (record world { db = run.db; publisher = run.publisher })
settle_run max_retries times queued world (err (transient_document_processing m), run) =
    handle_transient_failure max_retries times queued m (record world { publisher = run.publisher })
settle_run max_retries times queued world (err e, run) =
    (err e, record world { publisher = run.publisher })

-- `_process_queued_job`
unfoldable pub process_queued_job :
    Ports → ℕ → Times → QueuedProcessingJob → Action World (Unit {0})
unfolding settle_run
process_queued_job ports max_retries times queued world =
    settle_run max_retries times queued world (
      execute ports times.run queued.processing_job_id
        (record { db = world.db; publisher = world.publisher }))

-- `except ProcessingJobNotFoundError` of the loop; any other exception ends the loop.
abbrev pub skip_missing : Result (Unit {0}) → Result (Unit {0})
skip_missing (err processing_job_not_found) = ok tt
skip_missing r = r

abbrev pub skipping : Result (Unit {0}) × World → Result (Unit {0}) × World
skipping (r, world) = (skip_missing r, world)

abbrev round_of :
    Ports → ℕ → Times → World → Option QueuedProcessingJob × Queue × Db → Result (Unit {0}) × World
round_of ports max_retries times world (none, queue, db) =
    (ok tt, record world { queue = queue; db = db })
round_of ports max_retries times world (some queued, queue, db) =
    skipping
      (process_queued_job ports max_retries times queued (record world { queue = queue; db = db }))

-- One round of `run`: a round of the queue, and the processing of the job that it gave.
unfoldable pub run_round : Ports → ℕ → Times → Action World (Unit {0})
run_round ports max_retries times world =
    round_of ports max_retries times world (dequeue_round world.queue times.dequeued world.db)

abbrev unless_raised :
    (World → Result (Unit {0}) × World) → Result (Unit {0}) × World → Result (Unit {0}) × World
unless_raised rest (ok done, world) = rest world
unless_raised rest (err e, world) = (err e, world)

-- `run` over rounds at the given times: the loop ends where the rounds do, or by an exception.
unfoldable pub run_worker : Ports → ℕ → List Times → Action World (Unit {0})
run_worker ports max_retries [] world = (ok tt, world)
run_worker ports max_retries (times ∷ rest) world =
    unless_raised (run_worker ports max_retries rest) (run_round ports max_retries times world)
