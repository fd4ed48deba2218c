-- ===== src/Documents/Worker/Retries.antt =====
-- What the worker does with a job whose processing meets a transient exception.
use memovi.Prelude.{ℕ, String, ◌≤◌, ◌<◌, ◌≡◌, refl, ◌≢◌, false, some, [], ◌∷◌, ◌++◌, arith, ap, ◌∙◌}
use memovi.Prelude.Table.{get, modify, get-modify_self, get-modify_ne}
use memovi.Documents.Errors.{ok, err, os_error}
use memovi.Documents.Job.{post_init}
use memovi.Documents.Session.{Document, DocumentVersion, ProcessingJobRecord, job_id, write_job}
use memovi.Events
use memovi.Events.{TransactionScopedEventPublisher}
use memovi.Documents.Queue.{queued_of}
use memovi.Documents.Process.{Ports, extracted}
use memovi.Documents.Process.Steps.{job_id-write_job}
use memovi.Documents.Process.Outcome.{IsReady, started_event, started_run, execute_raises}
use memovi.Documents.Worker.{
  World, Times, process_queued_job, handle_transient_failure, fail_exhausted_job,
}
use memovi.Documents.Worker.Requeue.{
  session, retried, write_retry, retried_lem, reset_lem, reset_row, enqueue_lem, status-write_job,
  leb_of_lt, leb_of_le, retried_world, exhausted_job, fail_processing_lem, db-flush_pending_events,
  write_job-exhausted, job_id-write_retry,
}

module _ (ports : Ports) (max_retries : ℕ) (times : Times) (world : World) (r : ProcessingJobRecord)
    (d : Document) (v : DocumentVersion) (ready : IsReady (session world) r d v) (m : String)
    (unreadable : extracted ports d v ≡ err (os_error m)) where
  pub process_retries :
      world.queue.closed ≡ false
      → r.attempt < max_retries
      → process_queued_job ports max_retries times (queued_of r) world
        ≡ (ok tt, retried_world times r world)
  unfolding process_queued_job handle_transient_failure
  process_retries open_queue more =
      rw (execute_raises ports times.run (session world) r d v ready m unreadable) (
        rw (leb_of_lt max_retries r.attempt more) (
          rw
            (reset_lem times.reset
              (record world { publisher = (started_run times.run (session world) r).publisher }) r
              ready.row ready.sound ready.waiting)
            (rw (
              enqueue_lem times (queued_of r) world.queue
                (record world.db { jobs = modify job_id r.id (write_job r.job) world.db.jobs }) r
                (write_job r.job r) open_queue (reset_row world.db r ready.row)
                (status-write_job r ready.waiting)))))

  pub retried_row :
      get job_id r.id (retried_world times r world).db.jobs ≡ some (retried times (queued_of r) r)
  retried_row =
      get-modify_self job_id (write_retry times (queued_of r))
        (job_id-write_retry times (queued_of r)) r.id
        (modify job_id r.id (write_job r.job) world.db.jobs) (reset_row world.db r ready.row)
      ∙ ap some (retried_lem times (queued_of r) r ready.waiting)

  others_retried :
      (k : String)
      → r.id ≢ k
      → get job_id k (retried_world times r world).db.jobs ≡ get job_id k world.db.jobs
  others_retried k ne =
      get-modify_ne job_id (write_retry times (queued_of r))
        (job_id-write_retry times (queued_of r)) r.id k
        (modify job_id r.id (write_job r.job) world.db.jobs) ne
      ∙ get-modify_ne job_id (write_job r.job) (job_id-write_job r.job) r.id k world.db.jobs ne

  -- A transient exception before the last attempt undoes the run and queues the job again: its row is
  -- pending, not claimed, available, and has the next attempt number; no other row of the database is
  -- changed, and nothing is raised.
  pub transient_requeues :
      world.queue.closed ≡ false
      → r.attempt < max_retries
      → let (result, after) = process_queued_job ports max_retries times (queued_of r) world in
        (result ≡ ok tt)
        × (get job_id r.id after.db.jobs ≡ some (retried times (queued_of r) r))
        × ((k : String) → r.id ≢ k → get job_id k after.db.jobs ≡ get job_id k world.db.jobs)
        × (after.db.versions ≡ world.db.versions)
        × (after.db.documents ≡ world.db.documents)
  transient_requeues open_queue more =
      rw (process_retries open_queue more) (refl, retried_row, others_retried, refl, refl)

  -- A transient exception at the last attempt fails the job, with the message of the exception, and
  -- changes no other row of the database.
  pub transient_exhausts :
      max_retries ≤ r.attempt
      → let after = (process_queued_job ports max_retries times (queued_of r) world).1 in
        (get job_id r.id after.db.jobs ≡ some (record r { job = exhausted_job times m r.job }))
        × ((k : String) → r.id ≢ k → get job_id k after.db.jobs ≡ get job_id k world.db.jobs)
        × (after.db.versions ≡ world.db.versions)
        × (after.db.documents ≡ world.db.documents)
  unfolding process_queued_job handle_transient_failure fail_exhausted_job
  transient_exhausts spent =
      rw (execute_raises ports times.run (session world) r d v ready m unreadable) (
        rw (leb_of_le max_retries r.attempt spent) (
          rw (fail_processing_lem times m world.db r ready.row ready.sound ready.waiting) (
            rw db-flush_pending_events (
              get-modify_self job_id (write_job (exhausted_job times m r.job))
                    (job_id-write_job (exhausted_job times m r.job)) r.id world.db.jobs ready.row
                  ∙ ap some (write_job-exhausted times m r),
              (λ k ne.
                  get-modify_ne job_id (write_job (exhausted_job times m r.job))
                    (job_id-write_job (exhausted_job times m r.job)) r.id k world.db.jobs ne),
              refl,
              refl,
            ))))

  -- The rollback of the run does not reach the publisher: the event that the undone run announced
  -- stays in the buffer, to be delivered by a later flush.
  pub rollback_keeps_event :
      world.queue.closed ≡ false
      → r.attempt < max_retries
      → (process_queued_job ports max_retries times (queued_of r) world).1.publisher.pending
        ≡ world.publisher.pending ++ started_event times.run r ∷ []
  unfolding Events.publish
  rollback_keeps_event open_queue more = rw (process_retries open_queue more)

  pub retried-IsReady :
      IsReady (session (retried_world times r world)) (retried times (queued_of r) r) d v
  unfolding post_init
  retried-IsReady = record {
    row = retried_row;
    sound = ground (arith, ready.sound);
    waiting = ready.waiting;
    document = ready.document;
    version = ready.version;
    version_sound = ready.version_sound;
  }
