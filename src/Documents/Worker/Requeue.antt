-- ===== src/Documents/Worker/Requeue.antt =====
-- How the worker resets, queues again and fails a job, each as an equation about the state that it
-- leaves.
use memovi.Prelude.{
  ℕ, String, ◌+◌, ◌≤◌, ◌<◌, ◌≡◌, refl, true, false, Option, none, some, arith, leb,
}
use memovi.Prelude.Table.{get, modify, get-modify_self}
use memovi.Documents.Errors.{Error, ok}
use memovi.Documents.Job.{ProcessingJob, pending, failed, reset_to_pending, post_init, fail}
use memovi.Documents.Session.{Db, ProcessingJobRecord, job_id, write_job, get_by_id}
use memovi.Events
use memovi.Events.{TransactionScopedEventPublisher}
use memovi.Documents.Commands.{fail_processing}
use memovi.Documents.Queue.{Queue, QueuedProcessingJob, queued_of, enqueue, write_enqueued}
use memovi.Documents.Process.{DocumentEvent, processing_failed, Run}
use memovi.Documents.Process.Steps.{IsSound, save_lem, job_id-write_job}
use memovi.Documents.Process.Outcome.{started_run}
use memovi.Documents.Worker.{
  settle_flush, flush_pending_events, event_type, World, Times, reset_job_to_pending,
}

-- The session of a run: the committed database and the publisher.
abbrev pub session : World → Run
session world = record { db = world.db; publisher = world.publisher }

-- The row of a pending job after a retry was queued.
abbrev pub retried : Times → QueuedProcessingJob → ProcessingJobRecord → ProcessingJobRecord
retried times queued r = record {
  job = record r.job {
    attempt = queued.attempt + 1;
    request_id = queued.request_id;
    workspace_id = queued.workspace_id;
    updated_at = times.enqueued;
  };
  available_at = some times.enqueued;
  claimed_at = none;
}

abbrev pub write_retry : Times → QueuedProcessingJob → ProcessingJobRecord → ProcessingJobRecord
write_retry times queued =
    write_enqueued (queued.attempt + 1) queued.request_id queued.workspace_id times.enqueued

-- The database once the job was reset and queued again.
abbrev requeued_db : Times → QueuedProcessingJob → ProcessingJobRecord → Db → Db
requeued_db times queued r db = record db {
  jobs =
      modify job_id r.id (write_retry times queued) (modify job_id r.id (write_job r.job) db.jobs);
}

pub job_id-write_retry :
    (times : Times) (queued : QueuedProcessingJob) (r : ProcessingJobRecord)
    → job_id (write_retry times queued r) ≡ job_id r
unfolding write_enqueued
job_id-write_retry times queued r = ground arith

pub retried_lem :
    (times : Times) (queued : QueuedProcessingJob) (r : ProcessingJobRecord)
    → r.status ≡ pending
    → write_retry times queued (write_job r.job r) ≡ retried times queued r
unfolding write_enqueued write_job
retried_lem times queued r waiting = ground arith

loaded_lem :
    (db : Db) (r : ProcessingJobRecord)
    → get job_id r.id db.jobs ≡ some r
    → IsSound r.job
    → get_by_id r.id db ≡ ok (some r.job)
unfolding get_by_id
loaded_lem db r row sound = ground (arith, row, sound)

reset_pending :
    (now : ℕ) (job : ProcessingJob)
    → job.status ≡ pending
    → reset_to_pending (some now) now job ≡ ok job
unfolding reset_to_pending
reset_pending now job waiting = ground arith

pub reset_lem :
    (now : ℕ) (world : World) (r : ProcessingJobRecord)
    → get job_id r.id world.db.jobs ≡ some r
    → IsSound r.job
    → r.status ≡ pending
    → reset_job_to_pending now r.id world ≡ (
      ok true,
      record world {
        db = record world.db { jobs = modify job_id r.id (write_job r.job) world.db.jobs };
      },
    )
unfolding reset_job_to_pending
reset_lem now world r row sound waiting =
    rw (loaded_lem world.db r row sound)
      (rw (reset_pending now r.job waiting) (rw (save_lem r.job world.db row)))

pub reset_row :
    (db : Db) (r : ProcessingJobRecord)
    → get job_id r.id db.jobs ≡ some r
    → get job_id r.id (modify job_id r.id (write_job r.job) db.jobs) ≡ some (write_job r.job r)
reset_row db r row =
    get-modify_self job_id (write_job r.job) (job_id-write_job r.job) r.id db.jobs row

pub enqueue_lem :
    (times : Times) (queued : QueuedProcessingJob) (queue : Queue) (db : Db)
    (r s : ProcessingJobRecord)
    → queue.closed ≡ false
    → get job_id r.id db.jobs ≡ some s
    → s.status ≡ pending
    → enqueue queue r.id
        (queued.attempt + 1)
        queued.request_id
        queued.workspace_id
        times.enqueued
        db
      ≡ (ok tt, record db { jobs = modify job_id r.id (write_retry times queued) db.jobs })
unfolding enqueue
enqueue_lem times queued queue db r s open_queue row waiting =
    rw (open_queue, row, waiting, enqueue)

pub status-write_job :
    (r : ProcessingJobRecord) → r.status ≡ pending → (write_job r.job r).status ≡ pending
unfolding write_job
status-write_job r waiting = ground arith

pub leb_of_lt : (a b : ℕ) → b < a → leb a b ≡ false
leb_of_lt a b h = ground arith

pub leb_of_le : (a b : ℕ) → a ≤ b → leb a b ≡ true
leb_of_le a b h = ground arith

-- The world after a run that ended in a transient exception and was queued again.
abbrev pub retried_world : Times → ProcessingJobRecord → World → World
retried_world times r world = record world {
  db = requeued_db times (queued_of r) r world.db;
  publisher = (started_run times.run (session world) r).publisher;
}

-- The job failed by the worker, once the attempts are used up.
abbrev pub exhausted_job : Times → String → ProcessingJob → ProcessingJob
exhausted_job times m job = record job {
  status = failed;
  updated_at = times.exhausted;
  completed_at = some times.exhausted;
  failure_reason = some m;
}

exhausted_lem :
    (times : Times) (m : String) (job : ProcessingJob)
    → IsSound job
    → job.status ≡ pending
    → fail (some m) (some times.exhausted) times.exhausted job ≡ ok (exhausted_job times m job)
unfolding fail post_init
exhausted_lem times m job sound waiting = ground arith

pub fail_processing_lem :
    (times : Times) (m : String) (db : Db) (r : ProcessingJobRecord)
    → get job_id r.id db.jobs ≡ some r
    → IsSound r.job
    → r.status ≡ pending
    → fail_processing times.exhausted r.id (some m) db ≡ (
      ok (r.id, processing_failed r.document_id r.id times.exhausted (some m)),
      record db { jobs = modify job_id r.id (write_job (exhausted_job times m r.job)) db.jobs },
    )
unfolding fail_processing
fail_processing_lem times m db r row sound waiting = rw (loaded_lem db r row sound) (
    rw (exhausted_lem times m r.job sound waiting)
      (rw (save_lem (exhausted_job times m r.job) db row)))

db-settle_flush :
    (world : World) (x : Option Error × TransactionScopedEventPublisher DocumentEvent Error)
    → (settle_flush world x).1.db ≡ world.db
db-settle_flush world (none, publisher) = refl
db-settle_flush world (some e, publisher) = refl

pub db-flush_pending_events : (world : World) → (flush_pending_events world).1.db ≡ world.db
unfolding flush_pending_events
db-flush_pending_events world = db-settle_flush world (Events.flush event_type world.publisher)

pub write_job-exhausted :
    (times : Times) (m : String) (r : ProcessingJobRecord)
    → write_job (exhausted_job times m r.job) r ≡ record r { job = exhausted_job times m r.job }
unfolding write_job
write_job-exhausted times m r = refl
