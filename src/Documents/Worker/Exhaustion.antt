-- ===== src/Documents/Worker/Exhaustion.antt =====
-- A job whose document cannot be read is given up after `max_retries` attempts.
use memovi.Prelude.{
  ℕ, suc, zero, String, ◌+◌, ◌<◌, ◌≡◌, refl, false, Option, none, some, List, [], ◌∷◌, arith,
  length, ap,
}
use memovi.Prelude.Table.{get}
use memovi.Documents.Errors.{err, os_error, invalid_processing_state}
use memovi.Documents.Job.{ProcessingJob, pending, failed, same_status, post_init}
use memovi.Documents.Session.{Document, DocumentVersion, ProcessingJobRecord, job_id}
use memovi.Documents.Queue.{queued_of}
use memovi.Documents.Process.{Ports, extracted}
use memovi.Documents.Process.Steps.{IsSound}
use memovi.Documents.Process.Outcome.{IsReady}
use memovi.Documents.Process.Views.{execute_refused}
use memovi.Documents.Worker.{World, Times, process_queued_job, skipping}
use memovi.Documents.Worker.Requeue.{session, retried, retried_world, exhausted_job}
use memovi.Documents.Worker.Retries.{retried-IsReady, process_retries, transient_exhausts}

-- The queue gives the row of the job to the worker once at each of the times, whatever the status of
-- the row is by then. The deliveries go on whether or not one of them raised.
abbrev redeliver_row : (ProcessingJobRecord → World) → World → Option ProcessingJobRecord → World
redeliver_row run world none = world
redeliver_row run world (some r) = run r

pub redeliver : Ports → ℕ → String → List Times → World → World
redeliver ports max_retries id [] world = world
redeliver ports max_retries id (times ∷ rest) world =
    redeliver_row
      (λ r.
        redeliver ports max_retries id rest
          (process_queued_job ports max_retries times (queued_of r) world).1)
      world (get job_id id world.db.jobs)

-- A queued job whose row is no longer pending, say since it was cancelled after the queue had given
-- it out, raises an exception that the worker's loop does not catch, and changes nothing.
pub cancelled_job_raises :
    (ports : Ports) (max_retries : ℕ) (times : Times) (world : World) (r : ProcessingJobRecord)
    → get job_id r.id world.db.jobs ≡ some r
    → IsSound r.job
    → same_status r.status pending ≡ false
    → skipping (process_queued_job ports max_retries times (queued_of r) world)
      ≡ (err (invalid_processing_state "Processing job is not pending."), world)
unfolding process_queued_job
cancelled_job_raises ports max_retries times world r found sound done =
    rw ((execute_refused ports times.run (session world) r.id).1 r found sound done)

redeliver_stops :
    (ports : Ports) (max_retries : ℕ) (times : List Times) (world : World) (r : ProcessingJobRecord)
    → get job_id r.id world.db.jobs ≡ some r
    → IsSound r.job
    → same_status r.status pending ≡ false
    → redeliver ports max_retries r.id times world ≡ world
unfolding redeliver
redeliver_stops ports max_retries [] world r found sound done = refl
redeliver_stops ports max_retries (t ∷ rest) world r found sound done =
    rw (found, ap (λ o. o.1) (cancelled_job_raises ports max_retries t world r found sound done))
      (redeliver_stops ports max_retries rest world r found sound done)

redeliver_runs :
    (ports : Ports) (max_retries : ℕ) (id : String) (t : Times) (rest : List Times) (world : World)
    {row : ProcessingJobRecord}
    → get job_id id world.db.jobs ≡ some row
    → redeliver ports max_retries id (t ∷ rest) world
      ≡ redeliver ports max_retries id rest
          (process_queued_job ports max_retries t (queued_of row) world).1
unfolding redeliver
redeliver_runs ports max_retries id t rest world found = rw found refl

-- The row of the job is failed, and no delivery of it at any further times changes anything.
pub record HasGivenUp (ports : Ports) (max_retries : ℕ) (id : String) (reason : String)
    (after : World) : Type 0 where
  pub row : ProcessingJobRecord
  pub found : get job_id id after.db.jobs ≡ some row
  pub ended : row.status ≡ failed
  pub excused : row.failure_reason ≡ some reason
  pub last_attempt : row.attempt ≡ max_retries
  pub inert : (later : List Times) → redeliver ports max_retries id later after ≡ after

exhausted-IsSound :
    (times : Times) (m : String) (job : ProcessingJob)
    → IsSound job
    → IsSound (exhausted_job times m job)
unfolding post_init
exhausted-IsSound times m job sound = ground (arith, sound)

-- A pending job whose document meets a transient exception each time is failed with its message at
-- attempt `max_retries`, if the queue delivers it once for each attempt left. Once it is failed, the
-- worker, given the job again, changes nothing, however often.
pub gives_up :
    (ports : Ports) (max_retries left : ℕ) (times : List Times) (world : World)
    (r : ProcessingJobRecord) (d : Document) (v : DocumentVersion) (m : String)
    → IsReady (session world) r d v
    → extracted ports d v ≡ err (os_error m)
    → world.queue.closed ≡ false
    → r.attempt + left ≡ max_retries
    → left < length times
    → HasGivenUp ports max_retries r.id m (redeliver ports max_retries r.id times world)
gives_up ports max_retries left [] world r d v m ready unreadable open_queue e le =
    absurd (omega arith)
gives_up ports max_retries zero (t ∷ rest) world r d v m ready unreadable open_queue e le =
    let after = (process_queued_job ports max_retries t (queued_of r) world).1 in
    let ends =
      transient_exhausts ports max_retries t world r d v ready m unreadable (omega arith) in
    let gone : ProcessingJobRecord = record r { job = exhausted_job t m r.job } in
    let stops : (later : List Times) → redeliver ports max_retries r.id later after ≡ after =
      λ later.
        redeliver_stops ports max_retries later after gone ends.0
          (exhausted-IsSound t m r.job ready.sound) refl in
    rw (redeliver_runs ports max_retries r.id t rest world ready.row) (
      rw (stops rest) (record {
        row = gone;
        found = ends.0;
        ended = refl;
        excused = refl;
        last_attempt = omega arith;
        inert = stops;
      }))
gives_up ports max_retries (suc left) (t ∷ rest) world r d v m ready unreadable open_queue e le =
    rw (redeliver_runs ports max_retries r.id t rest world ready.row) (
      rw
        (process_retries ports max_retries t world r d v ready m unreadable open_queue
          (omega arith))
        (gives_up ports max_retries left rest (retried_world t r world) (retried t (queued_of r) r)
          d v m (retried-IsReady ports max_retries t world r d v ready m unreadable) unreadable
          open_queue (omega arith) (omega arith)))
