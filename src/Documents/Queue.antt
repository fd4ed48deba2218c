-- ===== src/Documents/Queue.antt =====
-- packages/documents/src/documents/infrastructure/queue/sqlalchemy_processing_job_queue.py: the queue
-- whose entries are the pending rows of documents_processing_jobs. `now` is the reading of the clock
-- at the start of the operation, and `claim_lease` is in the same unit. Waiting (`_wakeup`), metrics
-- and logging change no row and are left out.
pub mod Claim
pub mod Lease
pub mod Exclusion
pub mod Recovery
use memovi.Prelude.{
  ℕ, String, ◌-◌, Bool, true, false, ◌&&◌, ◌||◌, Option, none, some, List, [], ◌∷◌, map, filter,
  leb, ltb, length, if◌then◌else◌, is_some,
}
use memovi.Prelude.Table.{get, modify}
use memovi.Documents.Errors.{Error, Result, ok, err, runtime_error}
use memovi.Documents.Job.{ProcessingStatus, pending, cancelled, is_running, same_status}
use memovi.Documents.Session.{Action, Db, ProcessingJobRecord, job_id}

pub record QueuedProcessingJob : Type 0 where
  pub processing_job_id : String
  pub attempt : ℕ
  pub request_id : Option String
  pub workspace_id : Option String

-- The queue object: the rows stand in the database.
pub record Queue : Type 0 where
  pub claim_lease : ℕ
  pub closed : Bool
  pub recovered : Bool

-- The conditions of `_claim_next`. `now - claim_lease` stops at 0, where the comparison with it is
-- false, as it is with the negative difference.
unfoldable pub claimable : ℕ → ℕ → ProcessingJobRecord → Bool
claimable claim_lease now r =
    same_status r.status pending
    && (elim r.available_at [ none ↦ true | some t ↦ leb t now ])
    && (elim r.claimed_at [ none ↦ true | some t ↦ ltb t (now - claim_lease) ])

abbrev pub older : ProcessingJobRecord → Option ProcessingJobRecord → Option ProcessingJobRecord
older r none = some r
older r (some s) = if leb r.created_at s.created_at then some r else some s

-- `.order_by(created_at.asc()).first()`
unfoldable pub earliest : List ProcessingJobRecord → Option ProcessingJobRecord
earliest [] = none
earliest (r ∷ rs) = older r (earliest rs)

abbrev pub stamp_claim : ℕ → ProcessingJobRecord → ProcessingJobRecord
stamp_claim now r = record r { job = record r.job { updated_at = now }; claimed_at = some now }

abbrev pub queued_of : ProcessingJobRecord → QueuedProcessingJob
queued_of r = record {
  processing_job_id = r.id;
  attempt = r.attempt;
  request_id = r.request_id;
  workspace_id = r.workspace_id;
}

abbrev claim_found : ℕ → Option ProcessingJobRecord → Db → Option QueuedProcessingJob × Db
claim_found now none db = (none, db)
claim_found now (some r) db =
    (some (queued_of r), record db { jobs = modify job_id r.id (stamp_claim now) db.jobs })

-- `_claim_next`, committed.
unfoldable pub claim_next : ℕ → ℕ → Db → Option QueuedProcessingJob × Db
claim_next claim_lease now db =
    claim_found now (earliest (filter (claimable claim_lease now) db.jobs)) db

-- The assignments of `enqueue` to the row that it found.
unfoldable pub write_enqueued :
    ℕ → Option String → Option String → ℕ → ProcessingJobRecord → ProcessingJobRecord
write_enqueued attempt request_id workspace_id now r =
    let job = record r.job {
      attempt = attempt;
      request_id = request_id;
      workspace_id = workspace_id;
      updated_at = now;
    } in
    record {
      job =
          if is_running r.status
          then record job {
            status = pending;
            started_at = none;
            completed_at = none;
            failure_reason = none;
          }
          else job;
      available_at = some now;
      claimed_at = none;
    }

unfoldable pub enqueue :
    Queue → String → ℕ → Option String → Option String → ℕ → Action Db (Unit {0})
unfolding write_enqueued
enqueue queue id attempt request_id workspace_id now db =
    if queue.closed
    then (err (runtime_error "Processing job queue is closed."), db)
    else (elim (get job_id id db.jobs) [
      | none ↦ (ok tt, db)
      | some r ↦ if same_status r.status cancelled then (ok tt, db) else (
        ok tt,
        record db {
          jobs = modify job_id id (write_enqueued attempt request_id workspace_id now) db.jobs;
        },
      )
    ])

-- What `_recover_interrupted_jobs` does to a row: first the loop over the interrupted rows, then the
-- loop over the pending rows that are claimed.
unfoldable pub interrupted_to_pending : ℕ → ProcessingJobRecord → ProcessingJobRecord
interrupted_to_pending now r =
    if is_running r.status
    then record {
      job = record r.job {
        status = pending;
        started_at = none;
        completed_at = none;
        updated_at = now;
      };
      available_at = some now;
      claimed_at = none;
    }
    else r

unfoldable pub release_stale : ℕ → ProcessingJobRecord → ProcessingJobRecord
release_stale now r =
    if same_status r.status pending && is_some r.claimed_at
    then record {
      job = record r.job { updated_at = now };
      available_at = some now;
      claimed_at = none;
    }
    else r

unfoldable pub recover_interrupted_jobs : ℕ → Db → Db
recover_interrupted_jobs now db = record db {
  jobs = map (release_stale now) (map (interrupted_to_pending now) db.jobs);
}

abbrev settle_round :
    Queue → Option QueuedProcessingJob × Db → Option QueuedProcessingJob × Queue × Db
settle_round queue (claimed, db) = (claimed, queue, db)

-- One round of the loop of `dequeue`: the first round of a process recovers, and `none` stands for a
-- round that found nothing, after which the loop waits.
unfoldable pub dequeue_round : Queue → ℕ → Db → Option QueuedProcessingJob × Queue × Db
dequeue_round queue now db =
    if queue.closed
    then (none, queue, db)
    else settle_round (record queue { recovered = true })
        (claim_next queue.claim_lease now
          (if queue.recovered then db else recover_interrupted_jobs now db))

unfoldable pub close : Queue → Queue
close queue = record queue { closed = true }

unfoldable pub pending_count : Db → ℕ
pending_count db = length (filter (λ r. same_status r.status pending) db.jobs)
