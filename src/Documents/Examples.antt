-- ===== src/Documents/Examples.antt =====
-- The theorems about packages/documents and the event dispatcher at concrete jobs and tables.
use memovi.Prelude.{
  ℕ, String, ◌≡◌, ◌≢◌, refl, true, false, none, some, List, [], ◌∷◌, ◌++◌, arith, eq_iff,
}
use memovi.Prelude.Table.{get}
use memovi.Events.{TransactionScopedEventPublisher}
use memovi.Documents.Errors.{
  Error, ok, err, os_error, document_processing, invalid_processing_state, processing_job_not_found,
}
use memovi.Documents.Text.{normalize_text, strip}
use memovi.Documents.Job.{
  ProcessingJob, pending, completed, failed, cancelled, post_init, same_status,
}
use memovi.Documents.Session.{
  Db, Document, DocumentVersion, ProcessingJobRecord, job_id, version_id, version_init,
}
use memovi.Documents.Queue.{queued_of}
use memovi.Documents.Queue.Exclusion.{
  Exclusive, Step, claim_step, enqueue_step, recover_step, marks, marks-Exclusive,
}
use memovi.Documents.Process.{Ports, Instants, DocumentEvent, extracted, execute}
use memovi.Documents.Process.Steps.{IsSound}
use memovi.Documents.Process.Outcome.{IsReady, started_event, completed_event, failed_event}
use memovi.Documents.Process.Views.{HasEnded, execute_completed, execute_failed, execute_refused}
use memovi.Documents.Worker.{World, Times, process_queued_job, skipping}
use memovi.Documents.Worker.Requeue.{session, retried, exhausted_job}
use memovi.Documents.Worker.Retries.{transient_requeues, transient_exhausts, rollback_keeps_event}
use memovi.Documents.Worker.Exhaustion.{HasGivenUp, redeliver, gives_up, cancelled_job_raises}

abbrev pub first_job : ProcessingJob
first_job = record {
  id = "j1";
  document_id = "d1";
  document_version_id = "v1";
  status = pending;
  created_at = 10;
  updated_at = 10;
  failure_reason = none;
  attempt = 1;
  request_id = none;
  workspace_id = some "w1";
  started_at = none;
  completed_at = none;
}

abbrev pub first_row : ProcessingJobRecord
first_row = record { job = first_job; available_at = some 10; claimed_at = none }

abbrev pub second_row : ProcessingJobRecord
second_row = record first_row {
  job = record first_job { id = "j2"; created_at = 12; updated_at = 12 };
}

abbrev pub document : Document
document = record { id = "d1"; workspace_id = "w1"; mime_type = "text/plain" }

abbrev pub version : DocumentVersion
version = record {
  id = "v1";
  document_id = "d1";
  version_number = 1;
  storage_key = "documents/d1/versions/v1/original";
  normalized_content = none;
}

abbrev pub db : Db
db = record {
  documents = document ∷ [];
  versions = version ∷ [];
  jobs = first_row ∷ second_row ∷ [];
}

abbrev publisher : TransactionScopedEventPublisher DocumentEvent Error
publisher = record { inner = record { subscribers = []; published_events = [] }; pending = [] }

abbrev world : World
world = record {
  db = db;
  queue = record { claim_lease = 300; closed = false; recovered = true };
  publisher = publisher;
}

abbrev instants : Instants
instants = record { started = 21; normalizing = 22; completed = 23; announced = 24; failed = 25 }

abbrev times : Times
times = record { dequeued = 20; run = instants; reset = 26; enqueued = 27; exhausted = 28 }

-- The storage refuses the connection, holds the text "hi\r\n", and holds a blank text.
abbrev unreachable : Ports
unreachable = record {
  Bytes = List ℕ;
  get_object = λ key. err (os_error "refused");
  decode = λ content. some content;
  pdf_text = λ content. none;
}

abbrev holding : List ℕ → Ports
holding text = record {
  Bytes = List ℕ;
  get_object = λ key. ok text;
  decode = λ content. some content;
  pdf_text = λ content. none;
}

ready : IsReady (session world) first_row document version
unfolding get post_init version_init
ready = record {
  row = refl;
  sound = refl;
  waiting = refl;
  document = refl;
  version = refl;
  version_sound = refl;
}

gives_up_example :
    HasGivenUp unreachable 3 "j1" "refused"
      (redeliver unreachable 3 "j1" (times ∷ times ∷ times ∷ times ∷ []) world)
unfolding extracted strip
gives_up_example =
    gives_up unreachable 3 2 (times ∷ times ∷ times ∷ times ∷ []) world first_row document version
      "refused" ready refl refl refl (omega arith)

pub second_ne_first : ◌≢◌ {A = String} "j2" "j1"
second_ne_first = ground (arith, eq_iff "j2" "j1")

abbrev lease_steps : List Step
lease_steps =
    claim_step 20
    ∷ claim_step 50
    ∷ enqueue_step "j1" 2 none none 60
    ∷ claim_step 70
    ∷ recover_step 80
    ∷ claim_step 320
    ∷ []

marks-Exclusive_example : Exclusive (marks world.queue lease_steps db)
marks-Exclusive_example =
    marks-Exclusive world.queue 20 lease_steps db ((second_ne_first, tt), (tt, tt))
      (omega arith, (omega arith, (tt, (omega arith, (tt, (omega arith, tt))))))

execute_completed_example :
    let (result, after) = execute (holding (104 ∷ 105 ∷ [])) instants "j1" (session world) in
    (result
      ≡ ok (record {
        processing_job_id = "j1";
        processing_status = completed;
        events = started_event instants first_row ∷ completed_event instants first_row ∷ [];
      }))
    × HasEnded (session world) first_row completed 21 23 none after
    × (get version_id "v1" after.db.versions
        ≡ some (record version { normalized_content = some (normalize_text (104 ∷ 105 ∷ [])) }))
    × ((k : String)
        → ◌≢◌ {A = String} "v1" k
        → get version_id k after.db.versions ≡ get version_id k (version ∷ []))
    × (after.publisher.pending
        ≡ ([] ++ started_event instants first_row ∷ []) ++ completed_event instants first_row ∷ [])
unfolding extracted strip
execute_completed_example =
    execute_completed (holding (104 ∷ 105 ∷ [])) instants (session world) first_row document version
      ready (104 ∷ 105 ∷ []) refl

execute_failed_example :
    let (result, after) = execute (holding (32 ∷ [])) instants "j1" (session world) in
    (result
      ≡ ok (record {
        processing_job_id = "j1";
        processing_status = failed;
        events =
            started_event instants first_row
            ∷ failed_event instants first_row "Plain text content is empty."
            ∷ [];
      }))
    × HasEnded (session world) first_row failed 21 25 (some "Plain text content is empty.") after
    × (after.db.versions ≡ version ∷ [])
    × (after.publisher.pending
        ≡ ([] ++ started_event instants first_row ∷ [])
          ++ failed_event instants first_row "Plain text content is empty." ∷ [])
unfolding extracted strip
execute_failed_example =
    execute_failed (holding (32 ∷ [])) instants (session world) first_row document version ready
      (document_processing "Plain text content is empty.") refl refl

execute_refused_example :
    (get job_id "j3" db.jobs ≡ none
      → execute unreachable instants "j3" (session world)
        ≡ (err processing_job_not_found, session world))
    × ((r : ProcessingJobRecord)
        → get job_id "j3" db.jobs ≡ some r
        → IsSound r.job
        → same_status r.status pending ≡ false
        → execute unreachable instants "j3" (session world)
          ≡ (err (invalid_processing_state "Processing job is not pending."), session world))
execute_refused_example = execute_refused unreachable instants (session world) "j3"

transient_requeues_example :
    let (result, after) = process_queued_job unreachable 3 times (queued_of first_row) world in
    (result ≡ ok tt)
    × (get job_id "j1" after.db.jobs ≡ some (retried times (queued_of first_row) first_row))
    × ((k : String) → ◌≢◌ {A = String} "j1" k → get job_id k after.db.jobs ≡ get job_id k db.jobs)
    × (after.db.versions ≡ db.versions)
    × (after.db.documents ≡ db.documents)
unfolding extracted strip
transient_requeues_example =
    transient_requeues unreachable 3 times world first_row document version ready "refused" refl
      refl (omega arith)

transient_exhausts_example :
    let after = (process_queued_job unreachable 1 times (queued_of first_row) world).1 in
    (get job_id "j1" after.db.jobs
      ≡ some (record first_row { job = exhausted_job times "refused" first_job }))
    × ((k : String) → ◌≢◌ {A = String} "j1" k → get job_id k after.db.jobs ≡ get job_id k db.jobs)
    × (after.db.versions ≡ db.versions)
    × (after.db.documents ≡ db.documents)
unfolding extracted strip
transient_exhausts_example =
    transient_exhausts unreachable 1 times world first_row document version ready "refused" refl
      (omega arith)

rollback_keeps_event_example :
    (process_queued_job unreachable 3 times (queued_of first_row) world).1.publisher.pending
    ≡ [] ++ started_event instants first_row ∷ []
unfolding extracted strip
rollback_keeps_event_example =
    rollback_keeps_event unreachable 3 times world first_row document version ready "refused" refl
      refl (omega arith)

abbrev pub cancelled_row : ProcessingJobRecord
cancelled_row = record first_row { job = record first_job { status = cancelled } }

abbrev cancelled_world : World
cancelled_world = record world { db = record db { jobs = cancelled_row ∷ [] } }

cancelled_job_raises_example :
    skipping (process_queued_job unreachable 3 times (queued_of cancelled_row) cancelled_world)
    ≡ (err (invalid_processing_state "Processing job is not pending."), cancelled_world)
unfolding get post_init
cancelled_job_raises_example =
    cancelled_job_raises unreachable 3 times cancelled_world cancelled_row refl refl refl
