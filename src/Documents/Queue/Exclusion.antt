-- ===== src/Documents/Queue/Exclusion.antt =====
-- The claims of several workers, between whatever else they do to the table of jobs.
use memovi.Prelude.{
  ℕ, String, ◌+◌, ◌≤◌, ◌≡◌, ◌≢◌, inl, inr, ◌⊎◌, Bool, true, false, Option, none, some, List, [],
  ◌∷◌, All, arith, map, text-cases, Bool-cases, Option-cases,
}
use memovi.Prelude.Table.{get, modify, Unique, Unique-modify}
use memovi.Prelude.Rows.{All-append, Unique-append}
use memovi.Documents.Job.{ProcessingJob, pending, cancelled, same_status}
use memovi.Documents.Session.{Db, ProcessingJobRecord, job_id, add, save, write_job}
use memovi.Documents.Process.Steps.{job_id-write_job}
use memovi.Documents.Queue.{
  Queue, QueuedProcessingJob, claim_next, enqueue, write_enqueued, recover_interrupted_jobs,
  interrupted_to_pending, release_stale,
}
use memovi.Documents.Queue.Claim.{claim_next_lem}
use memovi.Documents.Queue.Lease.{
  IsHeld, IsHeld-modify_ne, IsHeld-modify_kept, IsClaim-IsHeld, Unique-claim,
}

-- A transaction of a worker or of a command on the table: a claim, the writing of a job, a new job, a
-- job that is queued (again), and the recovery at the start of a process.
pub data Step : Type 0 where
  claim_step : ℕ → Step
  save_step : ProcessingJob → Step
  add_step : ProcessingJob → Step
  enqueue_step : String → ℕ → Option String → Option String → ℕ → Step
  recover_step : ℕ → Step

-- What a step does to claims. `save` of a pending job and `enqueue` release the job, and a job that is
-- added is not claimed; the recovery releases every job.
pub data Mark : Type 0 where
  claimed : String → Mark
  released : String → Mark
  all_released : Mark

-- The primary key: an insertion of a job that is there fails.
abbrev insert_absent : ProcessingJob → Db → Option ProcessingJobRecord → Db
insert_absent job db none = add job db
insert_absent job db (some r) = db

abbrev pub inserted : ProcessingJob → Db → Db
inserted job db = insert_absent job db (get job_id job.id db.jobs)

abbrev pub mark_claim : (Db → List Mark) → Option QueuedProcessingJob × Db → List Mark
mark_claim later (none, db) = later db
mark_claim later (some job, db) = claimed job.processing_job_id ∷ later db

abbrev mark_saved : ProcessingJob → Bool → List Mark → List Mark
mark_saved job true later = released job.id ∷ later
mark_saved job false later = later

-- The marks of steps, one after another.
pub marks : Queue → List Step → Db → List Mark
marks queue [] db = []
marks queue (claim_step now ∷ rest) db =
    mark_claim (marks queue rest) (claim_next queue.claim_lease now db)
marks queue (save_step job ∷ rest) db =
    mark_saved job (same_status job.status pending) (marks queue rest (save job db).1)
marks queue (add_step job ∷ rest) db = released job.id ∷ marks queue rest (inserted job db)
marks queue (enqueue_step id attempt request_id workspace_id now ∷ rest) db =
    released id ∷ marks queue rest (enqueue queue id attempt request_id workspace_id now db).1
marks queue (recover_step now ∷ rest) db =
    all_released ∷ marks queue rest (recover_interrupted_jobs now db)

-- The job is not claimed before it is released.
abbrev pub Avoids : String → List Mark → Type 0
Avoids id [] = Unit
Avoids id (claimed x ∷ later) = (x ≢ id) × Avoids id later
Avoids id (released x ∷ later) = (x ≡ id) ⊎ Avoids id later
Avoids id (all_released ∷ later) = Unit

-- No job that is claimed is claimed a second time before it is released.
abbrev pub Exclusive : List Mark → Type 0
Exclusive [] = Unit
Exclusive (claimed x ∷ later) = Avoids x later × Exclusive later
Exclusive (released x ∷ later) = Exclusive later
Exclusive (all_released ∷ later) = Exclusive later

-- The instants of the claims lie within the lease of a claim made at `start`.
abbrev pub IsWithin : ℕ → ℕ → Step → Type 0
IsWithin start claim_lease (claim_step now) = (start ≤ now) × (now ≤ start + claim_lease)
IsWithin start claim_lease _ = Unit

job_id-write_enqueued :
    (attempt : ℕ) (request_id workspace_id : Option String) (now : ℕ) (r : ProcessingJobRecord)
    → job_id (write_enqueued attempt request_id workspace_id now r) ≡ job_id r
unfolding write_enqueued
job_id-write_enqueued attempt request_id workspace_id now r = ground arith

claimed_at-write_job :
    (job : ProcessingJob)
    → same_status job.status pending ≡ false
    → (r : ProcessingJobRecord) → (write_job job r).claimed_at ≡ r.claimed_at
unfolding write_job
claimed_at-write_job job running r = ground (arith, running)

-- What holds of the rows holds after a step that does not write, and so only the writing counts.
module _ (P : List ProcessingJobRecord → Type 0) (db : Db) (holds : P db.jobs) where
  saved-P :
      (job : ProcessingJob)
      → P (modify job_id job.id (write_job job) db.jobs)
      → P (save job db).1.jobs
  unfolding save
  saved-P job written = elim (Option-cases (get job_id job.id db.jobs)) [
    | inl e ↦ rw (e, save) holds
    | inr (r, e) ↦ rw (e, save) written
  ]

  enqueued-P :
      (queue : Queue) (id : String) (attempt : ℕ) (request_id workspace_id : Option String)
      (now : ℕ)
      → P (modify job_id id (write_enqueued attempt request_id workspace_id now) db.jobs)
      → P (enqueue queue id attempt request_id workspace_id now db).1.jobs
  unfolding enqueue
  enqueued-P queue id attempt request_id workspace_id now written = elim (Bool-cases queue.closed) [
    | inl c ↦ rw c holds
    | inr o ↦ elim (Option-cases (get job_id id db.jobs)) [
      | inl e ↦ rw (o, e) holds
      | inr (r, e) ↦ elim (Bool-cases (same_status r.status cancelled)) [
        | inl b ↦ rw (o, e, b) holds
        | inr b ↦ rw (o, e, b) written
      ]
    ]
  ]

  inserted-P :
      (job : ProcessingJob)
      → (get job_id job.id db.jobs ≡ none → P (add job db).jobs)
      → P (inserted job db).jobs
  inserted-P job written = elim (Option-cases (get job_id job.id db.jobs)) [
    | inl e ↦ rw e (written e)
    | inr (r, e) ↦ rw e holds
  ]

module _ (queue : Queue) (start : ℕ) where
  abbrev AreWithin : List Step → Type 0
  AreWithin = All (IsWithin start queue.claim_lease)

  marks_avoid :
      (since : ℕ) (id : String) (steps : List Step) (db : Db)
      → start ≤ since
      → AreWithin steps
      → IsHeld id since db.jobs
      → Avoids id (marks queue steps db)
  unfolding marks add
  marks_avoid since id [] db le w h = tt
  marks_avoid since id (claim_step now ∷ rest) db le w h =
      elim (claim_next_lem queue.claim_lease now db) [
        | inr (e, _) ↦ rw e (marks_avoid since id rest db le w.1 h)
        | inl (q, db', e, c) ↦
            let (ne, held) =
              IsClaim-IsHeld queue.claim_lease since now id db db' q h (omega arith) c in
            rw e (ne, marks_avoid since id rest db' le w.1 held)
      ]
  marks_avoid since id (save_step job ∷ rest) db le w h = elim (text-cases job.id id) [
    | inl (_, e) ↦ elim (Bool-cases (same_status job.status pending)) [
      | inl b ↦ rw b (inl e)
      | inr b ↦ rw b (
          marks_avoid since id rest (save job db).1 le w.1 (
            saved-P (IsHeld id since) db h job (
              IsHeld-modify_kept (write_job job) (job_id-write_job job) (claimed_at-write_job job b)
                id job.id since db.jobs h)))
    ]
    | inr (_, n) ↦
        let later = marks_avoid since id rest (save job db).1 le w.1 (
          saved-P (IsHeld id since) db h job (
            IsHeld-modify_ne (write_job job) (job_id-write_job job) id job.id since db.jobs n h)) in
        elim (Bool-cases (same_status job.status pending)) [
          | inl b ↦ rw b (inr later)
          | inr b ↦ rw b later
        ]
  ]
  marks_avoid since id (add_step job ∷ rest) db le w h = elim (text-cases job.id id) [
    | inl (_, e) ↦ inl e
    | inr (_, n) ↦ inr (
        marks_avoid since id rest (inserted job db) le w.1
          (inserted-P (IsHeld id since) db h job (λ _. All-append _ db.jobs h (λ e. absurd (n e)))))
  ]
  marks_avoid since id (enqueue_step other attempt request_id workspace_id now ∷ rest) db le w h =
      elim (text-cases other id) [
        | inl (_, e) ↦ inl e
        | inr (_, n) ↦ inr (
            marks_avoid since id rest (enqueue queue other attempt request_id workspace_id now db).1
              le w.1
              (enqueued-P (IsHeld id since) db h queue other attempt request_id workspace_id now (
                IsHeld-modify_ne (write_enqueued attempt request_id workspace_id now)
                  (job_id-write_enqueued attempt request_id workspace_id now) id other since db.jobs
                  n h)))
      ]
  marks_avoid since id (recover_step now ∷ rest) db le w h = tt

All-map :
    (f : ProcessingJobRecord → ProcessingJobRecord)
    (keeps : (r : ProcessingJobRecord) → job_id (f r) ≡ job_id r) (id : String)
    (rs : List ProcessingJobRecord)
    → All (λ r. job_id r ≢ id) rs
    → All (λ r. job_id r ≢ id) (map f rs)
All-map f keeps id [] h = tt
All-map f keeps id (r ∷ rs) h = (rw (keeps r) h.0, All-map f keeps id rs h.1)

Unique-map :
    (f : ProcessingJobRecord → ProcessingJobRecord)
    (keeps : (r : ProcessingJobRecord) → job_id (f r) ≡ job_id r) (rs : List ProcessingJobRecord)
    → Unique job_id rs
    → Unique job_id (map f rs)
Unique-map f keeps [] u = tt
Unique-map f keeps (r ∷ rs) u =
    (rw (keeps r) (All-map f keeps (job_id r) rs u.0), Unique-map f keeps rs u.1)

job_id-interrupted_to_pending :
    (now : ℕ) (r : ProcessingJobRecord) → job_id (interrupted_to_pending now r) ≡ job_id r
unfolding interrupted_to_pending
job_id-interrupted_to_pending now r = ground arith

job_id-release_stale : (now : ℕ) (r : ProcessingJobRecord) → job_id (release_stale now r) ≡ job_id r
unfolding release_stale
job_id-release_stale now r = ground arith

recovered-Unique :
    (now : ℕ) (db : Db)
    → Unique job_id db.jobs
    → Unique job_id (recover_interrupted_jobs now db).jobs
unfolding recover_interrupted_jobs
recovered-Unique now db u =
    Unique-map (release_stale now) (job_id-release_stale now)
      (map (interrupted_to_pending now) db.jobs)
      (Unique-map (interrupted_to_pending now) (job_id-interrupted_to_pending now) db.jobs u)

mark_saved-Exclusive :
    (job : ProcessingJob) (b : Bool) (later : List Mark)
    → Exclusive later
    → Exclusive (mark_saved job b later)
mark_saved-Exclusive job true later h = h
mark_saved-Exclusive job false later h = h

-- Whatever workers and commands do to the table, in any order: within the time of one lease no job is
-- claimed a second time before its claim is released, by the writing of it as pending, by its being
-- queued again, or by the recovery at the start of a process.
pub marks-Exclusive :
    (queue : Queue) (start : ℕ) (steps : List Step) (db : Db)
    → Unique job_id db.jobs
    → All (IsWithin start queue.claim_lease) steps
    → Exclusive (marks queue steps db)
unfolding marks add
marks-Exclusive queue start [] db u w = tt
marks-Exclusive queue start (claim_step now ∷ rest) db u w =
    elim (claim_next_lem queue.claim_lease now db) [
      | inr (e, _) ↦ rw e (marks-Exclusive queue start rest db u w.1)
      | inl (q, db', e, c) ↦
          let (u', held) = Unique-claim queue.claim_lease now db db' q u c in
          rw e (
            marks_avoid queue start now q.processing_job_id rest db' w.0.0 w.1 held,
            marks-Exclusive queue start rest db' u' w.1,
          )
    ]
marks-Exclusive queue start (save_step job ∷ rest) db u w =
    mark_saved-Exclusive job (same_status job.status pending) (marks queue rest (save job db).1) (
      marks-Exclusive queue start rest (save job db).1
        (saved-P (Unique job_id) db u job
          (Unique-modify job_id (write_job job) (job_id-write_job job) job.id db.jobs u))
        w.1)
marks-Exclusive queue start (add_step job ∷ rest) db u w =
    marks-Exclusive queue start rest (inserted job db)
      (inserted-P (Unique job_id) db u job (λ absent. Unique-append job_id db.jobs _ u absent)) w.1
marks-Exclusive queue start (enqueue_step id attempt request_id workspace_id now ∷ rest) db u w =
    marks-Exclusive queue start rest (enqueue queue id attempt request_id workspace_id now db).1
      (enqueued-P (Unique job_id) db u queue id attempt request_id workspace_id now (
        Unique-modify job_id (write_enqueued attempt request_id workspace_id now)
          (job_id-write_enqueued attempt request_id workspace_id now) id db.jobs u))
      w.1
marks-Exclusive queue start (recover_step now ∷ rest) db u w =
    marks-Exclusive queue start rest (recover_interrupted_jobs now db) (recovered-Unique now db u)
      w.1
