-- ===== src/Documents/Queue/Recovery.antt =====
-- The recovery of interrupted jobs at the start of a process, and what it does to live claims.
use mathlib.Core.Path.{ap₂}
use memovi.Prelude.{◌+◌, ap, ℕ, ◌≤◌, ◌≡◌, refl, true, false, none, some, List, [], ◌∷◌, map, arith}
use memovi.Documents.Job.{pending, is_running, is_terminal}
use memovi.Documents.Session.{Db, ProcessingJobRecord}
use memovi.Documents.Queue.{
  claimable, interrupted_to_pending, release_stale, recover_interrupted_jobs,
}

-- What recovery makes of a row: a terminal row is as it was, and any other is pending, unclaimed and
-- neither started nor completed by the interrupted run.
pub record IsRecovered (now : ℕ) (before after : ProcessingJobRecord) : Type 0 where
  pub same_job : after.id ≡ before.id
  pub same_attempt : after.attempt ≡ before.attempt
  pub terminal_kept : is_terminal before.status ≡ true → after ≡ before
  pub requeued :
      is_terminal before.status ≡ false → (after.status ≡ pending) × (after.claimed_at ≡ none)
  pub restarted :
      is_running before.status ≡ true
      → (after.started_at ≡ none) × (after.completed_at ≡ none) × (after.available_at ≡ some now)

recovered : ℕ → ProcessingJobRecord → ProcessingJobRecord
recovered now r = release_stale now (interrupted_to_pending now r)

recovered-IsRecovered : (now : ℕ) (r : ProcessingJobRecord) → IsRecovered now r (recovered now r)
unfolding recovered release_stale interrupted_to_pending
recovered-IsRecovered now r = ground arith

-- Two tables, row by row.
abbrev pub Pointwise :
    (ProcessingJobRecord → ProcessingJobRecord → Type 0)
    → List ProcessingJobRecord
    → List ProcessingJobRecord
    → Type 0
Pointwise P [] [] = Unit
Pointwise P (x ∷ xs) (y ∷ ys) = P x y × Pointwise P xs ys
Pointwise P _ _ = ⊥

Pointwise-IsRecovered :
    (now : ℕ) (rs : List ProcessingJobRecord)
    → Pointwise (IsRecovered now) rs (map (release_stale now) (map (interrupted_to_pending now) rs))
unfolding recovered
Pointwise-IsRecovered now [] = tt
Pointwise-IsRecovered now (r ∷ rs) = (recovered-IsRecovered now r, Pointwise-IsRecovered now rs)

-- Recovery keeps every row in its place and its terminal rows as they are, and returns every other
-- row to the queue, with its attempt number kept.
pub recover_lem :
    (now : ℕ) (db : Db) → Pointwise (IsRecovered now) db.jobs (recover_interrupted_jobs now db).jobs
unfolding recover_interrupted_jobs
recover_lem now db = Pointwise-IsRecovered now db.jobs

recovered-recovered :
    (now later : ℕ) (r : ProcessingJobRecord) → recovered later (recovered now r) ≡ recovered now r
unfolding recovered release_stale interrupted_to_pending
recovered-recovered now later r = ground arith

recovered_again :
    (now later : ℕ) (rs : List ProcessingJobRecord)
    → let once = map (release_stale now) (map (interrupted_to_pending now) rs) in
      map (release_stale later) (map (interrupted_to_pending later) once) ≡ once
unfolding recovered
recovered_again now later [] = refl
recovered_again now later (r ∷ rs) =
    ap₂ ◌∷◌ (recovered-recovered now later r) (recovered_again now later rs)

-- A second recovery, at any time, changes nothing.
pub recover_twice :
    (now later : ℕ) (db : Db)
    → recover_interrupted_jobs later (recover_interrupted_jobs now db)
      ≡ recover_interrupted_jobs now db
unfolding recover_interrupted_jobs
recover_twice now later db = ap (λ rs. record db { jobs = rs }) (recovered_again now later db.jobs)

-- Recovery does not ask whether the worker that claimed a pending row is alive: a row that no claim
-- could take, since its lease runs, can be taken at once after another process has recovered.
pub recovery_breaks_lease :
    (claim_lease since now later : ℕ) (r : ProcessingJobRecord)
    → r.status ≡ pending
    → r.claimed_at ≡ some since
    → now ≤ since + claim_lease
    → now ≤ later
    → (claimable claim_lease now r ≡ false)
      × (claimable claim_lease later (release_stale now (interrupted_to_pending now r)) ≡ true)
unfolding claimable release_stale interrupted_to_pending
recovery_breaks_lease claim_lease since now later r p c le after = ground arith
