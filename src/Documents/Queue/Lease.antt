-- ===== src/Documents/Queue/Lease.antt =====
-- A claim holds for the time of its lease, whichever workers claim.
use mathlib.Core.List.{Memᴰ}
use memovi.Prelude.{
  ℕ, String, ◌+◌, ◌≤◌, ◌≡◌, refl, ◌≢◌, inl, inr, false, some, List, [], ◌∷◌, All, In, arith,
  text-cases, sym, subst, ◌∙◌,
}
use memovi.Prelude.Table.{modify, Unique, Unique-modify}
use memovi.Documents.Session.{Db, ProcessingJobRecord, job_id}
use memovi.Documents.Queue.{QueuedProcessingJob, claimable, stamp_claim}
use memovi.Documents.Queue.Claim.{IsClaim}

-- The rows with this identifier were claimed at `since`.
abbrev pub IsHeld : String → ℕ → List ProcessingJobRecord → Type 0
IsHeld id since jobs = All (λ r. r.id ≡ id → r.claimed_at ≡ some since) jobs

IsHeld-ne :
    (id : String) (since : ℕ) (rs : List ProcessingJobRecord)
    → All (λ r. job_id r ≢ id) rs
    → IsHeld id since rs
IsHeld-ne id since [] h = tt
IsHeld-ne id since (r ∷ rs) h = ((λ e. absurd (h.0 e)), IsHeld-ne id since rs h.1)

IsHeld-stamp_self :
    (id : String) (now : ℕ) (rs : List ProcessingJobRecord)
    → Unique job_id rs
    → IsHeld id now (modify job_id id (stamp_claim now) rs)
unfolding modify
IsHeld-stamp_self id now [] u = tt
IsHeld-stamp_self id now (r ∷ rs) u = elim (text-cases r.id id) [
  | inl (b, e) ↦
      rw b ((λ _. refl), IsHeld-ne id now rs (subst (λ k. All (λ x. job_id x ≢ k) rs) e u.0))
  | inr (b, ne) ↦ rw b ((λ e. absurd (ne e)), IsHeld-stamp_self id now rs u.1)
]

-- A change of another row, and one that keeps the claim.
pub IsHeld-modify_ne :
    (f : ProcessingJobRecord → ProcessingJobRecord)
    (keeps : (r : ProcessingJobRecord) → job_id (f r) ≡ job_id r) (id j : String) (since : ℕ)
    (rs : List ProcessingJobRecord)
    → j ≢ id
    → IsHeld id since rs
    → IsHeld id since (modify job_id j f rs)
unfolding modify
IsHeld-modify_ne f keeps id j since [] ne h = tt
IsHeld-modify_ne f keeps id j since (r ∷ rs) ne h = elim (text-cases r.id j) [
  | inl (b, e) ↦ rw b ((λ p. absurd (ne (sym e ∙ sym (keeps r) ∙ p))), h.1)
  | inr (b, _) ↦ rw b (h.0, IsHeld-modify_ne f keeps id j since rs ne h.1)
]

pub IsHeld-modify_kept :
    (f : ProcessingJobRecord → ProcessingJobRecord)
    (keeps : (r : ProcessingJobRecord) → job_id (f r) ≡ job_id r)
    → ((r : ProcessingJobRecord) → (f r).claimed_at ≡ r.claimed_at)
    → (id j : String) (since : ℕ) (rs : List ProcessingJobRecord) → IsHeld id since rs
    → IsHeld id since (modify job_id j f rs)
unfolding modify
IsHeld-modify_kept f keeps claim id j since [] h = tt
IsHeld-modify_kept f keeps claim id j since (r ∷ rs) h = elim (text-cases r.id j) [
  | inl (b, e) ↦ rw b ((λ p. claim r ∙ h.0 (sym (keeps r) ∙ p)), h.1)
  | inr (b, _) ↦ rw b (h.0, IsHeld-modify_kept f keeps claim id j since rs h.1)
]

claimed_of_IsHeld :
    (id : String) (since : ℕ) (rs : List ProcessingJobRecord) {r : ProcessingJobRecord}
    → IsHeld id since rs
    → In r rs
    → r.id ≡ id
    → r.claimed_at ≡ some since
claimed_of_IsHeld id since [] h i e = elim i [ ]
claimed_of_IsHeld id since (x ∷ rs) {r} h (Memᴰ.head p) e =
    subst (λ y. y.id ≡ id → y.claimed_at ≡ some since) (sym p) h.0 e
claimed_of_IsHeld id since (x ∷ rs) h (Memᴰ.tail i) e = claimed_of_IsHeld id since rs h.1 i e

not_claimable :
    (claim_lease since now : ℕ) (r : ProcessingJobRecord)
    → r.claimed_at ≡ some since
    → now ≤ since + claim_lease
    → claimable claim_lease now r ≡ false
unfolding claimable
not_claimable claim_lease since now r h le = ground arith

-- While the lease runs, no claim takes the row, and the row stays held.
pub IsClaim-IsHeld :
    (claim_lease since now : ℕ) (id : String) (db db' : Db) (q : QueuedProcessingJob)
    → IsHeld id since db.jobs
    → now ≤ since + claim_lease
    → IsClaim claim_lease now db q db'
    → (q.processing_job_id ≢ id) × IsHeld id since db'.jobs
IsClaim-IsHeld claim_lease since now id db db' q h le c =
    let other : c.row.id ≢ id = λ e. cc (
      c.picked.passes,
      not_claimable claim_lease since now c.row
          (claimed_of_IsHeld id since db.jobs h c.picked.stands e) le,
    ) in
    (
      subst (λ x. x.processing_job_id ≢ id) (sym c.reports) other,
      subst (λ d. IsHeld id since d.jobs) (sym c.stamped)
          (IsHeld-modify_ne (stamp_claim now) (λ r. refl) id c.row.id since db.jobs other h),
    )

pub Unique-claim :
    (claim_lease now : ℕ) (db db' : Db) (q : QueuedProcessingJob)
    → Unique job_id db.jobs
    → IsClaim claim_lease now db q db'
    → Unique job_id db'.jobs × IsHeld q.processing_job_id now db'.jobs
Unique-claim claim_lease now db db' q u c = (
  subst (λ d. Unique job_id d.jobs) (sym c.stamped)
      (Unique-modify job_id (stamp_claim now) (λ r. refl) c.row.id db.jobs u),
  subst (λ d. IsHeld q.processing_job_id now d.jobs) (sym c.stamped)
      (subst
        (λ x. IsHeld x.processing_job_id now (modify job_id c.row.id (stamp_claim now) db.jobs))
        (sym c.reports) (IsHeld-stamp_self c.row.id now db.jobs u)),
)
