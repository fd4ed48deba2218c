-- ===== src/Documents/Queue/Claim.antt =====
-- Which row a claim takes, and that a claim holds for the time of its lease.
use mathlib.Core.List.{Memᴰ}
use memovi.Prelude.{
  ℕ, ◌≤◌, ◌≡◌, refl, ◌⊎◌, inl, inr, Bool, true, false, none, some, List, [], ◌∷◌, filter, leb, All,
  In, arith, Bool-cases, Option-cases, subst, leb→le,
}
use memovi.Prelude.Table.{modify}
use memovi.Documents.Session.{Db, ProcessingJobRecord, job_id}
use memovi.Documents.Queue.{
  QueuedProcessingJob, claimable, earliest, older, stamp_claim, queued_of, claim_next,
}

-- Where the filtered list is empty, no row passes the test.
earliest-none :
    (p : ProcessingJobRecord → Bool) (rs : List ProcessingJobRecord)
    → earliest (filter p rs) ≡ none
    → All (λ r. p r ≡ false) rs
unfolding earliest
earliest-none p [] h = tt
earliest-none p (r ∷ rs) h = elim (Bool-cases (p r)) [
  | inl e ↦ ground (arith, h, e)
  | inr e ↦ (e, earliest-none p rs (rw e at h))
]

abbrev OldestOf : (ProcessingJobRecord → Bool) → List ProcessingJobRecord → ℕ → Type 0
OldestOf p rs created = All (λ x. p x ≡ true → created ≤ x.created_at) rs

OldestOf-none :
    (p : ProcessingJobRecord → Bool) (created : ℕ) (rs : List ProcessingJobRecord)
    → All (λ r. p r ≡ false) rs
    → OldestOf p rs created
OldestOf-none p created [] h = tt
OldestOf-none p created (x ∷ rs) h = ((λ e. cc (h.0)), OldestOf-none p created rs h.1)

OldestOf-le :
    (p : ProcessingJobRecord → Bool) (a b : ℕ) (rs : List ProcessingJobRecord)
    → a ≤ b
    → OldestOf p rs b
    → OldestOf p rs a
OldestOf-le p a b [] h o = tt
OldestOf-le p a b (x ∷ rs) h o = ((λ e. omega (arith, o.0 e)), OldestOf-le p a b rs h o.1)

-- The row that `earliest` picks passes the test, stands in the list, and no row that passes is older.
pub record IsPicked (p : ProcessingJobRecord → Bool) (rs : List ProcessingJobRecord)
    (r : ProcessingJobRecord) : Type 0 where
  pub stands : In r rs
  pub passes : p r ≡ true
  pub oldest : All (λ x. p x ≡ true → r.created_at ≤ x.created_at) rs

older-IsPicked :
    (p : ProcessingJobRecord → Bool) (x : ProcessingJobRecord) (rs : List ProcessingJobRecord)
    {s r : ProcessingJobRecord}
    → p x ≡ true
    → IsPicked p rs s
    → older x (some s) ≡ some r
    → IsPicked p (x ∷ rs) r
older-IsPicked p x rs {s} {r} e k h = elim (Bool-cases (leb x.created_at s.created_at)) [
  | inl le ↦ subst (IsPicked p (x ∷ rs)) (ground (arith, h, le)) (record {
    stands = Memᴰ.head refl;
    passes = e;
    oldest =
        ((λ _. omega arith), OldestOf-le p x.created_at s.created_at rs (leb→le _ _ le) k.oldest);
  })
  | inr gt ↦ subst (IsPicked p (x ∷ rs)) (ground (arith, h, gt)) (record {
    stands = Memᴰ.tail k.stands;
    passes = k.passes;
    oldest = ((λ _. ground (arith, gt)), k.oldest);
  })
]

earliest-IsPicked :
    (p : ProcessingJobRecord → Bool) (rs : List ProcessingJobRecord) {r : ProcessingJobRecord}
    → earliest (filter p rs) ≡ some r
    → IsPicked p rs r
unfolding earliest
earliest-IsPicked p [] h = cc
earliest-IsPicked p (x ∷ rs) {r} h = elim (Bool-cases (p x)) [
  | inr e ↦
      let k = earliest-IsPicked p rs (rw e at h) in
      record { stands = Memᴰ.tail k.stands; passes = k.passes; oldest = ((λ e'. cc), k.oldest) }
  | inl e ↦ elim (Option-cases (earliest (filter p rs))) [
    | inl empty ↦ subst (IsPicked p (x ∷ rs)) (ground (arith, h, e, empty)) (record {
      stands = Memᴰ.head refl;
      passes = e;
      oldest = ((λ _. omega arith), OldestOf-none p x.created_at rs (earliest-none p rs empty));
    })
    | inr (s, found) ↦
        older-IsPicked p x rs e (earliest-IsPicked p rs found) (ground (arith, h, e, found))
  ]
]

-- What a claim does when it returns a job: the row that it took was claimable, no claimable row is
-- older, and that row alone changes, by the stamp of the claim.
pub record IsClaim (claim_lease now : ℕ) (db : Db) (q : QueuedProcessingJob) (db' : Db)
    : Type 0 where
  pub row : ProcessingJobRecord
  pub picked : IsPicked (claimable claim_lease now) db.jobs row
  pub reports : q ≡ queued_of row
  pub stamped : db' ≡ record db { jobs = modify job_id row.id (stamp_claim now) db.jobs }

-- A claim that returns a job takes the oldest claimable row and stamps it; one that returns none found
-- no claimable row and changes nothing.
pub claim_next_lem :
    (claim_lease now : ℕ) (db : Db)
    → ((q : QueuedProcessingJob) × (db' : Db) × (claim_next claim_lease now db ≡ (some q, db'))
        × IsClaim claim_lease now db q db')
      ⊎ ((claim_next claim_lease now db ≡ (none, db))
          × All (λ r. claimable claim_lease now r ≡ false) db.jobs)
unfolding claim_next
claim_next_lem claim_lease now db =
    elim (Option-cases (earliest (filter (claimable claim_lease now) db.jobs))) [
      | inl e ↦ inr (rw (e, claim_next), earliest-none (claimable claim_lease now) db.jobs e)
      | inr (r, e) ↦ inl (
        queued_of r,
        record db { jobs = modify job_id r.id (stamp_claim now) db.jobs },
        rw (e, claim_next),
        record {
          row = r;
          picked = earliest-IsPicked (claimable claim_lease now) db.jobs e;
          reports = refl;
          stamped = refl;
        },
      )
    ]
