-- ===== src/Documents/Commands/Latest.antt =====
-- What the queries for the latest row of a table find.
use mathlib.Core.List.{Memᴰ}
use memovi.Prelude.{
  ℕ, ◌<◌, ◌≤◌, ◌≡◌, refl, ◌⊎◌, inl, inr, Bool, true, false, Option, none, some, List, [], ◌∷◌, All,
  In, leb, arith, Bool-cases, ap,
}
use memovi.Prelude.Rows.{All_of_In}
use memovi.Documents.Commands.{later_of, latest_by}

module _ {R : Type 0} (belongs : R → Bool) (stamp : R → ℕ) where
  -- The row belongs, and any other that does was stamped before it; or no row belongs.
  abbrev pub IsLatest : List R → Option R → Type 0
  IsLatest rows none = All (λ x. belongs x ≡ false) rows
  IsLatest rows (some r) =
      In r rows
      × (belongs r ≡ true)
      × All (λ x. belongs x ≡ true → (x ≡ r) ⊎ (stamp x < stamp r)) rows

  abbrev IsUpper : R → List R → Type 0
  IsUpper r rows = All (λ x. belongs x ≡ true → stamp x ≤ stamp r) rows

  IsUpper-le : (r s : R) (rows : List R) → stamp r ≤ stamp s → IsUpper r rows → IsUpper s rows
  IsUpper-le r s [] le h = tt
  IsUpper-le r s (x ∷ rows) le h =
      ((λ b. let lower = h.0 b in omega arith), IsUpper-le r s rows le h.1)

  -- What the query returns.
  abbrev IsFound : List R → Option R → Type 0
  IsFound rows none = All (λ x. belongs x ≡ false) rows
  IsFound rows (some r) = In r rows × (belongs r ≡ true) × IsUpper r rows

  unbelonging : (r : R) (rows : List R) → All (λ x. belongs x ≡ false) rows → IsUpper r rows
  unbelonging r [] h = tt
  unbelonging r (x ∷ rows) h = ((λ b. absurd (cc (b, h.0))), unbelonging r rows h.1)

  later-IsFound :
      (x : R) (rows : List R) (rest : Option R)
      → belongs x ≡ true
      → IsFound rows rest
      → IsFound (x ∷ rows) (later_of stamp x rest)
  later-IsFound x rows none b h = (Memᴰ.head refl, b, ((λ _. omega arith), unbelonging x rows h))
  later-IsFound x rows (some r) b h = elim (Bool-cases (leb (stamp r) (stamp x))) [
    | inl e ↦
        let below : stamp r ≤ stamp x = ground (arith, e) in
        rw e (Memᴰ.head refl, b, ((λ _. omega arith), IsUpper-le r x rows below h.2))
    | inr e ↦
        let above : stamp x ≤ stamp r = ground (arith, e) in
        rw e (Memᴰ.tail h.0, h.1, ((λ _. above), h.2))
  ]

  skip-IsFound :
      (x : R) (rows : List R) (rest : Option R)
      → belongs x ≡ false
      → IsFound rows rest
      → IsFound (x ∷ rows) rest
  skip-IsFound x rows none b h = (b, h)
  skip-IsFound x rows (some r) b h = (Memᴰ.tail h.0, h.1, ((λ yes_. absurd (cc (b, yes_))), h.2))

  latest_by-IsFound : (rows : List R) → IsFound rows (latest_by belongs stamp rows)
  unfolding latest_by
  latest_by-IsFound [] = tt
  latest_by-IsFound (x ∷ rows) = elim (Bool-cases (belongs x)) [
    | inl e ↦ rw e (later-IsFound x rows (latest_by belongs stamp rows) e (latest_by-IsFound rows))
    | inr e ↦ rw e (skip-IsFound x rows (latest_by belongs stamp rows) e (latest_by-IsFound rows))
  ]

  same_latest :
      (rows : List R) (latest found : Option R)
      → IsLatest rows latest
      → IsFound rows found
      → found ≡ latest
  same_latest rows none none l f = refl
  same_latest rows none (some r) l f = absurd (cc (f.1, All_of_In _ rows l f.0))
  same_latest rows (some r) none l f = absurd (cc (l.1, All_of_In _ rows f l.0))
  same_latest rows (some r) (some s) l f = elim (All_of_In _ rows l.2 f.0 f.1) [
    | inl e ↦ ap some e
    | inr lt ↦ let le = All_of_In _ rows f.2 l.0 l.1 in absurd (omega arith)
  ]

  -- The query finds the latest row.
  pub latest_by_lem :
      (rows : List R) (latest : Option R)
      → IsLatest rows latest
      → latest_by belongs stamp rows ≡ latest
  latest_by_lem rows latest l =
      same_latest rows latest (latest_by belongs stamp rows) l (latest_by-IsFound rows)
