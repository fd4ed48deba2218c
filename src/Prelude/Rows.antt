-- ===== src/Prelude/Rows.antt =====
-- The rows that a query finds in a table and those that it counts, before and after a change.
use Prim.Native.Nat.{ℕ, ◌+◌, ◌≤◌}
use Prim.Native.String.{String}
use mathlib.Core.Path.{◌≡◌, sym, subst}
use mathlib.Core.Logic.{◌≢◌, inl, inr}
use mathlib.Core.Bool.{Bool, true, false}
use mathlib.Core.Option.{none, some}
use mathlib.Core.List.{List, [], ◌∷◌, ◌++◌, Memᴰ}
use native.Mathlib.Omega.{arith}
use text.Mathlib.Text.{◌==◌ as str_eq}
use text.Mathlib.TextEquality.{eq_iff}
use memovi.Prelude.Tests.{Bool-cases, is_some, text-cases}
use memovi.Prelude.Lists.{All, In}
use memovi.Prelude.Table.{get, modify, remove, find, Unique}

abbrev pub bit : Bool → ℕ
bit true = 1
bit false = 0

module _ {ℓ} {R : Type ℓ} where
  -- COUNT of the rows that pass a test.
  abbrev pub count : (R → Bool) → List R → ℕ
  count q [] = 0
  count q (r ∷ rs) = bit (q r) + count q rs

  pub count-append :
      (q : R → Bool) (rs : List R) (r : R) → count q (rs ++ r ∷ []) ≡ count q rs + bit (q r)
  count-append q [] r = omega arith
  count-append q (x ∷ rs) r = omega (arith, count-append q rs r)

  pub find-passes : (p : R → Bool) (rs : List R) {r : R} → find p rs ≡ some r → p r ≡ true
  unfolding find
  find-passes p [] h = cc
  find-passes p (x ∷ rs) {r} h = elim (Bool-cases (p x)) [
    | inl e ↦ ground (arith, h, e)
    | inr e ↦ find-passes p rs (rw e at h)
  ]

  pub find-In : (p : R → Bool) (rs : List R) {r : R} → find p rs ≡ some r → In r rs
  unfolding find
  find-In p [] h = cc
  find-In p (x ∷ rs) {r} h = elim (Bool-cases (p x)) [
    | inl e ↦ Memᴰ.head (ground (arith, h, e))
    | inr e ↦ Memᴰ.tail (find-In p rs (rw e at h))
  ]

  pub count_of_In : (q : R → Bool) (rs : List R) {r : R} → In r rs → q r ≡ true → 1 ≤ count q rs
  count_of_In q [] i e = elim i [ ]
  count_of_In q (x ∷ rs) {r} (Memᴰ.head same) e =
      let here : q x ≡ true = subst (λ y. q y ≡ true) same e in rw here (omega arith)
  count_of_In q (x ∷ rs) (Memᴰ.tail i) e = let rest = count_of_In q rs i e in omega arith

  -- A stronger test counts fewer.
  pub count_mono :
      (q p : R → Bool)
      → ((r : R) → q r ≡ true → p r ≡ true)
      → (rs : List R) → count q rs ≤ count p rs
  count_mono q p h [] = omega arith
  count_mono q p h (x ∷ rs) =
      let rest = count_mono q p h rs in
      elim (Bool-cases (q x)) [ inl e ↦ rw (e, h x e) (omega arith) | inr e ↦ rw e (omega arith) ]

  module _ (P : R → Type 0) where
    pub All_of_In : (rs : List R) {r : R} → All P rs → In r rs → P r
    All_of_In [] a i = elim i [ ]
    All_of_In (x ∷ rs) a (Memᴰ.head e) = rw e a.0
    All_of_In (x ∷ rs) a (Memᴰ.tail i) = All_of_In rs a.1 i

    pub All-append : (rs : List R) {r : R} → All P rs → P r → All P (rs ++ r ∷ [])
    All-append [] a p = (p, tt)
    All-append (x ∷ rs) a p = (a.0, All-append rs a.1 p)

module _ {ℓ} {R : Type ℓ} (key : R → String) where
  pub count-remove :
      (q : R → Bool) (k : String) (rs : List R) {r : R}
      → get key k rs ≡ some r
      → count q (remove key k rs) + bit (q r) ≡ count q rs
  unfolding get remove
  count-remove q k [] h = cc
  count-remove q k (x ∷ rs) {r} h = elim (Bool-cases (str_eq (key x) k)) [
    | inl e ↦ let same : x ≡ r = ground (arith, h, e) in rw (e, same) (omega arith)
    | inr e ↦ let rest = count-remove q k rs (rw e at h) in rw e (omega arith)
  ]

  pub count-modify :
      (q : R → Bool) (k : String) (f : R → R) (rs : List R) {r : R}
      → get key k rs ≡ some r
      → count q (modify key k f rs) + bit (q r) ≡ count q rs + bit (q (f r))
  unfolding get modify
  count-modify q k f [] h = cc
  count-modify q k f (x ∷ rs) {r} h = elim (Bool-cases (str_eq (key x) k)) [
    | inl e ↦ let same : x ≡ r = ground (arith, h, e) in rw (e, same) (omega arith)
    | inr e ↦ let rest = count-modify q k f rs (rw e at h) in rw e (omega arith)
  ]

  module _ (P : R → Type 0) where
    pub All-remove : (k : String) (rs : List R) → All P rs → All P (remove key k rs)
    unfolding remove
    All-remove k [] a = tt
    All-remove k (x ∷ rs) a = elim (Bool-cases (str_eq (key x) k)) [
      | inl e ↦ rw e a.1
      | inr e ↦ rw e (a.0, All-remove k rs a.1)
    ]

    pub All-modify :
        (k : String) (f : R → R)
        → ((r : R) → P r → P (f r))
        → (rs : List R) → All P rs
        → All P (modify key k f rs)
    unfolding modify
    All-modify k f keeps [] a = tt
    All-modify k f keeps (x ∷ rs) a = elim (Bool-cases (str_eq (key x) k)) [
      | inl e ↦ rw e (keeps x a.0, a.1)
      | inr e ↦ rw e (a.0, All-modify k f keeps rs a.1)
    ]

  pub Unique-remove : (k : String) (rs : List R) → Unique key rs → Unique key (remove key k rs)
  unfolding remove
  Unique-remove k [] u = tt
  Unique-remove k (x ∷ rs) u = elim (Bool-cases (str_eq (key x) k)) [
    | inl e ↦ rw e u.1
    | inr e ↦ rw e (All-remove (λ y. key y ≢ key x) k rs u.0, Unique-remove k rs u.1)
  ]

  -- A key that no row has may be added.
  pub ne_of_get : (k : String) (rs : List R) → get key k rs ≡ none → All (λ y. key y ≢ k) rs
  unfolding get
  ne_of_get k [] h = tt
  ne_of_get k (x ∷ rs) h = elim (text-cases (key x) k) [
    | inl (b, e) ↦ absurd (ground (arith, h, b))
    | inr (b, n) ↦ (n, ne_of_get k rs (rw b at h))
  ]

  pub Unique-append :
      (rs : List R) (r : R) → Unique key rs → get key (key r) rs ≡ none → Unique key (rs ++ r ∷ [])
  Unique-append rs r u h = appended rs u (ne_of_get (key r) rs h)
    where
      appended :
          (rs : List R) → Unique key rs → All (λ y. key y ≢ key r) rs → Unique key (rs ++ r ∷ [])
      appended [] u n = (tt, tt)
      appended (x ∷ rs) u n =
          (All-append (λ y. key y ≢ key x) rs u.0 (λ e. n.0 (sym e)), appended rs u.1 n.1)

  pub get-append_ne :
      (k : String) (rs : List R) (r : R) → key r ≢ k → get key k (rs ++ r ∷ []) ≡ get key k rs
  unfolding get
  get-append_ne k [] r n = ground (arith, eq_iff (key r) k)
  get-append_ne k (x ∷ rs) r n = ground (arith, get-append_ne k rs r n)

  pub get-append_self :
      (rs : List R) (r : R) → get key (key r) rs ≡ none → get key (key r) (rs ++ r ∷ []) ≡ some r
  unfolding get
  get-append_self [] r h = ground (arith, eq_iff (key r) (key r))
  get-append_self (x ∷ rs) r h = elim (Bool-cases (str_eq (key x) (key r))) [
    | inl e ↦ absurd (ground (arith, rw e at h))
    | inr e ↦ rw e (get-append_self rs r (rw e at h))
  ]

  pub get-append_some :
      (k : String) (rs : List R) (r : R)
      → is_some (get key k rs) ≡ true
      → is_some (get key k (rs ++ r ∷ [])) ≡ true
  unfolding get
  get-append_some k [] r h = cc
  get-append_some k (x ∷ rs) r h = ground (arith, get-append_some k rs r)
