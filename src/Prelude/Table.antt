-- ===== src/Prelude/Table.antt =====
-- A database table as a list of rows with a text for the primary key. `session.get` is `get`, and an
-- assignment to the attributes of the row that it returned is `modify`.
use Prim.Native.String.{String}
use mathlib.Core.Path.{◌≡◌, refl, sym, subst}
use mathlib.Core.Logic.{◌≢◌, inl, inr}
use mathlib.Core.Bool.{Bool}
use mathlib.Core.Option.{Option, none, some}
use mathlib.Core.List.{List, [], ◌∷◌, Memᴰ}
use native.Mathlib.Omega.{arith}
use text.Mathlib.Text.{◌==◌ as str_eq}
use text.Mathlib.TextEquality.{eq_iff}
use memovi.Prelude.Tests.{if◌then◌else◌, Bool-cases, text-cases}
use memovi.Prelude.Lists.{All, In}

-- `one_or_none` of a query that finds one row at most.
unfoldable pub find {ℓ} : {R : Type ℓ} → (R → Bool) → List R → Option R
find p [] = none
find p (r ∷ rs) = let rest = find p rs in if p r then some r else rest

module _ {ℓ} {R : Type ℓ} (key : R → String) where
  unfoldable pub get : String → List R → Option R
  get k [] = none
  get k (r ∷ rs) = if str_eq (key r) k then some r else get k rs

  unfoldable pub modify : String → (R → R) → List R → List R
  modify k f [] = []
  modify k f (r ∷ rs) = if str_eq (key r) k then f r ∷ rs else r ∷ modify k f rs

  -- DELETE of the row of a primary key.
  unfoldable pub remove : String → List R → List R
  remove k [] = []
  remove k (r ∷ rs) = let rest = remove k rs in if str_eq (key r) k then rs else r ∷ rest

  -- A row that `get` returns has the key that was asked for.
  pub key-get : (k : String) (rs : List R) {r : R} → get k rs ≡ some r → key r ≡ k
  unfolding get
  key-get k [] h = cc
  key-get k (x ∷ rs) {r} h = elim (text-cases (key x) k) [
    | inl (b, e) ↦ ground (arith, h, e, b)
    | inr (b, _) ↦ key-get k rs (rw b at h)
  ]

  module _ (f : R → R) (keeps : (r : R) → key (f r) ≡ key r) where
    -- Reading a row after a change of it.
    pub get-modify_self :
        (k : String) (rs : List R) {r : R} → get k rs ≡ some r → get k (modify k f rs) ≡ some (f r)
    unfolding get modify
    get-modify_self k [] h = cc
    get-modify_self k (x ∷ rs) {r} h = elim (text-cases (key x) k) [
      | inl (b, e) ↦ ground (arith, keeps x)
      | inr (b, _) ↦ ground (arith, get-modify_self k rs {r = r})
    ]

    -- Reading another row is not affected.
    pub get-modify_ne : (k j : String) (rs : List R) → k ≢ j → get j (modify k f rs) ≡ get j rs
    unfolding get modify
    get-modify_ne k j [] h = refl
    get-modify_ne k j (x ∷ rs) h =
        ground (arith, keeps x, eq_iff (key x) k, eq_iff (key x) j, get-modify_ne k j rs h)

  -- The primary key: no two rows have the same.
  abbrev pub Unique : List R → Type ℓ
  Unique [] = Unit
  Unique (r ∷ rs) = All (λ x. key x ≢ key r) rs × Unique rs

  ne_of_In : {r : R} (k : String) (rs : List R) → All (λ x. key x ≢ k) rs → In r rs → key r ≢ k
  ne_of_In k [] h i = elim i [ ]
  ne_of_In {r} k (x ∷ rs) h (Memᴰ.head e) = subst (λ y. key y ≢ k) (sym e) h.0
  ne_of_In k (x ∷ rs) h (Memᴰ.tail i) = ne_of_In k rs h.1 i

  -- A row of the table is the one that its key reads.
  pub get_of_In : {r : R} (rs : List R) → Unique rs → In r rs → get (key r) rs ≡ some r
  unfolding get
  get_of_In [] u i = elim i [ ]
  get_of_In {r} (x ∷ rs) u (Memᴰ.head e) = ground (arith, eq_iff (key x) (key r))
  get_of_In {r} (x ∷ rs) u (Memᴰ.tail i) =
      ground (arith, eq_iff (key x) (key r), get_of_In rs u.1 i, ne_of_In (key x) rs u.0 i)

  module _ (f : R → R) (keeps : (r : R) → key (f r) ≡ key r) where
    All-ne-modify :
        (j k : String) (rs : List R)
        → All (λ x. key x ≢ j) rs
        → All (λ x. key x ≢ j) (modify k f rs)
    unfolding modify
    All-ne-modify j k [] h = h
    All-ne-modify j k (x ∷ rs) h = elim (Bool-cases (str_eq (key x) k)) [
      | inl e ↦ rw e (rw (keeps x) h.0, h.1)
      | inr e ↦ rw e (h.0, All-ne-modify j k rs h.1)
    ]

    pub Unique-modify : (k : String) (rs : List R) → Unique rs → Unique (modify k f rs)
    unfolding modify
    Unique-modify k [] u = u
    Unique-modify k (x ∷ rs) u = elim (Bool-cases (str_eq (key x) k)) [
      | inl e ↦ rw e (rw (keeps x) u.0, u.1)
      | inr e ↦ rw e (All-ne-modify (key x) k rs u.0, Unique-modify k rs u.1)
    ]
