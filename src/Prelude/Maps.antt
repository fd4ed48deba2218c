-- ===== src/Prelude/Maps.antt =====
-- A dictionary with texts for keys, as the list of its items in the order in which they were put in:
-- a new value for a key that is present takes the place of the old one.
use Prim.Native.String.{String}
use mathlib.Core.Path.{◌≡◌, refl}
use mathlib.Core.Logic.{inl, inr}
use mathlib.Core.Option.{Option, none, some}
use mathlib.Core.List.{List, [], ◌∷◌}
use native.Mathlib.Omega.{arith}
use text.Mathlib.Text.{◌==◌ as str_eq}
use text.Mathlib.TextEquality.{eq_iff}
use memovi.Prelude.Tests.{if◌then◌else◌, Bool-cases}

module _ {ℓ} {V : Type ℓ} where
  unfoldable pub lookup : String → List (String × V) → Option V
  lookup k [] = none
  lookup k ((j, v) ∷ items) = if str_eq j k then some v else lookup k items

  unfoldable pub insert : String → V → List (String × V) → List (String × V)
  insert k v [] = (k, v) ∷ []
  insert k v ((j, w) ∷ items) =
      let rest = insert k v items in if str_eq j k then (k, v) ∷ items else (j, w) ∷ rest

  -- `pop(key, None)`
  unfoldable pub erase : String → List (String × V) → List (String × V)
  erase k [] = []
  erase k ((j, w) ∷ items) = let rest = erase k items in if str_eq j k then rest else (j, w) ∷ rest

  unfoldable pub map_values : (V → V) → List (String × V) → List (String × V)
  map_values f [] = []
  map_values f ((j, w) ∷ items) = (j, f w) ∷ map_values f items

  -- Reading a key after an item is put in, or taken out.
  pub lookup-insert :
      (j k : String) (v : V) (items : List (String × V))
      → lookup j (insert k v items) ≡ (if str_eq k j then some v else lookup j items)
  unfolding lookup insert
  lookup-insert j k v [] = refl
  lookup-insert j k v ((i, w) ∷ items) =
      ground (arith, eq_iff i k, eq_iff i j, eq_iff k j, lookup-insert j k v items)

  pub lookup-erase :
      (j k : String) (items : List (String × V))
      → lookup j (erase k items) ≡ (if str_eq k j then none else lookup j items)
  unfolding lookup erase
  lookup-erase j k [] = ground arith
  lookup-erase j k ((i, w) ∷ items) =
      ground (arith, eq_iff i k, eq_iff i j, eq_iff k j, lookup-erase j k items)

  abbrev pub Option_map {κ} : {W : Type κ} → (V → W) → Option V → Option W
  Option_map f none = none
  Option_map f (some v) = some (f v)

  pub lookup-map_values :
      (f : V → V) (k : String) (items : List (String × V))
      → lookup k (map_values f items) ≡ Option_map f (lookup k items)
  unfolding lookup map_values
  lookup-map_values f k [] = refl
  lookup-map_values f k ((j, w) ∷ items) = elim (Bool-cases (str_eq j k)) [
    | inl e ↦ rw e refl
    | inr e ↦ rw e (lookup-map_values f k items)
  ]

  -- What is left after a key is taken out was there before.
  pub lookup_of_erase :
      (j k : String) (items : List (String × V)) {v : V}
      → lookup j (erase k items) ≡ some v
      → lookup j items ≡ some v
  lookup_of_erase j k items h = elim (Bool-cases (str_eq k j)) [
    | inl e ↦ absurd (ground (arith, lookup-erase j k items, e, h))
    | inr e ↦ ground (arith, lookup-erase j k items, e, h)
  ]
