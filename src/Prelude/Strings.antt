-- ===== src/Prelude/Strings.antt =====
-- White space, and Python's `strip` of a string, which is idempotent.
use Prim.Native.Nat.{ℕ, suc}
use Prim.Native.Char.{Char, code}
use Prim.Native.String.{String}
use mathlib.Core.Path.{◌≡◌, refl}
use mathlib.Core.Logic.{inl, inr}
use mathlib.Core.Bool.{Bool, ◌&&◌, ◌||◌}
use memovi.Prelude.Tests.{leb, ◌==◌, if◌then◌else◌, Bool-cases}

-- `str.isspace` of one character, by which `strip` and `rstrip` go.
abbrev pub is_space : ℕ → Bool
is_space c =
    (leb 9 c && leb c 13)
    || (leb 28 c && leb c 32)
    || c == 133
    || c == 160
    || c == 5760
    || (leb 8192 c && leb c 8202)
    || c == 8232
    || c == 8233
    || c == 8239
    || c == 8287
    || c == 12288

-- `len` of a string.
unfoldable pub size : String → ℕ
size String.[] = 0
size (String.◌∷◌ c rest) = suc (size rest)

unfoldable pub lstrip : String → String
lstrip String.[] = String.[]
lstrip (String.◌∷◌ c rest) =
    let stripped = lstrip rest in if is_space (code c) then stripped else String.◌∷◌ c rest

abbrev pub keep_or_drop : Char → String → String
keep_or_drop c String.[] = if is_space (code c) then String.[] else String.◌∷◌ c String.[]
keep_or_drop c (String.◌∷◌ d rest) = String.◌∷◌ c (String.◌∷◌ d rest)

unfoldable pub rstrip : String → String
rstrip String.[] = String.[]
rstrip (String.◌∷◌ c rest) = keep_or_drop c (rstrip rest)

unfoldable pub strip : String → String
unfolding lstrip rstrip
strip s = lstrip (rstrip s)

-- A text that `rstrip` leaves alone, and so the rest of it.
keep_or_drop_fixed :
    (c : Char) (rest stripped : String)
    → keep_or_drop c stripped ≡ String.◌∷◌ c rest
    → stripped ≡ rest
keep_or_drop_fixed c rest String.[] h = elim (Bool-cases (is_space (code c))) [
  | inl e ↦ cc
  | inr e ↦ cc
]
keep_or_drop_fixed c rest (String.◌∷◌ d s) h = cc

rstrip-keep_or_drop :
    (c : Char) (s : String) → rstrip s ≡ s → rstrip (keep_or_drop c s) ≡ keep_or_drop c s
unfolding rstrip
rstrip-keep_or_drop c String.[] h = elim (Bool-cases (is_space (code c))) [
  | inl e ↦ rw e refl
  | inr e ↦ rw (e, e) refl
]
rstrip-keep_or_drop c (String.◌∷◌ d rest) h = rw h refl

rstrip_twice : (s : String) → rstrip (rstrip s) ≡ rstrip s
unfolding rstrip
rstrip_twice String.[] = refl
rstrip_twice (String.◌∷◌ c rest) = rstrip-keep_or_drop c (rstrip rest) (rstrip_twice rest)

rstrip-lstrip : (s : String) → rstrip s ≡ s → rstrip (lstrip s) ≡ lstrip s
unfolding rstrip lstrip
rstrip-lstrip String.[] h = refl
rstrip-lstrip (String.◌∷◌ c rest) h = elim (Bool-cases (is_space (code c))) [
  | inl e ↦ rw e (rstrip-lstrip rest (keep_or_drop_fixed c rest (rstrip rest) h))
  | inr e ↦ rw e h
]

lstrip_twice : (s : String) → lstrip (lstrip s) ≡ lstrip s
unfolding lstrip
lstrip_twice String.[] = refl
lstrip_twice (String.◌∷◌ c rest) = elim (Bool-cases (is_space (code c))) [
  | inl e ↦ rw e (lstrip_twice rest)
  | inr e ↦ rw (e, e) refl
]

pub strip_twice : (s : String) → strip (strip s) ≡ strip s
unfolding strip
strip_twice s = rw (rstrip-lstrip (rstrip s) (rstrip_twice s)) (lstrip_twice (rstrip s))
