-- ===== src/Prelude/Results.antt =====
-- Code that may raise an exception of type E.
use mathlib.Core.Path.{◌≡◌, refl}
use mathlib.Core.Bool.{Bool, true, false}
use mathlib.Core.Option.{Option, none, some}

pub data Result {ℓ} (E A : Type ℓ) : Type ℓ where
  ok : A → Result E A
  err : E → Result E A

module _ {ℓ} {E A B : Type ℓ} where
  -- What stands behind a statement runs only if the statement raised nothing.
  infixl 5 ◌>>=◌
  abbrev pub ◌>>=◌ : Result E A → (A → Result E B) → Result E B
  ok a >>= rest = rest a
  err e >>= rest = err e

  -- A block that ends well has run each of its statements well.
  pub ok-bind :
      (m : Result E A) {rest : A → Result E B} {b : B}
      → (m >>= rest) ≡ ok b
      → (a : A) × (m ≡ ok a) × (rest a ≡ ok b)
  ok-bind (ok a) h = (a, refl, h)
  ok-bind (err e) h = cc

module _ {ℓ κ} {E A B : Type ℓ} {C : Type κ} where
  -- The same, for what follows from the statements one after the other.
  pub ok-then :
      (m : Result E A) {rest : A → Result E B} {b : B}
      → (m >>= rest) ≡ ok b
      → ((a : A) → m ≡ ok a → rest a ≡ ok b → C)
      → C
  ok-then (ok a) h follow = follow a refl h
  ok-then (err e) h follow = absurd cc

module _ {ℓ} {E A : Type ℓ} where
  infixl 5 ◌>>◌
  abbrev pub ◌>>◌ : Result E (Unit {ℓ}) → Result E A → Result E A
  ok done >> next = next
  err e >> next = err e

  -- A statement that ran well, and what follows it.
  pub ok-next :
      (m : Result E (Unit {ℓ})) {next : Result E A} {a : A}
      → (m >> next) ≡ ok a
      → (m ≡ ok tt) × (next ≡ ok a)
  ok-next (ok done) h = (refl, h)
  ok-next (err e) h = absurd cc

module _ {ℓ} {E : Type ℓ} where
  -- `if not passed: raise e`
  abbrev pub require : E → Bool → Result E (Unit {ℓ})
  require e true = ok tt
  require e false = err e

module _ {ℓ} {E A : Type ℓ} where
  -- `if found is None: raise e`
  abbrev pub present : E → Option A → Result E A
  present e none = err e
  present e (some a) = ok a

  pub present-ok : (e : E) (o : Option A) {a : A} → present e o ≡ ok a → o ≡ some a
  present-ok e none h = cc
  present-ok e (some a) h = cc

  pub require-ok :
      (e : E) (b : Bool) {next : Result E A} {a : A}
      → (require e b >> next) ≡ ok a
      → (b ≡ true) × (next ≡ ok a)
  require-ok e true h = (refl, h)
  require-ok e false h = absurd cc
