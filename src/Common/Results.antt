-- ===== src/Common/Results.antt =====
-- A computation that may throw: `err` carries the code of the thrown error.
use mathlib.Core.Path.{◌≡◌, refl}
use mathlib.Core.Logic.{◌⊎◌, inl, inr}
use mathlib.Core.Bool.{Bool, true, false}
use mathlib.Core.Option.{Option, none, some}

pub data Result {ℓ κ} (E : Type ℓ) (A : Type κ) : Type (ℓ ⊔ κ) where
  err : E → Result E A
  ok : A → Result E A

module _ {ℓ κ μ} {E : Type ℓ} {A : Type κ} {B : Type μ} where
  infixl 5 ◌>>=◌ ◌>>◌
  -- A statement, and the rest of the block with what it returned.
  abbrev pub ◌>>=◌ : Result E A → (A → Result E B) → Result E B
  err thrown >>= rest = err thrown
  ok value >>= rest = rest value

  -- A statement for its check alone.
  abbrev pub ◌>>◌ : Result E A → Result E B → Result E B
  check >> rest = check >>= λ _. rest

  -- A block that returned went on from the value of its first statement.
  pub >>=-eq-ok :
      (first : Result E A) (rest : A → Result E B) {returned : B}
      → (first >>= rest) ≡ ok returned
      → (value : A) × (first ≡ ok value) × (rest value ≡ ok returned)
  >>=-eq-ok (err thrown) rest h = cc
  >>=-eq-ok (ok value) rest h = (value, refl, h)

module _ {ℓ} {E : Type ℓ} where
  -- `if (test) throw new …(code)`
  abbrev pub throw_if : Bool → E → Result E (Unit {0})
  throw_if false code = ok tt
  throw_if true code = err code

  pub throw_if-eq-ok : (test : Bool) (code : E) → throw_if test code ≡ ok tt → test ≡ false
  throw_if-eq-ok false code h = refl
  throw_if-eq-ok true code h = cc

module _ {ℓ κ} {E : Type ℓ} {A : Type κ} where
  -- `if (!value) throw new …(code)`, and the value otherwise
  abbrev pub or_throw : Option A → E → Result E A
  or_throw none code = err code
  or_throw (some value) code = ok value

  pub or_throw-eq-ok :
      (o : Option A) (code : E) {value : A} → or_throw o code ≡ ok value → o ≡ some value
  or_throw-eq-ok none code h = cc
  or_throw-eq-ok (some value) code h = cc

-- To split on a computed result and keep the equation.
pub Result-cases {ℓ κ} :
    {E : Type ℓ} {A : Type κ} (r : Result E A) → ((e : E) × (r ≡ err e)) ⊎ ((a : A) × (r ≡ ok a))
Result-cases (err e) = inl (e, refl)
Result-cases (ok a) = inr (a, refl)
