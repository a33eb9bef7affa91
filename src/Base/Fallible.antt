-- ===== src/Base/Fallible.antt =====
-- Go's pair of a value and an `error`, where the value is used only if the error is nil. An error
-- is the text that its `Error()` method returns.
use Prim.Native.String.{String}
use mathlib.Core.Path.{◌≡◌, refl}
use mathlib.Core.Logic.{◌⊎◌, inl, inr}

pub data Outcome {ℓ} (A : Type ℓ) : Type ℓ where
  err : (message : String) → Outcome A
  ok : (value : A) → Outcome A

module _ {ℓ κ} {A : Type ℓ} {B : Type κ} where
  infixl 6 ◌>>=◌
  -- `if err != nil { return err }` between two calls.
  abbrev pub ◌>>=◌ : Outcome A → (A → Outcome B) → Outcome B
  err message >>= next = err message
  ok value >>= next = next value

  pub >>=-eq-ok :
      (first : Outcome A) (next : A → Outcome B) {result : B}
      → (first >>= next) ≡ ok result
      → (value : A) × (first ≡ ok value) × (next value ≡ ok result)
  >>=-eq-ok (err message) next h = cc
  >>=-eq-ok (ok value) next h = (value, refl, h)

pub Outcome-cases {ℓ} :
    {A : Type ℓ} (o : Outcome A)
    → ((value : A) × (o ≡ ok value)) ⊎ ((message : String) × (o ≡ err message))
Outcome-cases (ok value) = inl (value, refl)
Outcome-cases (err message) = inr (message, refl)
