-- ===== src/Base/Distinct.antt =====
-- Texts without repetition: the loops that skip a key of a map `seen` and add it otherwise.
use Prim.Native.String.{String}
use mathlib.Core.Path.{◌≡◌, refl}
use mathlib.Core.Logic.{inl, inr}
use mathlib.Core.Bool.{true, false, not, ◌&&◌, ◌||◌}
use mathlib.Core.List.{List, [], ◌∷◌}
use native.Mathlib.Omega.{arith}
use text.Mathlib.Text.{◌==◌ as str_eq}
use text.Mathlib.TextEquality.{eq_iff}
use flashloan_scanner.Base.Tests.{Bool-cases}
use flashloan_scanner.Base.Lists.{any}

-- No text stands twice.
abbrev pub Once : List String → Type 0
Once [] = Unit
Once (p ∷ ps) = (any (str_eq p) ps ≡ false) × Once ps

-- The texts that are not in `seen`, each at its first place.
unfoldable pub unseen : List String → List String → List String
unseen seen [] = []
unseen seen (x ∷ xs) = elim (any (str_eq x) seen) [
  | true ↦ unseen seen xs
  | false ↦ x ∷ unseen (x ∷ seen) xs
]

any_same :
    (p q : String) (set : List String) → str_eq q p ≡ true → any (str_eq q) set ≡ any (str_eq p) set
any_same p q [] s = refl
any_same p q (r ∷ rs) s = ground (arith, eq_iff q p, eq_iff p r, eq_iff q r, any_same p q rs s)

pub any_old :
    (p q : String) (set : List String)
    → any (str_eq p) set ≡ true
    → (str_eq q p || any (str_eq q) set) ≡ any (str_eq q) set
any_old p q set old = elim (Bool-cases (str_eq q p)) [
  | inl same ↦ rw (same, any_same p q set same, old) refl
  | inr other ↦ rw other refl
]

-- What is left holds just what the list holds and `seen` does not.
pub any-unseen :
    (q : String) (seen xs : List String)
    → any (str_eq q) (unseen seen xs) ≡ (not (any (str_eq q) seen) && any (str_eq q) xs)
unfolding unseen
any-unseen q seen [] = ground arith
any-unseen q seen (x ∷ xs) = elim (Bool-cases (any (str_eq x) seen)) [
  | inl old ↦ rw (old, unseen) (ground (arith, any_old x q seen old, any-unseen q seen xs))
  | inr new ↦
      rw (new, unseen)
        (elim (Bool-cases (str_eq q x)) [
          | inl same ↦ ground (arith, any_same x q seen same)
          | inr other ↦ ground (arith, any-unseen q (x ∷ seen) xs)
        ])
]

pub unseen-Once : (seen xs : List String) → Once (unseen seen xs)
unfolding unseen
unseen-Once seen [] = tt
unseen-Once seen (x ∷ xs) = elim (Bool-cases (any (str_eq x) seen)) [
  | inl old ↦ rw (old, unseen) (unseen-Once seen xs)
  | inr new ↦
      rw (new, unseen)
        (ground (arith, eq_iff x x, any-unseen x (x ∷ seen) xs), unseen-Once (x ∷ seen) xs)
]
