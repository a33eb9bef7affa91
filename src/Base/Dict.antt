-- ===== src/Base/Dict.antt =====
-- Go's `map[K]V` as an association list with one entry for each key. Iteration order is not
-- modelled here: code that ranges over a map says where the order matters.
use mathlib.Core.Path.{◌≡◌, refl, subst}
use mathlib.Core.Logic.{◌↔◌, inl, inr}
use mathlib.Core.Bool.{Bool, true}
use mathlib.Core.List.{List, [], ◌∷◌}
use mathlib.Core.Option.{Option, none, some}
use native.Mathlib.Omega.{arith}
use Prim.Native.Nat.{ℕ}
use Prim.Native.String.{String}
use text.Mathlib.Text.{◌==◌ as str_eq}
use text.Mathlib.TextEquality.{eq_iff}
use flashloan_scanner.Base.Tests.{◌==◌, ==_iff, if◌then◌else◌, Bool-cases}
use flashloan_scanner.Base.Lists.{All}

pub record Eq {ℓ} (A : Type ℓ) : Type ℓ where
  pub beq : A → A → Bool
  pub beq_iff : (a b : A) → (beq a b ≡ true) ↔ (a ≡ b)

instance abbrev pub nat_eq : Eq ℕ
nat_eq = record { beq = ◌==◌; beq_iff = ==_iff }

instance abbrev pub string_eq : Eq String
string_eq = record { beq = str_eq; beq_iff = eq_iff }

abbrev pub Dict {ℓ κ} : Type ℓ → Type κ → Type (ℓ ⊔ κ)
Dict K V = List (K × V)

module _ {ℓ κ} {K : Type ℓ} {V : Type κ} ⦃e : Eq K⦄ where
  unfoldable pub lookup : K → Dict K V → Option V
  lookup k [] = none
  lookup k ((j, v) ∷ m) = if e.beq j k then some v else lookup k m

  unfoldable pub insert : K → V → Dict K V → Dict K V
  insert k v [] = (k, v) ∷ []
  insert k v ((j, w) ∷ m) = if e.beq j k then (k, v) ∷ m else (j, w) ∷ insert k v m

  pub lookup-insert :
      (k j : K) (v : V) (m : Dict K V)
      → lookup j (insert k v m) ≡ (if e.beq k j then some v else lookup j m)
  unfolding lookup insert
  lookup-insert k j v [] = refl
  lookup-insert k j v ((i, w) ∷ m) =
      ground (arith, e.beq_iff k j, e.beq_iff i k, e.beq_iff i j, lookup-insert k j v m)

  pub lookup-insert_self : (k : K) (v : V) (m : Dict K V) → lookup k (insert k v m) ≡ some v
  lookup-insert_self k v m = rw (lookup-insert k k v m, (e.beq_iff k k).1 refl)

  pub All-insert :
      (P : K × V → Type 0) (k : K) (v : V) (m : Dict K V)
      → P (k, v)
      → All P m
      → All P (insert k v m)
  unfolding insert
  All-insert P k v [] h hs = (h, tt)
  All-insert P k v ((j, w) ∷ m) h hs = elim (Bool-cases (e.beq j k)) [
    | inl same ↦ rw same (h, hs.1)
    | inr other ↦ rw other (hs.0, All-insert P k v m h hs.1)
  ]

  pub All-lookup :
      (P : K × V → Type 0) (k : K) (v : V) (m : Dict K V) → lookup k m ≡ some v → All P m → P (k, v)
  unfolding lookup
  All-lookup P k v [] found hs = cc
  All-lookup P k v ((j, w) ∷ m) found hs = elim (Bool-cases (e.beq j k)) [
    | inl same ↦
        let hit : j ≡ k = (e.beq_iff j k).0 same in
        let held : w ≡ v = ground (arith, found, same) in
        subst (λ u. P (k, u)) held (subst (λ i. P (i, w)) hit hs.0)
    | inr other ↦ All-lookup P k v m (rw (other, lookup) at found) hs.1
  ]

  -- A map as a function, where the order and the number of its keys play no role.
  unfoldable pub put : K → V → (K → V) → K → V
  put k v m j = if e.beq k j then v else m j
