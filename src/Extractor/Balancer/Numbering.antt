-- ===== src/Extractor/Balancer/Numbering.antt =====
-- Groups by their position: the legs of a group count up, and so do the groups when an event is
-- added to one or opens another.
use mathlib.Core.Path.{subst}
use flashloan_scanner.Base.{
  ℕ, suc, ◌+◌, ◌≡◌, String, none, some, List, [], ◌∷◌, ◌++◌, length, str_eq, str_eq→eq, Bool-cases,
  inl, inr, arith,
}
use flashloan_scanner.Base.Dict.{lookup, insert, string_eq}
use flashloan_scanner.Types.{InteractionLeg}
use flashloan_scanner.Extractor.Balancer.{GroupedInteraction, Groups}

-- The legs from position `i` on carry the id of their interaction and their position.
abbrev pub Counted : String → ℕ → List InteractionLeg → Type 0
Counted id i [] = Unit
Counted id i (leg ∷ legs) =
    (leg.interaction_id ≡ id) × (leg.leg_index ≡ i) × Counted id (suc i) legs

pub Counted-snoc :
    (id : String) (i : ℕ) (legs : List InteractionLeg) (leg : InteractionLeg)
    → leg.interaction_id ≡ id
    → leg.leg_index ≡ i + length legs
    → Counted id i legs
    → Counted id i (legs ++ leg ∷ [])
Counted-snoc id i [] leg its_id its_index h = (its_id, omega (arith, its_index), tt)
Counted-snoc id i (first ∷ legs) leg its_id its_index h =
    (h.0, h.1, Counted-snoc id (suc i) legs leg its_id (omega (arith, its_index)) h.2)

-- A property of every group, its position and its key.
abbrev pub Numbered : (ℕ → String → GroupedInteraction → Type 0) → ℕ → Groups → Type 0
Numbered P n [] = Unit
Numbered P n ((key, group) ∷ groups) = P n key group × Numbered P (suc n) groups

pub Numbered-insert_found :
    (P : ℕ → String → GroupedInteraction → Type 0) (key : String) (old new : GroupedInteraction)
    → ((i : ℕ) → P i key old → P i key new)
    → (n : ℕ) (groups : Groups) → lookup ⦃e = string_eq⦄ key groups ≡ some old
    → Numbered P n groups
    → Numbered P n (insert ⦃e = string_eq⦄ key new groups)
unfolding lookup insert
Numbered-insert_found P key old new keep n [] found h = cc
Numbered-insert_found P key old new keep n ((other, group) ∷ groups) found h =
    elim (Bool-cases (str_eq other key)) [
      | inr different ↦
          rw (different, insert)
            (
              h.0,
              Numbered-insert_found P key old new keep (suc n) groups
                  (rw (different, lookup) at found) h.1,
            )
      | inl same ↦
          let held : group ≡ old = ground (arith, found, same) in
          rw (same, insert) (keep n (rw (str_eq→eq other key same, held) at h.0), h.1)
    ]

pub Numbered-insert_new :
    (P : ℕ → String → GroupedInteraction → Type 0) (key : String) (new : GroupedInteraction)
    (i n : ℕ) (groups : Groups)
    → lookup ⦃e = string_eq⦄ key groups ≡ none
    → i ≡ n + length groups
    → P i key new
    → Numbered P n groups
    → Numbered P n (insert ⦃e = string_eq⦄ key new groups)
unfolding lookup insert
Numbered-insert_new P key new i n [] missing place p h =
    (subst (λ j. P j key new) (omega (arith, place)) p, tt)
Numbered-insert_new P key new i n ((other, group) ∷ groups) missing place p h =
    elim (Bool-cases (str_eq other key)) [
      | inl same ↦ ground (arith, missing, same)
      | inr different ↦
          rw (different, insert)
            (
              h.0,
              Numbered-insert_new P key new i (suc n) groups (rw (different, lookup) at missing)
                  (omega (arith, place)) p h.1,
            )
    ]
