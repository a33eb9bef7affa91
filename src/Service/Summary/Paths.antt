-- ===== src/Service/Summary/Paths.antt =====
-- The ids of frames against the places of the frames in the tree.
use flashloan_scanner.Base.{
  ℕ, String, Bool, true, false, ◌||◌, ◌≡◌, ◌⊎◌, refl, ap, ◌∙◌, arith, str_eq, eq_iff, text_append,
  Bool-cases, inl, inr, str_eq→eq, or-eq-true,
}
use flashloan_scanner.Base.Text.{has_prefix, text_length}
use flashloan_scanner.Base.Decimal.{decimal, decimal-injective, decimal-Lacks}
use flashloan_scanner.Base.Prefix.{
  text_length-append, has_prefix-length, has_prefix_trans, has_prefix-common, has_prefix-append,
  has_prefix_self, has_prefix_refl, rest_behind, same_until,
}
use flashloan_scanner.Service.Summary.Flatten.{child_id}
use text.Mathlib.TextLemmas.{append_assoc}

-- The test of collectSubtreeFrameIDs.
abbrev pub below : String → String → Bool
below root_id id = str_eq id root_id || has_prefix id (text_append root_id ".")

below-cases :
    (a x : String) → below a x ≡ true → (x ≡ a) ⊎ (has_prefix x (text_append a ".") ≡ true)
below-cases a x h = elim (or-eq-true (str_eq x a) _ h) [
  | inl same ↦ inl (str_eq→eq x a same)
  | inr under ↦ inr under
]

pub below_self : (a : String) → below a a ≡ true
below_self a = ground (arith, eq_iff a a)

under-below : (a x : String) → has_prefix x (text_append a ".") ≡ true → below a x ≡ true
under-below a x h = ground (arith, h)

-- A text below `b` has all prefixes of `b`.
below-has_prefix :
    (p b x : String) → has_prefix b p ≡ true → below b x ≡ true → has_prefix x p ≡ true
below-has_prefix p b x h k = elim (below-cases b x k) [
  | inl same ↦ rw same h
  | inr under ↦ has_prefix_trans x (text_append b ".") p under (has_prefix-append b "." p h)
]

pub below_trans : (a b x : String) → below a b ≡ true → below b x ≡ true → below a x ≡ true
below_trans a b x h k = elim (below-cases a b h) [
  | inl same ↦ rw same at k
  | inr under ↦ under-below a x (below-has_prefix (text_append a ".") b x under k)
]

-- A child's id goes on behind a dot.
child_under : (id : String) (k : ℕ) → has_prefix (child_id id k) (text_append id ".") ≡ true
unfolding child_id
child_under id k =
    rw (has_prefix-common id (text_append "." (decimal k)) ".") (has_prefix_self "." (decimal k))

pub child_below : (id : String) (k : ℕ) → below id (child_id id k) ≡ true
child_below id k = under-below id (child_id id k) (child_under id k)

-- No frame's id is below the id of its child.
pub parent_not_below : (id r : String) (k : ℕ) → below (child_id id k) r ≡ true → below r id ≡ false
parent_not_below id r k h = elim (Bool-cases (below r id)) [
  | inr apart ↦ apart
  | inl yes_it_is ↦
      let longer = has_prefix-length (child_id id k) (text_append id ".") (child_under id k) in
      let shorter = has_prefix-length id (text_append id ".") (
        below-has_prefix (text_append id ".") (child_id id k) id (child_under id k)
          (below_trans (child_id id k) r id h yes_it_is)) in
      absurd (omega (arith, shorter, text_length-append id ".", dot_length))
]
  where
    dot_length : text_length "." ≡ 1
    dot_length = unfold text_length in refl

-- Whatever is below a text begins with it and a dot, once a dot is added.
below-closed :
    (a x : String) → below a x ≡ true → has_prefix (text_append x ".") (text_append a ".") ≡ true
below-closed a x h = elim (below-cases a x h) [
  | inl same ↦ rw same (has_prefix_refl (text_append a "."))
  | inr under ↦ has_prefix-append x "." (text_append a ".") under
]

child_closed :
    (id : String) (k : ℕ)
    → text_append (child_id id k) "."
      ≡ text_append id (text_append "." (text_append (decimal k) "."))
unfolding child_id
child_closed id k =
    append_assoc id (text_append "." (decimal k)) "."
    ∙ ap (text_append id) (append_assoc "." (decimal k) ".")

-- The ids of two children have no id below both.
pub siblings :
    (id x : String) (j k : ℕ)
    → below (child_id id j) x ≡ true
    → below (child_id id k) x ≡ true
    → j ≡ k
siblings id x j k h l =
    let closing : (n : ℕ)
        → below (child_id id n) x ≡ true
        → has_prefix (text_append x ".")
            (text_append id (text_append "." (text_append (decimal n) ".")))
          ≡ true =
      λ n b. rw (child_closed id n) at (below-closed (child_id id n) x b) in
    let (y, one, other) = rest_behind (text_append x ".") id _ _ (closing j h) (closing k l) in
    let (z, one', other') = rest_behind y "." _ _ one other in
    decimal-injective j k (
      same_until "." z (decimal j) (decimal k) "" "" (decimal-Lacks j) (decimal-Lacks k) one'
        other')
