-- ===== src/Aggregator/Ordering.antt =====
-- The sorted list of a summary's protocols.
use flashloan_scanner.Base.{
  String, ◌≡◌, refl, sym, Bool, true, false, ◌||◌, List, [], ◌∷◌, arith, any, str_eq, eq_iff,
  Bool-cases, inl, inr,
}
use flashloan_scanner.Base.Order.{text_ltb, text_ltb-total}
use flashloan_scanner.Base.Distinct.{Once, any_old}
use flashloan_scanner.Aggregator.{insert_sorted, sort_protocols, add_protocol}

-- `p` is smaller than the first text.
abbrev Before : String → List String → Type 0
Before p [] = Unit
Before p (q ∷ qs) = text_ltb p q ≡ true

-- Each text is smaller than the next.
abbrev pub Ascending : List String → Type 0
Ascending [] = Unit
Ascending (p ∷ ps) = Before p ps × Ascending ps

any-insert_sorted :
    (test : String → Bool) (p : String) (ps : List String)
    → any test (insert_sorted p ps) ≡ (test p || any test ps)
unfolding insert_sorted
any-insert_sorted test p [] = refl
any-insert_sorted test p (q ∷ qs) = ground (arith, any-insert_sorted test p qs)

-- Sorting keeps what the list holds.
pub any-sort_protocols :
    (test : String → Bool) (ps : List String) → any test (sort_protocols ps) ≡ any test ps
unfolding sort_protocols
any-sort_protocols test [] = refl
any-sort_protocols test (p ∷ ps) =
    ground (arith, any-insert_sorted test p (sort_protocols ps), any-sort_protocols test ps)

Before-insert_sorted :
    (q p : String) (qs : List String)
    → text_ltb q p ≡ true
    → Before q qs
    → Before q (insert_sorted p qs)
unfolding insert_sorted
Before-insert_sorted q p [] h b = h
Before-insert_sorted q p (r ∷ rs) h b = ground arith

insert_sorted-Ascending :
    (p : String) (ps : List String)
    → any (str_eq p) ps ≡ false
    → Ascending ps
    → Ascending (insert_sorted p ps)
unfolding insert_sorted
insert_sorted-Ascending p [] o a = (tt, tt)
insert_sorted-Ascending p (q ∷ qs) o a = elim (Bool-cases (text_ltb p q)) [
  | inl smaller ↦ rw smaller (smaller, a)
  | inr other ↦
      let after = text_ltb-total p q other (λ e. ground (arith, eq_iff p q)) in
      rw other
        (Before-insert_sorted q p qs after a.0, insert_sorted-Ascending p qs (ground arith) a.1)
]

pub sort_protocols-Ascending : (ps : List String) → Once ps → Ascending (sort_protocols ps)
unfolding sort_protocols
sort_protocols-Ascending [] o = tt
sort_protocols-Ascending (p ∷ ps) o =
    insert_sorted-Ascending p (sort_protocols ps) (ground (arith, any-sort_protocols (str_eq p) ps))
      (sort_protocols-Ascending ps o.1)

pub add_protocol-Once : (p : String) (set : List String) → Once set → Once (add_protocol p set)
unfolding add_protocol
add_protocol-Once p set o = elim (Bool-cases (any (str_eq p) set)) [
  | inl old ↦ rw old o
  | inr new ↦ rw new (new, o)
]

pub any-add_protocol :
    (q p : String) (set : List String)
    → any (str_eq q) (add_protocol p set) ≡ (str_eq q p || any (str_eq q) set)
unfolding add_protocol
any-add_protocol q p set = elim (Bool-cases (any (str_eq p) set)) [
  | inl old ↦ rw old (sym (any_old p q set old))
  | inr new ↦ rw new refl
]
