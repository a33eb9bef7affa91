-- ===== src/Verifier/Amounts.antt =====
-- The comparison of an event's amount with a stored leg's amount by their decimal texts.
use flashloan_scanner.Base.{ℕ, ◌≡◌, refl, true, false, Option, none, some, str_eq, eq_iff, arith}
use flashloan_scanner.Base.Decimal.{decimal, decimal-injective, decimal-ne-empty}
use flashloan_scanner.Rows.{ObservedTransactionRow}
use flashloan_scanner.Verifier.Convert.{big_int_string, tx_successful}

-- Equal texts are equal numbers, and an absent amount matches nothing.
pub matches_amount :
    (amount borrowed : Option ℕ)
    → elim amount [ none ↦ false | some a ↦ str_eq (decimal a) (big_int_string borrowed) ] ≡ true
    → (n : ℕ) × (amount ≡ some n) × (borrowed ≡ some n)
unfolding big_int_string
matches_amount none borrowed h = cc
matches_amount (some a) none h = absurd (decimal-ne-empty a ((eq_iff _ _).0 h))
matches_amount (some a) (some b) h = (a, refl, cc (decimal-injective a b ((eq_iff _ _).0 h)))

pub tx_successful-some :
    (tx : Option ObservedTransactionRow)
    → tx_successful tx ≡ true
    → (row : ObservedTransactionRow) × (tx ≡ some row) × (row.status ≡ 1)
tx_successful-some none h = cc
tx_successful-some (some row) h = (row, refl, ground arith)
