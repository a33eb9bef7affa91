-- ===== src/Verifier/Consistent.antt =====
-- What every verdict promises to those who read it.
use flashloan_scanner.Base.{◌≡◌, true, false, none, ◌≢◌}
use flashloan_scanner.Types.{VerifiedInteraction}

-- A strict loan is a verified one whose callback and repayment were seen and that opened no debt, and
-- a reason for exclusion stands just where the loan is not verified.
pub record IsConsistent (r : VerifiedInteraction) : Type 0 where
  pub strict_verified : r.strict ≡ true → r.verified ≡ true
  pub strict_called_back : r.strict ≡ true → r.callback_seen ≡ true
  pub strict_repaid : r.strict ≡ true → r.repayment_seen ≡ true
  pub strict_no_debt : r.strict ≡ true → r.contains_debt_opening ≡ false
  pub verified_no_reason : r.verified ≡ true → r.exclusion_reason ≡ none
  pub excluded_reason : r.verified ≡ false → r.exclusion_reason ≢ none
