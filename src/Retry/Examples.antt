-- ===== src/Retry/Examples.antt =====
-- An operation that fails until its third call; the world counts the calls.
use flashloan_scanner.Base.{ℕ, ◌+◌, ◌≡◌, refl, none, Outcome, ok, err, arith, leb, if◌then◌else◌}
use flashloan_scanner.Base.Decimal.{decimal}
use flashloan_scanner.Retry.{do_retry, failed_permanently}
use flashloan_scanner.Retry.Attempts.{do_retry-ok, do_retry-err}

abbrev third_time : ℕ → Outcome ℕ × ℕ
third_time calls = (if leb 2 calls then ok calls else err "refused", calls + 1)

abbrev wait : ℕ → ℕ → ℕ
wait duration calls = calls

given_up :
    do_retry (λ w. none) (λ i. i) wait third_time 2 0
    ≡ (err "operation failed permanently after 2 attempts: refused", 2)
unfolding do_retry decimal
given_up = refl

do_retry-ok_example : do_retry (λ w. none) (λ i. i) wait third_time 5 0 ≡ (ok 2, 3)
do_retry-ok_example =
    do_retry-ok (λ w. none) (λ i. i) wait third_time 5 2 0 2 2 (omega arith)
      ("refused", refl, refl, ("refused", refl, refl, refl)) refl refl

do_retry-err_example :
    do_retry (λ w. none) (λ i. i) wait third_time 2 0 ≡ (err (failed_permanently 2 "refused"), 2)
do_retry-err_example =
    do_retry-err (λ w. none) (λ i. i) wait third_time 1 0 1 "refused" ("refused", refl, refl, refl)
      refl refl
