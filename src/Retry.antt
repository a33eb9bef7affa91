-- ===== src/Retry.antt =====
-- common/retry/operation.go: an operation that is tried again until it succeeds. The strategy's
-- durations, the sleep, the operation and the context are parameters; a World is what they change.
pub mod Attempts
mod Examples
use flashloan_scanner.Base.{
  ℕ, zero, suc, ◌+◌, String, Option, none, some, Outcome, ok, err, ◌==◌, if◌then◌else◌, text_append,
}
use flashloan_scanner.Base.Decimal.{decimal}

-- `Error` of ErrFailedPermanently.
unfoldable pub failed_permanently : ℕ → String → String
failed_permanently attempts last_err =
    text_append "operation failed permanently after "
      (text_append (decimal attempts) (text_append " attempts: " last_err))

unfoldable pub too_few_attempts : ℕ → String
too_few_attempts max_attempts =
    text_append "need at least 1 attempt to run op, but have "
      (text_append (decimal max_attempts) " max attempts")

module _ {T World : Type 0} (ctx_err : World → Option String) (duration : ℕ → ℕ)
    (sleep : ℕ → World → World) (op : World → Outcome T × World) where
  -- The wait behind the failed attempt `i`, which the last attempt does not have.
  unfoldable pub pause : ℕ → ℕ → World → World
  pause zero i w = w
  pause (suc left) i w = sleep (duration i) w

  -- The loop with `left` attempts to come, of which the next is attempt `i`, and with the last error.
  unfoldable pub attempts : ℕ → ℕ → ℕ → String → World → Outcome T × World
  unfolding pause failed_permanently
  attempts max_attempts zero i last_err w = (err (failed_permanently max_attempts last_err), w)
  attempts max_attempts (suc left) i last_err w = elim (ctx_err w) [
    | some e ↦ (err e, w)
    | none ↦
        let (answer, w') = op w in
        elim answer [
          | ok value ↦ (ok value, w')
          | err e ↦ attempts max_attempts left (suc i) e (pause left i w')
        ]
  ]

  -- `Do`. A negative number of attempts is refused like 0.
  unfoldable pub do_retry : ℕ → World → Outcome T × World
  unfolding attempts too_few_attempts
  do_retry zero w = (err (too_few_attempts zero), w)
  do_retry (suc more) w = attempts (suc more) (suc more) zero "" w
