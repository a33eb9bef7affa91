-- ===== src/Retry/Attempts.antt =====
-- When a retried operation succeeds, and when it is given up.
use flashloan_scanner.Base.{ℕ, zero, suc, ◌<◌, ◌≡◌, String, Option, none, Outcome, ok, err, arith}
use flashloan_scanner.Retry.{failed_permanently, pause, attempts, do_retry}

module _ {T World : Type 0} (ctx_err : World → Option String) (duration : ℕ → ℕ)
    (sleep : ℕ → World → World) (op : World → Outcome T × World) where
  -- The context is not cancelled and the operation fails on `n` attempts from attempt `i` on, each
  -- followed by the wait for it, and they lead from the first world to the second.
  abbrev pub Failing : ℕ → ℕ → World → World → Type 0
  Failing zero i w v = w ≡ v
  Failing (suc n) i w v =
      (e : String) × (ctx_err w ≡ none)
      × ((op w).0 ≡ err e)
      × Failing n (suc i) (sleep (duration i) (op w).1) v

  abbrev run : ℕ → ℕ → ℕ → String → World → Outcome T × World
  run = attempts ctx_err duration sleep op

  attempts-ok :
      (max_attempts n left i : ℕ) (last_err : String) (w v : World) (value : T)
      → n < left
      → Failing n i w v
      → ctx_err v ≡ none
      → (op v).0 ≡ ok value
      → run max_attempts left i last_err w ≡ (ok value, (op v).1)
  unfolding attempts pause
  attempts-ok max_attempts n zero i last_err w v value few f c good = absurd (omega arith)
  attempts-ok max_attempts zero (suc left) i last_err w v value few here c good =
      ground (arith, here, c, good)
  attempts-ok max_attempts (suc n) (suc zero) i last_err w v value few f c good =
      absurd (omega arith)
  attempts-ok max_attempts (suc n) (suc (suc left)) i last_err w v value few (e, c', bad, f) c
        good =
      ground (
        arith,
        c',
        bad,
        attempts-ok max_attempts n (suc left) (suc i) e (sleep (duration i) (op w).1) v value
            (omega arith) f c good,
      )

  attempts-err :
      (max_attempts n i : ℕ) (last_err e : String) (w v : World)
      → Failing n i w v
      → ctx_err v ≡ none
      → (op v).0 ≡ err e
      → run max_attempts (suc n) i last_err w ≡ (err (failed_permanently max_attempts e), (op v).1)
  unfolding attempts pause
  attempts-err max_attempts zero i last_err e w v here c bad = ground (arith, here, c, bad)
  attempts-err max_attempts (suc n) i last_err e w v (e', c', bad', f) c bad = ground (
    arith,
    c',
    bad',
    attempts-err max_attempts n (suc i) e' e (sleep (duration i) (op w).1) v f c bad,
  )

  -- If the context is not cancelled and the operation fails on fewer attempts than there may be, each
  -- followed by the wait for it, and then succeeds, Do returns its value and calls it no more.
  pub do_retry-ok :
      (max_attempts n : ℕ) (w v : World) (value : T)
      → n < max_attempts
      → Failing n 0 w v
      → ctx_err v ≡ none
      → (op v).0 ≡ ok value
      → do_retry ctx_err duration sleep op max_attempts w ≡ (ok value, (op v).1)
  unfolding do_retry
  do_retry-ok zero n w v value few f c good = absurd (omega arith)
  do_retry-ok (suc more) n w v value few f c good =
      attempts-ok (suc more) n (suc more) 0 "" w v value few f c good

  -- If the context is not cancelled and the operation fails on as many attempts as there may be, Do
  -- returns an error with their number and the last attempt's error, after a wait behind each
  -- attempt but the last.
  pub do_retry-err :
      (more : ℕ) (w v : World) (e : String)
      → Failing more 0 w v
      → ctx_err v ≡ none
      → (op v).0 ≡ err e
      → do_retry ctx_err duration sleep op (suc more) w
        ≡ (err (failed_permanently (suc more) e), (op v).1)
  unfolding do_retry
  do_retry-err more w v e f c bad = attempts-err (suc more) more 0 "" e w v f c bad
