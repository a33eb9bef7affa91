-- ===== src/Orchestrator/Runner/Order.antt =====
-- The transactions that a run aggregates.
use flashloan_scanner.Base.{
  ℕ, String, ◌≡◌, List, [], ◌∷◌, map, arith, any, str_eq, Bool-cases, Outcome-cases, inl, inr, ok,
}
use flashloan_scanner.Base.Distinct.{Once, unseen, unseen-Once, any-unseen}
use flashloan_scanner.Types.{CandidateInteraction}
use flashloan_scanner.Orchestrator.Runner.{
  ProtocolRunner, Run, Step, return, ◌>>=◌, ◌>>◌, verify_one, verify_all,
}

module _ {World : Type 0} where
  bind-ok :
      {A B : Type 0} (m : Step World A) (f : A → Step World B) (s : Run World) {b : B}
      → ((m >>= f) s).0 ≡ ok b
      → (a : A) × ((m s).0 ≡ ok a) × ((f a (m s).1).0 ≡ ok b)
  unfolding ◌>>=◌
  bind-ok m f s h = elim (Outcome-cases (m s).0) [
    | inl (a, good) ↦ (a, good, rw (good, ◌>>=◌) at h)
    | inr (e, bad) ↦ absurd (ground (arith, bad))
  ]

  module _ (r : ProtocolRunner World) (chain_id : ℕ) where
    abbrev hash_of : CandidateInteraction → String
    hash_of i = i.tx_hash

    verify_all_lem :
        (seen : List String) (interactions : List CandidateInteraction) (s : Run World)
        {hashes : List String}
        → (verify_all r chain_id seen interactions s).0 ≡ ok hashes
        → hashes ≡ unseen seen (map hash_of interactions)
    unfolding verify_all unseen ◌>>◌
    verify_all_lem seen [] s h = cc
    verify_all_lem seen (i ∷ rest) s {hashes} h = elim (Bool-cases (any (str_eq i.tx_hash) seen)) [
      | inl old ↦
          let (u, one, more) =
            bind-ok (verify_one r chain_id i) (λ _. verify_all r chain_id seen rest) s
              (rw (old, verify_all) at h) in
          rw (old, unseen) (verify_all_lem seen rest (verify_one r chain_id i s).1 more)
      | inr new ↦
          let (u, one, more) =
            bind-ok (verify_one r chain_id i)
              (λ _. verify_all r chain_id (i.tx_hash ∷ seen) rest >>= λ others.
                return (i.tx_hash ∷ others))
              s (rw (new, verify_all) at h) in
          let t = (verify_one r chain_id i s).1 in
          let (others, found, made) =
            bind-ok (verify_all r chain_id (i.tx_hash ∷ seen) rest)
              (λ others. return (i.tx_hash ∷ others)) t more in
          rw (new, unseen) (ground (arith, made, verify_all_lem (i.tx_hash ∷ seen) rest t found))
    ]

    -- If the loop over the interactions returns no error, the transactions that it leaves to
    -- aggregate are those of the interactions, each once.
    pub verify_all-Once :
        (interactions : List CandidateInteraction) (s : Run World) {hashes : List String}
        → (verify_all r chain_id [] interactions s).0 ≡ ok hashes
        → Once hashes
          × ((h : String) → any (str_eq h) hashes ≡ any (str_eq h) (map hash_of interactions))
    verify_all-Once interactions s {hashes} h =
        let first_places = verify_all_lem [] interactions s h in
        rw first_places (
          unseen-Once [] (map hash_of interactions),
          λ h. any-unseen h [] (map hash_of interactions),
        )
