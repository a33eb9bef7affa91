-- ===== src/Orchestrator/Runner/Invariants.antt =====
-- What every stage of a run keeps, the whole run keeps.
use flashloan_scanner.Base.{
  ℕ, String, Option, none, some, List, [], ◌∷◌, any, str_eq, Outcome, Bool-cases, Outcome-cases,
  inl, inr, length,
}
use flashloan_scanner.Base.Dict.{Dict}
use flashloan_scanner.Types.{
  CandidateInteraction, InteractionLeg, VerifiedInteraction, TxSummary, ObservedTransaction,
}
use flashloan_scanner.Orchestrator.Events.{advance_current_block, parse_uint64}
use flashloan_scanner.Orchestrator.Runner.{
  ProtocolRunner, Run, Step, return, ◌>>=◌, ◌>>◌, call, count, replace_groups, store_result,
  store_legs, count_result, verify_one, verify_all, report, aggregate_all, process, scan, fetch,
  run_stages,
}

module _ {World : Type 0} (Holds : Run World → Type 0) where
  pub record Preserves {A : Type 0} (m : Step World A) : Type 0 where
    pub keeps : (s : Run World) → Holds s → Holds (m s).1

  return-Preserves : {A : Type 0} (a : A) → Preserves (return a)
  return-Preserves a = record { keeps = λ s h. h }

  >>=-Preserves :
      {A B : Type 0} (m : Step World A) (f : A → Step World B)
      → Preserves m
      → ((a : A) → Preserves (f a))
      → Preserves (m >>= f)
  unfolding ◌>>=◌
  >>=-Preserves m f hm hf = record {
    keeps = λ s h. elim (Outcome-cases (m s).0) [
      | inl (a, good) ↦ rw (good, ◌>>=◌) ((hf a).keeps (m s).1 (hm.keeps s h))
      | inr (e, bad) ↦ rw (bad, ◌>>=◌) (hm.keeps s h)
    ];
  }

  pub >>-Preserves :
      {A B : Type 0} (m : Step World A) (k : Step World B)
      → Preserves m
      → Preserves k
      → Preserves (m >> k)
  unfolding ◌>>◌
  >>-Preserves m k hm hk = >>=-Preserves m (λ _. k) hm (λ _. hk)

  module _ (r : ProtocolRunner World) (chain_id from_block to_block : ℕ)
      (keep_world : (s : Run World) (w : World) → Holds s → Holds (record s { world = w }))
      (keep_observed : (n : ℕ) → Preserves (count (λ s. record s { observed_transactions = n })))
      (keep_candidates : (n : ℕ) → Preserves (count (λ s. record s { candidate_interactions = n })))
      (keep_advance : (block : ℕ) → Preserves (count (advance_current_block block)))
      (keep_result : (result : Option VerifiedInteraction)
        → Preserves (count (count_result result)))
      (keep_report : (summary : Option TxSummary)
        → Preserves (report r chain_id from_block to_block summary)) where
    call-Preserves : {A : Type 0} (f : World → Outcome A × World) → Preserves (call f)
    unfolding call
    call-Preserves f = record { keeps = λ s h. keep_world s (f s.world).1 h }

    replace_groups-Preserves :
        (groups : Dict String (List InteractionLeg)) → Preserves (replace_groups r chain_id groups)
    unfolding replace_groups
    replace_groups-Preserves [] = return-Preserves _
    replace_groups-Preserves ((id, legs) ∷ groups) =
        >>-Preserves _ _ (call-Preserves _) (replace_groups-Preserves groups)

    store_result-Preserves :
        (result : Option VerifiedInteraction) → Preserves (store_result r chain_id result)
    unfolding store_result
    store_result-Preserves none = return-Preserves _
    store_result-Preserves (some result) = call-Preserves _

    store_legs-Preserves :
        (id : String) (legs : Option (List InteractionLeg))
        → Preserves (store_legs r chain_id id legs)
    unfolding store_legs
    store_legs-Preserves id none = return-Preserves _
    store_legs-Preserves id (some legs) = call-Preserves _

    verify_one-Preserves :
        (interaction : CandidateInteraction) → Preserves (verify_one r chain_id interaction)
    unfolding verify_one
    verify_one-Preserves interaction =
        >>-Preserves _ _ (keep_advance (parse_uint64 interaction.block_number)) (
          >>=-Preserves _ _ (call-Preserves (r.verify chain_id interaction)) (λ (result, legs).
            >>-Preserves _ _ (store_result-Preserves result) (
              >>-Preserves _ _ (store_legs-Preserves interaction.interaction_id legs)
                (keep_result result))))

    verify_all-Preserves :
        (seen : List String) (interactions : List CandidateInteraction)
        → Preserves (verify_all r chain_id seen interactions)
    unfolding verify_all
    verify_all-Preserves seen [] = return-Preserves _
    verify_all-Preserves seen (interaction ∷ rest) =
        let one = verify_one-Preserves interaction in
        elim (Bool-cases (any (str_eq interaction.tx_hash) seen)) [
          | inl old ↦
              rw (old, verify_all)
                (>>-Preserves (verify_one r chain_id interaction) (verify_all r chain_id seen rest)
                  one (verify_all-Preserves seen rest))
          | inr new ↦
              rw (new, verify_all)
                (>>-Preserves (verify_one r chain_id interaction)
                  (verify_all r chain_id (interaction.tx_hash ∷ seen) rest >>= λ hashes.
                    return (interaction.tx_hash ∷ hashes))
                  one
                  (>>=-Preserves _ _ (verify_all-Preserves (interaction.tx_hash ∷ seen) rest)
                    (λ hashes. return-Preserves _)))
        ]

    aggregate_all-Preserves :
        (hashes : List String) → Preserves (aggregate_all r chain_id from_block to_block hashes)
    unfolding aggregate_all
    aggregate_all-Preserves [] = return-Preserves _
    aggregate_all-Preserves (tx_hash ∷ rest) =
        >>=-Preserves _ _ (call-Preserves _)
          (λ summary. >>-Preserves _ _ (keep_report summary) (aggregate_all-Preserves rest))

    process-Preserves :
        (interactions : List CandidateInteraction) (legs : List InteractionLeg)
        → Preserves (process r chain_id from_block to_block interactions legs)
    unfolding process
    process-Preserves [] legs = return-Preserves _
    process-Preserves (first ∷ rest) legs = >>-Preserves _ _ (call-Preserves _) (
        >>-Preserves _ _ (replace_groups-Preserves _)
          (>>=-Preserves _ _ (verify_all-Preserves [] (first ∷ rest)) aggregate_all-Preserves))

    scan-Preserves :
        (txs : List ObservedTransaction) → Preserves (scan r chain_id from_block to_block txs)
    unfolding scan
    scan-Preserves [] = return-Preserves _
    scan-Preserves (first ∷ rest) = >>=-Preserves _ _ (call-Preserves _) (λ (interactions, legs).
        >>-Preserves _ _ (keep_candidates _) (process-Preserves interactions legs))

    fetch-Preserves : Preserves (fetch r chain_id from_block to_block)
    unfolding fetch
    fetch-Preserves = elim (Bool-cases r.skip_tx_fetch) [
      | inl skip ↦ rw (skip, fetch) (return-Preserves tt)
      | inr get ↦ rw (get, fetch) (call-Preserves _)
    ]

    pub run_stages-Preserves : Preserves (run_stages r chain_id from_block to_block)
    unfolding run_stages
    run_stages-Preserves = >>-Preserves _ _ fetch-Preserves (
        >>=-Preserves _ _
          (call-Preserves
            (r.list_observed_transactions_by_block_range chain_id from_block to_block))
          (λ txs. >>-Preserves _ _ (keep_observed (length txs)) (scan-Preserves txs)))
