-- ===== src/Verifier/Aave/Consistent.antt =====
-- The verdicts of `Verify` of aave_v3.go are consistent.
use flashloan_scanner.Base.{
  ℕ, ◌≡◌, inl, inr, Option, some, List, [], ◌∷◌, arith, Bool-cases, Option-cases, ok, >>=-eq-ok,
}
use flashloan_scanner.Types.{CandidateInteraction, InteractionLeg, VerifiedInteraction}
use flashloan_scanner.Rows.{Conversions, InteractionAssetLeg}
use flashloan_scanner.Verifier.Convert.{Views, tx_successful, read_evidence}
use flashloan_scanner.Verifier.Consistent.{IsConsistent}
use flashloan_scanner.Verifier.Aave.{
  PoolAbi, AaveFlashLoanEvent, verify_legs, verified_interaction, judge, verify_successful, verify,
  match_flash_loan_events,
}
use flashloan_scanner.Verifier.Aave.Verdicts.{verify_legs-Loop}
use flashloan_scanner.Verifier.Aave.Sound.{start}

module _ (conv : Conversions) (interaction : CandidateInteraction) where
  judge-IsConsistent :
      (events : List AaveFlashLoanEvent) (stored : List InteractionAssetLeg)
      {r : VerifiedInteraction} {legs : Option (List InteractionLeg)}
      → judge conv interaction events stored ≡ (some r, legs)
      → IsConsistent r
  unfolding judge verified_interaction
  judge-IsConsistent [] stored h = ground arith
  judge-IsConsistent (event ∷ events) stored {r} {legs} h =
      elim (Option-cases
        (verify_legs conv (event ∷ events) interaction.receiver_address start stored)) [
          | inl miss ↦ ground (arith, miss)
          | inr (t, done) ↦
              let loop =
                verify_legs-Loop conv (event ∷ events) interaction.receiver_address stored start t
                  done in
              ground (arith, loop.its_strict, loop.its_debt, done)
        ]

module _ (conv : Conversions) (views : Views) (abi : PoolAbi) (chain_id : ℕ)
    (interaction : CandidateInteraction) where
  verify_successful-IsConsistent :
      {r : VerifiedInteraction} {legs : Option (List InteractionLeg)}
      → verify_successful conv views abi chain_id interaction ≡ ok (some r, legs)
      → IsConsistent r
  unfolding verify_successful
  verify_successful-IsConsistent {r} {legs} h =
      let ((stored, logs), read, judged) =
        >>=-eq-ok (read_evidence conv views chain_id interaction) _ h in
      judge-IsConsistent conv interaction
        (match_flash_loan_events conv abi logs (conv.hex_to_address interaction.provider_address))
        stored {r = r} {legs = legs} (cc judged)

  -- A result of Verify of the Aave V3 verifier is consistent: strict only if verified, with
  -- callback and repayment seen and no debt opened; no exclusion reason if verified, and some
  -- reason if not.
  pub aave_verify-IsConsistent :
      {r : VerifiedInteraction} {legs : Option (List InteractionLeg)}
      → verify conv views abi chain_id interaction ≡ ok (some r, legs)
      → IsConsistent r
  unfolding verify
  aave_verify-IsConsistent {r} {legs} h =
      let (tx, found, rest) =
        >>=-eq-ok (views.get_observed_transaction chain_id (conv.hex_to_hash interaction.tx_hash)) _
          h in
      elim (Bool-cases (tx_successful tx)) [
        | inl good ↦ verify_successful-IsConsistent {r = r} {legs = legs} (rw good at rest)
        | inr bad ↦ ground (arith, rest)
      ]
