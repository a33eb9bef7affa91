-- ===== src/Verifier/Uniswap/Consistent.antt =====
-- The verdicts of `Verify` of uniswap_v2.go are consistent, and none opens debt.
use flashloan_scanner.Base.{
  ℕ, ◌≡◌, false, inl, inr, Option, some, List, [], ◌∷◌, arith, Bool-cases, ok, >>=-eq-ok,
}
use flashloan_scanner.Types.{CandidateInteraction, InteractionLeg, VerifiedInteraction}
use flashloan_scanner.Rows.{Conversions, InteractionAssetLeg}
use flashloan_scanner.Verifier.Convert.{Views, tx_successful, read_evidence}
use flashloan_scanner.Verifier.Consistent.{IsConsistent}
use flashloan_scanner.Verifier.Uniswap.{
  PairAbi, UniswapV2SwapEvent, verified_interaction, judge, has_data, verify_successful, verify,
  match_swap_events,
}

module _ (conv : Conversions) (interaction : CandidateInteraction) where
  judge_lem :
      (events : List UniswapV2SwapEvent) (stored : List InteractionAssetLeg)
      {r : VerifiedInteraction} {legs : Option (List InteractionLeg)}
      → judge conv interaction events stored ≡ (some r, legs)
      → IsConsistent r × (r.contains_debt_opening ≡ false)
  unfolding judge verified_interaction
  judge_lem [] stored h = ground arith
  judge_lem (event ∷ events) stored {r} {legs} h = ground arith

module _ (conv : Conversions) (views : Views) (abi : PairAbi) (chain_id : ℕ)
    (interaction : CandidateInteraction) where
  verify_successful_lem :
      {r : VerifiedInteraction} {legs : Option (List InteractionLeg)}
      → verify_successful conv views abi chain_id interaction ≡ ok (some r, legs)
      → IsConsistent r × (r.contains_debt_opening ≡ false)
  unfolding verify_successful
  verify_successful_lem {r} {legs} h =
      let ((stored, logs), read, judged) =
        >>=-eq-ok (read_evidence conv views chain_id interaction) _ h in
      judge_lem conv interaction
        (match_swap_events conv abi logs (conv.hex_to_address interaction.provider_address)) stored
        {r = r} {legs = legs} (cc judged)

  verify_lem :
      {r : VerifiedInteraction} {legs : Option (List InteractionLeg)}
      → verify conv views abi chain_id interaction ≡ ok (some r, legs)
      → IsConsistent r × (r.contains_debt_opening ≡ false)
  unfolding verify
  verify_lem {r} {legs} h =
      let (tx, found, rest) =
        >>=-eq-ok (views.get_observed_transaction chain_id (conv.hex_to_hash interaction.tx_hash)) _
          h in
      elim (Bool-cases (tx_successful tx)) [
        | inl good ↦ elim (Bool-cases (has_data interaction.data_non_empty)) [
          | inl full ↦ verify_successful_lem {r = r} {legs = legs} (rw full at (rw good at rest))
          | inr empty ↦ ground (arith, rest)
        ]
        | inr bad ↦ ground (arith, rest)
      ]

  -- A result of Verify of the Uniswap V2 verifier is consistent: strict only if verified, with
  -- callback and repayment seen and no debt opened; no exclusion reason if verified, and some
  -- reason if not.
  pub uniswap_verify-IsConsistent :
      {r : VerifiedInteraction} {legs : Option (List InteractionLeg)}
      → verify conv views abi chain_id interaction ≡ ok (some r, legs)
      → IsConsistent r
  uniswap_verify-IsConsistent {r} {legs} h = (verify_lem {r = r} {legs = legs} h).0

  -- Such a loan opens no debt.
  pub uniswap_verify-no_debt :
      {r : VerifiedInteraction} {legs : Option (List InteractionLeg)}
      → verify conv views abi chain_id interaction ≡ ok (some r, legs)
      → r.contains_debt_opening ≡ false
  uniswap_verify-no_debt {r} {legs} h = (verify_lem {r = r} {legs = legs} h).1
