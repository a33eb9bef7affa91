-- ===== src/Verifier/Traced/Protocols.antt =====
-- The three trace verifiers: what a strict verdict rests on, and that verdicts stay consistent.
use flashloan_scanner.Base.{ℕ, ◌≡◌, ◌⊎◌, inl, inr, true, Option, some, List, Outcome, ok}
use flashloan_scanner.Types.{CandidateInteraction, InteractionLeg, VerifiedInteraction}
use flashloan_scanner.Rows.{Conversions}
use flashloan_scanner.Trace.Providers.{Provider}
use flashloan_scanner.Verifier.Convert.{Views}
use flashloan_scanner.Verifier.Consistent.{IsConsistent}
use flashloan_scanner.Verifier.Aave
use flashloan_scanner.Verifier.Aave.{PoolAbi}
use flashloan_scanner.Verifier.Aave.Consistent.{aave_verify-IsConsistent}
use flashloan_scanner.Verifier.Balancer
use flashloan_scanner.Verifier.Balancer.{VaultAbi}
use flashloan_scanner.Verifier.Balancer.Consistent.{
  balancer_verify-IsConsistent, balancer_verify-no_debt,
}
use flashloan_scanner.Verifier.Uniswap
use flashloan_scanner.Verifier.Uniswap.{PairAbi}
use flashloan_scanner.Verifier.Uniswap.Consistent.{
  uniswap_verify-IsConsistent, uniswap_verify-no_debt,
}
use flashloan_scanner.Verifier.Traced.{
  verify_aave, verify_balancer, verify_uniswap, judge_aave, judge_balancer, judge_uniswap,
}
use flashloan_scanner.Verifier.Traced.Laws.{Course, with_trace-Course}
use flashloan_scanner.Verifier.Traced.Strict.{
  StrictGround, aave_ground, repaid_ground, aave-Course-IsConsistent, repaid-Course-IsConsistent,
}

-- The event-based verifier's answer `base`, `base_legs` is verified, and is the ground of a strict
-- verdict.
pub record StrictOrigin (provider : Provider) (interaction : CandidateInteraction)
    (answer : Outcome (Option VerifiedInteraction × Option (List InteractionLeg))) : Type 0 where
  pub base : VerifiedInteraction
  pub base_legs : Option (List InteractionLeg)
  pub its_answer : answer ≡ ok (some base, base_legs)
  pub base_verified : base.verified ≡ true
  pub its_ground : StrictGround provider interaction base base_legs

module _ (conv : Conversions) (views : Views) (provider : Provider) (abi : PoolAbi) (chain_id : ℕ)
    (interaction : CandidateInteraction) {r : VerifiedInteraction}
    {legs : Option (List InteractionLeg)}
    (answers : verify_aave conv views provider abi chain_id interaction ≡ ok (some r, legs)) where
  aave-Course :
      (base : VerifiedInteraction) × (base_legs : Option (List InteractionLeg)) × (Aave.verify conv
          views abi chain_id interaction
        ≡ ok (some base, base_legs))
      × Course provider interaction.tx_hash (judge_aave interaction) base r base_legs legs
  unfolding verify_aave
  aave-Course = with_trace-Course provider interaction.tx_hash (judge_aave interaction) _ answers

  -- If Verify of the Aave V3 trace verifier returns a strict result, the event-based verifier
  -- returned a verified result for the interaction, and either it was itself strict and no trace
  -- was available, or the trace shows the callback and a repayment and no debt was opened.
  pub verify_aave-StrictOrigin :
      r.strict ≡ true
      → StrictOrigin provider interaction (Aave.verify conv views abi chain_id interaction)
  verify_aave-StrictOrigin s =
      let (base, base_legs, answered, course) = aave-Course in
      let (v, reason) =
        aave_ground provider interaction base r base_legs legs course
          (aave_verify-IsConsistent conv views abi chain_id interaction answered) s in
      record {
        base = base;
        base_legs = base_legs;
        its_answer = answered;
        base_verified = v;
        its_ground = reason;
      }

  verify_aave-IsConsistent : IsConsistent r
  verify_aave-IsConsistent =
      let (base, base_legs, answered, course) = aave-Course in
      aave-Course-IsConsistent provider interaction base r base_legs legs course
        (aave_verify-IsConsistent conv views abi chain_id interaction answered)

module _ (conv : Conversions) (views : Views) (provider : Provider) (abi : VaultAbi) (chain_id : ℕ)
    (interaction : CandidateInteraction) {r : VerifiedInteraction}
    {legs : Option (List InteractionLeg)}
    (answers : verify_balancer conv views provider abi chain_id interaction
      ≡ ok (some r, legs)) where
  balancer-Course :
      (base : VerifiedInteraction) × (base_legs : Option (List InteractionLeg)) × (Balancer.verify
          conv views abi chain_id interaction
        ≡ ok (some base, base_legs))
      × Course provider interaction.tx_hash (judge_balancer interaction) base r base_legs legs
  unfolding verify_balancer
  balancer-Course =
      with_trace-Course provider interaction.tx_hash (judge_balancer interaction) _ answers

  -- If Verify of the Balancer V2 trace verifier returns a strict result, the event-based verifier
  -- returned a verified result for the interaction, and either it was itself strict and no trace
  -- was available, or the trace shows the callback and a repayment and no debt was opened.
  pub verify_balancer-StrictOrigin :
      r.strict ≡ true
      → StrictOrigin provider interaction (Balancer.verify conv views abi chain_id interaction)
  unfolding judge_balancer
  verify_balancer-StrictOrigin s =
      let (base, base_legs, answered, course) = balancer-Course in
      let (v, reason) =
        repaid_ground provider interaction
          "trace callback seen but repayment path evidence not found; downgraded from strict"
          "trace-backed strict verification passed via Balancer callback and repayment-path evidence"
          "full_repayment" base r base_legs legs course
          (balancer_verify-IsConsistent conv views abi chain_id interaction answered)
          (balancer_verify-no_debt conv views abi chain_id interaction answered) s in
      record {
        base = base;
        base_legs = base_legs;
        its_answer = answered;
        base_verified = v;
        its_ground = reason;
      }

  verify_balancer-IsConsistent : IsConsistent r
  unfolding judge_balancer
  verify_balancer-IsConsistent =
      let (base, base_legs, answered, course) = balancer-Course in
      repaid-Course-IsConsistent provider interaction
        "trace callback seen but repayment path evidence not found; downgraded from strict"
        "trace-backed strict verification passed via Balancer callback and repayment-path evidence"
        "full_repayment" base r base_legs legs course
        (balancer_verify-IsConsistent conv views abi chain_id interaction answered)
        (balancer_verify-no_debt conv views abi chain_id interaction answered)

module _ (conv : Conversions) (views : Views) (provider : Provider) (abi : PairAbi) (chain_id : ℕ)
    (interaction : CandidateInteraction) {r : VerifiedInteraction}
    {legs : Option (List InteractionLeg)}
    (answers : verify_uniswap conv views provider abi chain_id interaction
      ≡ ok (some r, legs)) where
  uniswap-Course :
      (base : VerifiedInteraction) × (base_legs : Option (List InteractionLeg)) × (Uniswap.verify
          conv views abi chain_id interaction
        ≡ ok (some base, base_legs))
      × Course provider interaction.tx_hash (judge_uniswap interaction) base r base_legs legs
  unfolding verify_uniswap
  uniswap-Course =
      with_trace-Course provider interaction.tx_hash (judge_uniswap interaction) _ answers

  -- If Verify of the Uniswap V2 trace verifier returns a strict result, the event-based verifier
  -- returned a verified result for the interaction, and either it was itself strict and no trace
  -- was available, or the trace shows the callback and a repayment and no debt was opened.
  pub verify_uniswap-StrictOrigin :
      r.strict ≡ true
      → StrictOrigin provider interaction (Uniswap.verify conv views abi chain_id interaction)
  unfolding judge_uniswap
  verify_uniswap-StrictOrigin s =
      let (base, base_legs, answered, course) = uniswap-Course in
      let (v, reason) =
        repaid_ground provider interaction
          "trace callback seen but invariant-restoration path evidence not found; downgraded from strict"
          "trace-backed strict verification passed via Uniswap V2 callback and invariant-path evidence"
          "invariant_restored" base r base_legs legs course
          (uniswap_verify-IsConsistent conv views abi chain_id interaction answered)
          (uniswap_verify-no_debt conv views abi chain_id interaction answered) s in
      record {
        base = base;
        base_legs = base_legs;
        its_answer = answered;
        base_verified = v;
        its_ground = reason;
      }

  verify_uniswap-IsConsistent : IsConsistent r
  unfolding judge_uniswap
  verify_uniswap-IsConsistent =
      let (base, base_legs, answered, course) = uniswap-Course in
      repaid-Course-IsConsistent provider interaction
        "trace callback seen but invariant-restoration path evidence not found; downgraded from strict"
        "trace-backed strict verification passed via Uniswap V2 callback and invariant-path evidence"
        "invariant_restored" base r base_legs legs course
        (uniswap_verify-IsConsistent conv views abi chain_id interaction answered)
        (uniswap_verify-no_debt conv views abi chain_id interaction answered)

-- A result of Verify of a trace verifier, of Aave V3, of Balancer V2 or of Uniswap V2, is
-- consistent: strict only if verified, with callback and repayment seen and no debt opened; no
-- exclusion reason if verified, and some reason if not.
pub trace_verifiers-IsConsistent :
    (conv : Conversions) (views : Views) (provider : Provider) (pool : PoolAbi) (vault : VaultAbi)
    (pair : PairAbi) (chain_id : ℕ) (interaction : CandidateInteraction) {r : VerifiedInteraction}
    {legs : Option (List InteractionLeg)}
    → (verify_aave conv views provider pool chain_id interaction ≡ ok (some r, legs))
      ⊎ (verify_balancer conv views provider vault chain_id interaction ≡ ok (some r, legs))
      ⊎ (verify_uniswap conv views provider pair chain_id interaction ≡ ok (some r, legs))
    → IsConsistent r
trace_verifiers-IsConsistent conv views provider pool vault pair chain_id interaction (inl h) =
    verify_aave-IsConsistent conv views provider pool chain_id interaction h
trace_verifiers-IsConsistent conv views provider pool vault pair chain_id interaction
      (inr (inl h)) =
    verify_balancer-IsConsistent conv views provider vault chain_id interaction h
trace_verifiers-IsConsistent conv views provider pool vault pair chain_id interaction
      (inr (inr h)) =
    verify_uniswap-IsConsistent conv views provider pair chain_id interaction h
