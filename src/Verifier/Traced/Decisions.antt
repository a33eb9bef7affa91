-- ===== src/Verifier/Traced/Decisions.antt =====
-- A trace, where there is one, decides whether a verified loan is strict.
use flashloan_scanner.Base.{ℕ, ◌≡◌, true, false, ◌↔◌, Option, some, List, ok}
use flashloan_scanner.Types.{CandidateInteraction, InteractionLeg, VerifiedInteraction}
use flashloan_scanner.Rows.{Conversions}
use flashloan_scanner.Trace.Frames.{CallFrame}
use flashloan_scanner.Trace.Providers.{Provider}
use flashloan_scanner.Verifier.Convert.{Views}
use flashloan_scanner.Verifier.Aave
use flashloan_scanner.Verifier.Aave.{PoolAbi}
use flashloan_scanner.Verifier.Balancer
use flashloan_scanner.Verifier.Balancer.{VaultAbi}
use flashloan_scanner.Verifier.Uniswap
use flashloan_scanner.Verifier.Uniswap.{PairAbi}
use flashloan_scanner.Verifier.Traced.{
  verify_aave, verify_balancer, verify_uniswap, judge_aave, judge_balancer, judge_uniswap,
}
use flashloan_scanner.Verifier.Traced.Laws.{with_trace-judged}
use flashloan_scanner.Verifier.Traced.Strict.{
  TraceEvidence, judge_aave-strict, judge_repaid-strict, seen→TraceEvidence, TraceEvidence→seen,
}

module _ (conv : Conversions) (views : Views) (provider : Provider) (abi : PoolAbi) (chain_id : ℕ)
    (interaction : CandidateInteraction) where
  -- If the event-based verifier returned a verified result and the provider gives a trace, a
  -- result of Verify of the Aave V3 trace verifier is strict just when the event-based result
  -- opened no debt and the trace shows, below its root, a call from the provider to the receiver
  -- that did not fail, and somewhere a repayment.
  pub verify_aave-strict_iff :
      {base r : VerifiedInteraction} {base_legs legs : Option (List InteractionLeg)}
      {root : CallFrame}
      → Aave.verify conv views abi chain_id interaction ≡ ok (some base, base_legs)
      → base.verified ≡ true
      → provider interaction.tx_hash ≡ ok (some root)
      → verify_aave conv views provider abi chain_id interaction ≡ ok (some r, legs)
      → (r.strict ≡ true)
        ↔ ((base.contains_debt_opening ≡ false) × TraceEvidence interaction base_legs root)
  unfolding verify_aave
  verify_aave-strict_iff {base} {r} {base_legs} {legs} {root} answered v traced answers =
      let judged =
        with_trace-judged provider interaction.tx_hash (judge_aave interaction) base r base_legs
          legs root v traced (rw answered at answers) in
      let rule = judge_aave-strict interaction base_legs root base judged in
      (
        λ s.
            let (no_debt, seen, repaid) = rule.0 s in
            (no_debt, seen→TraceEvidence interaction base_legs root seen repaid),
        λ (no_debt, shown).
            let (seen, repaid) = TraceEvidence→seen interaction base_legs root shown in
            rule.1 (no_debt, seen, repaid),
      )

module _ (conv : Conversions) (views : Views) (provider : Provider) (abi : VaultAbi) (chain_id : ℕ)
    (interaction : CandidateInteraction) where
  -- If the event-based verifier returned a verified result and the provider gives a trace, a
  -- result of Verify of the Balancer V2 trace verifier is strict just when the trace shows, below
  -- its root, a call from the provider to the receiver that did not fail, and somewhere a
  -- repayment.
  pub verify_balancer-strict_iff :
      {base r : VerifiedInteraction} {base_legs legs : Option (List InteractionLeg)}
      {root : CallFrame}
      → Balancer.verify conv views abi chain_id interaction ≡ ok (some base, base_legs)
      → base.verified ≡ true
      → provider interaction.tx_hash ≡ ok (some root)
      → verify_balancer conv views provider abi chain_id interaction ≡ ok (some r, legs)
      → (r.strict ≡ true) ↔ (TraceEvidence interaction base_legs root)
  unfolding verify_balancer judge_balancer
  verify_balancer-strict_iff {base} {r} {base_legs} {legs} {root} answered v traced answers =
      let judged =
        with_trace-judged provider interaction.tx_hash (judge_balancer interaction) base r base_legs
          legs root v traced (rw answered at answers) in
      let rule =
        judge_repaid-strict interaction base_legs root
          "trace callback seen but repayment path evidence not found; downgraded from strict"
          "trace-backed strict verification passed via Balancer callback and repayment-path evidence"
          "full_repayment" base judged in
      (
        λ s.
            let (seen, repaid) = rule.0 s in
            seen→TraceEvidence interaction base_legs root seen repaid,
        λ shown. rule.1 (TraceEvidence→seen interaction base_legs root shown),
      )

module _ (conv : Conversions) (views : Views) (provider : Provider) (abi : PairAbi) (chain_id : ℕ)
    (interaction : CandidateInteraction) where
  -- If the event-based verifier returned a verified result and the provider gives a trace, a
  -- result of Verify of the Uniswap V2 trace verifier is strict just when the trace shows, below
  -- its root, a call from the provider to the receiver that did not fail, and somewhere a
  -- repayment.
  pub verify_uniswap-strict_iff :
      {base r : VerifiedInteraction} {base_legs legs : Option (List InteractionLeg)}
      {root : CallFrame}
      → Uniswap.verify conv views abi chain_id interaction ≡ ok (some base, base_legs)
      → base.verified ≡ true
      → provider interaction.tx_hash ≡ ok (some root)
      → verify_uniswap conv views provider abi chain_id interaction ≡ ok (some r, legs)
      → (r.strict ≡ true) ↔ (TraceEvidence interaction base_legs root)
  unfolding verify_uniswap judge_uniswap
  verify_uniswap-strict_iff {base} {r} {base_legs} {legs} {root} answered v traced answers =
      let judged =
        with_trace-judged provider interaction.tx_hash (judge_uniswap interaction) base r base_legs
          legs root v traced (rw answered at answers) in
      let rule =
        judge_repaid-strict interaction base_legs root
          "trace callback seen but invariant-restoration path evidence not found; downgraded from strict"
          "trace-backed strict verification passed via Uniswap V2 callback and invariant-path evidence"
          "invariant_restored" base judged in
      (
        λ s.
            let (seen, repaid) = rule.0 s in
            seen→TraceEvidence interaction base_legs root seen repaid,
        λ shown. rule.1 (TraceEvidence→seen interaction base_legs root shown),
      )
