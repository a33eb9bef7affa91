-- ===== src/Verifier/Examples.antt =====
-- The verifiers on the small inputs: tests, and the theorems applied.
use flashloan_scanner.Base.{
  ◌≡◌, Option, refl, true, false, some, none, List, [], ◌∷◌, ok, ◌↔◌, Any, inl, inr,
}
use flashloan_scanner.Types.{InteractionLeg, VerifiedInteraction}
use flashloan_scanner.Base.Text.{to_lower}
use flashloan_scanner.Verifier.Consistent.{IsConsistent}
use flashloan_scanner.Verifier.TracePath.Evidence.{IsDirectCall, IsRepayment, trace_searches_iff}
use flashloan_scanner.Verifier.Traced.Strict.{TraceEvidence}
use flashloan_scanner.Verifier.Traced.Decisions.{
  verify_aave-strict_iff, verify_balancer-strict_iff, verify_uniswap-strict_iff,
}
use flashloan_scanner.Verifier.Traced.Protocols.{
  StrictOrigin, verify_aave-StrictOrigin, verify_balancer-StrictOrigin, verify_uniswap-StrictOrigin,
  trace_verifiers-IsConsistent,
}
use flashloan_scanner.Trace.Frames.{descendants}
use flashloan_scanner.Verifier.Samples.{
  conv, interaction, stored_leg, tx_row, log, swap_log, views_of, pool_abi, vault_abi, pair_abi,
  root, tracing, strict_result, aave_legs, balancer_legs, uniswap_legs, balancer_result,
  uniswap_result, traced_aave_result, traced_balancer_result, traced_uniswap_result, runs,
}
use flashloan_scanner.Verifier.Aave
use flashloan_scanner.Verifier.Aave.Sound.{Evidence, aave_verify-Evidence, aave_verify-verified}
use flashloan_scanner.Verifier.Balancer
use flashloan_scanner.Verifier.Balancer.Sound.{
  Evidence as BalancerEvidence, balancer_verify-Evidence, balancer_verify-verified,
}
use flashloan_scanner.Verifier.Uniswap
use flashloan_scanner.Verifier.Uniswap.Matching.{borrowed, last_on}
use flashloan_scanner.Verifier.Uniswap.Sound.{
  Evidence as UniswapEvidence, uniswap_verify-Evidence, uniswap_verify-verified,
}
use flashloan_scanner.Verifier.Traced.{verify_aave, verify_balancer, verify_uniswap}
use flashloan_scanner.Verifier.TracePath.{has_successful_direct_call, has_repayment_path}

aave_answer :
    Aave.verify conv (views_of log) pool_abi 1 interaction
    ≡ ok (some (strict_result none), some aave_legs)
unfolding runs
aave_answer = refl

aave_verify-Evidence_example :
    Evidence conv (views_of log) pool_abi 1 interaction (strict_result none) (some aave_legs)
aave_verify-Evidence_example =
    aave_verify-Evidence conv (views_of log) pool_abi 1 interaction aave_answer refl

balancer_answer :
    Balancer.verify conv (views_of log) vault_abi 1 interaction
    ≡ ok (some balancer_result, some balancer_legs)
unfolding runs
balancer_answer = refl

balancer_verify-Evidence_example :
    BalancerEvidence conv (views_of log) vault_abi 1 interaction (some balancer_legs)
balancer_verify-Evidence_example =
    balancer_verify-Evidence conv (views_of log) vault_abi 1 interaction balancer_answer refl

uniswap_answer :
    Uniswap.verify conv (views_of swap_log) pair_abi 1 interaction
    ≡ ok (some uniswap_result, some uniswap_legs)
unfolding runs
uniswap_answer = refl

uniswap_verify-Evidence_example :
    UniswapEvidence conv (views_of swap_log) pair_abi 1 interaction (some uniswap_legs)
uniswap_verify-Evidence_example =
    uniswap_verify-Evidence conv (views_of swap_log) pair_abi 1 interaction uniswap_answer refl

traced_aave_answer :
    verify_aave conv (views_of log) tracing pool_abi 1 interaction
    ≡ ok (some traced_aave_result, some aave_legs)
unfolding runs
traced_aave_answer = refl

traced_balancer_answer :
    verify_balancer conv (views_of log) tracing vault_abi 1 interaction
    ≡ ok (some traced_balancer_result, some balancer_legs)
unfolding runs
traced_balancer_answer = refl

traced_uniswap_answer :
    verify_uniswap conv (views_of swap_log) tracing pair_abi 1 interaction
    ≡ ok (some traced_uniswap_result, some uniswap_legs)
unfolding runs
traced_uniswap_answer = refl

aave_verify-verified_example :
    (r : VerifiedInteraction) × (legs : Option (List InteractionLeg)) × (Aave.verify conv
        (views_of log)
        pool_abi
        1
        interaction
      ≡ ok (some r, legs))
    × (r.verified ≡ true)
unfolding runs
aave_verify-verified_example =
    aave_verify-verified conv (views_of log) pool_abi 1 interaction {tx = tx_row}
      {stored = stored_leg ∷ []} {logs = log ∷ []} refl refl refl (λ e. cc)
      (
        inl (record {
          amount = 1000;
          same_asset = refl;
          same_target = refl;
          event_amount = refl;
          leg_amount = refl;
        }),
        tt,
      )

verify_aave-StrictOrigin_example :
    StrictOrigin tracing interaction (Aave.verify conv (views_of log) pool_abi 1 interaction)
verify_aave-StrictOrigin_example =
    verify_aave-StrictOrigin conv (views_of log) tracing pool_abi 1 interaction
      {r = traced_aave_result} {legs = some aave_legs} traced_aave_answer refl

verify_balancer-StrictOrigin_example :
    StrictOrigin tracing interaction (Balancer.verify conv (views_of log) vault_abi 1 interaction)
verify_balancer-StrictOrigin_example =
    verify_balancer-StrictOrigin conv (views_of log) tracing vault_abi 1 interaction
      {r = traced_balancer_result} {legs = some balancer_legs} traced_balancer_answer refl

verify_uniswap-StrictOrigin_example :
    StrictOrigin tracing interaction
      (Uniswap.verify conv (views_of swap_log) pair_abi 1 interaction)
verify_uniswap-StrictOrigin_example =
    verify_uniswap-StrictOrigin conv (views_of swap_log) tracing pair_abi 1 interaction
      {r = traced_uniswap_result} {legs = some uniswap_legs} traced_uniswap_answer refl

verify_aave-strict_iff_example :
    (traced_aave_result.strict ≡ true)
    ↔ ((strict_result none).contains_debt_opening ≡ false)
      × TraceEvidence interaction (some aave_legs) root
verify_aave-strict_iff_example =
    verify_aave-strict_iff conv (views_of log) tracing pool_abi 1 interaction
      {base = strict_result none} {r = traced_aave_result} {base_legs = some aave_legs}
      {legs = some aave_legs} {root = root} aave_answer refl refl traced_aave_answer

verify_balancer-strict_iff_example :
    (traced_balancer_result.strict ≡ true) ↔ TraceEvidence interaction (some balancer_legs) root
verify_balancer-strict_iff_example =
    verify_balancer-strict_iff conv (views_of log) tracing vault_abi 1 interaction
      {base = balancer_result} {r = traced_balancer_result} {base_legs = some balancer_legs}
      {legs = some balancer_legs} {root = root} balancer_answer refl refl traced_balancer_answer

verify_uniswap-strict_iff_example :
    (traced_uniswap_result.strict ≡ true) ↔ TraceEvidence interaction (some uniswap_legs) root
verify_uniswap-strict_iff_example =
    verify_uniswap-strict_iff conv (views_of swap_log) tracing pair_abi 1 interaction
      {base = uniswap_result} {r = traced_uniswap_result} {base_legs = some uniswap_legs}
      {legs = some uniswap_legs} {root = root} uniswap_answer refl refl traced_uniswap_answer

trace_verifiers-IsConsistent_example : IsConsistent traced_balancer_result
trace_verifiers-IsConsistent_example =
    trace_verifiers-IsConsistent conv (views_of log) tracing pool_abi vault_abi pair_abi 1
      interaction {r = traced_balancer_result} {legs = some balancer_legs}
      (inr (inl traced_balancer_answer))

trace_searches_iff_example :
    ((has_successful_direct_call root "7" "20" ≡ true)
      ↔ Any (IsDirectCall "7" "20") (descendants root))
    × ((has_repayment_path root "7" aave_legs ≡ true)
        ↔ Any (IsRepayment (to_lower "7") aave_legs) (root ∷ descendants root))
trace_searches_iff_example = trace_searches_iff root "7" "20" "7" aave_legs

balancer_verify-verified_example :
    (r : VerifiedInteraction) × (legs : Option (List InteractionLeg)) × (Balancer.verify conv
        (views_of log)
        vault_abi
        1
        interaction
      ≡ ok (some r, legs))
    × (r.verified ≡ true)
unfolding runs
balancer_verify-verified_example =
    balancer_verify-verified conv (views_of log) vault_abi 1 interaction {tx = tx_row}
      {stored = stored_leg ∷ []} {logs = log ∷ []} refl refl refl (λ e. cc)
      (
        inl (record {
          amount = 1000;
          same_token = refl;
          same_recipient = refl;
          event_amount = refl;
          leg_amount = refl;
        }),
        tt,
      )

uniswap_verify-verified_example :
    (r : VerifiedInteraction) × (legs : Option (List InteractionLeg)) × (Uniswap.verify conv
        (views_of swap_log)
        pair_abi
        1
        interaction
      ≡ ok (some r, legs))
    × (r.verified ≡ true)
unfolding runs borrowed last_on
uniswap_verify-verified_example =
    uniswap_verify-verified conv (views_of swap_log) pair_abi 1 interaction {tx = tx_row}
      {stored = stored_leg ∷ []} {logs = swap_log ∷ []} refl refl refl refl
      (inl (refl, record { side0 = λ n e. e; side1 = λ n e. cc; some_side = inl (λ e. cc) }))
