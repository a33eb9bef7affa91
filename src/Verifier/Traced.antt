-- ===== src/Verifier/Traced.antt =====
-- scanner/verifier/*_trace.go and trace_fallback.go: the verifiers that check a verdict of the
-- event-based verifier against the transaction's call tree.
pub mod Laws
pub mod Strict
pub mod Protocols
pub mod Decisions
use flashloan_scanner.Base.{
  ℕ, String, Bool, true, false, not, ◌&&◌, ◌||◌, Option, none, some, List, [], ◌∷◌, map, str_eq,
  if◌then◌else◌, Outcome, ok, err, ◌>>=◌, text_append,
}
use flashloan_scanner.Base.Text.{to_lower, contains}
use flashloan_scanner.Types.{CandidateInteraction, VerifiedInteraction, InteractionLeg}
use flashloan_scanner.Rows.{Conversions}
use flashloan_scanner.Trace.Frames.{CallFrame}
use flashloan_scanner.Trace.Providers.{Provider}
use flashloan_scanner.Verifier.Convert.{Views, Verdict}
use flashloan_scanner.Verifier.TracePath.{has_successful_direct_call, has_repayment_path}
use flashloan_scanner.Verifier.Aave
use flashloan_scanner.Verifier.Aave.{PoolAbi}
use flashloan_scanner.Verifier.Balancer
use flashloan_scanner.Verifier.Balancer.{VaultAbi}
use flashloan_scanner.Verifier.Uniswap
use flashloan_scanner.Verifier.Uniswap.{PairAbi}

unfoldable pub append_note : Option String → String → String
append_note none extra = extra
append_note (some existing) extra =
    if str_eq existing "" then extra else text_append (text_append existing "; ") extra

-- The tests of a non-nil error's text.
unfoldable pub is_trace_unavailable_error : String → Bool
unfolding to_lower contains
is_trace_unavailable_error error =
    let message = to_lower error in
    contains message "historical state is not available"
    || contains message "debug_tracetransaction"
    || contains message "the method debug_tracetransaction does not exist"
    || contains message "method not found"
    || contains message "unsupported"

-- The result with a further note.
abbrev pub noted : String → VerifiedInteraction → VerifiedInteraction
noted extra r = record r { verification_notes = some (append_note r.verification_notes extra) }

unfoldable pub fallback_on_trace_unavailable :
    Option VerifiedInteraction → Option (List InteractionLeg) → Option String → Outcome Verdict
unfolding append_note is_trace_unavailable_error
fallback_on_trace_unavailable result legs none = ok (none, none)
fallback_on_trace_unavailable result legs (some error) =
    if not (is_trace_unavailable_error error) then err error else elim result [
      | none ↦ ok (none, legs)
      | some r ↦
          ok (some (noted "trace unavailable; fell back to event-based verification" r), legs)
    ]

-- The result for a transaction without a trace.
abbrev pub missing_trace : VerifiedInteraction → VerifiedInteraction
missing_trace r = record r {
  verified = false;
  strict = false;
  callback_seen = false;
  repayment_seen = false;
  exclusion_reason = some "missing_trace";
}

-- The result where the trace shows no callback.
abbrev pub missing_callback : VerifiedInteraction → VerifiedInteraction
missing_callback r = record r {
  verified = false;
  strict = false;
  exclusion_reason = some "missing_trace_callback";
}

-- Ranging over a nil slice makes no round.
abbrev pub legs_of : Option (List InteractionLeg) → List InteractionLeg
legs_of none = []
legs_of (some legs) = legs

-- The frame of the three `Verify` methods: what they do with the result of the event-based verifier
-- before they look into a trace.
unfoldable pub with_trace :
    Provider
    → String
    → (VerifiedInteraction → Option (List InteractionLeg) → CallFrame → Verdict)
    → Outcome Verdict
    → Outcome Verdict
unfolding fallback_on_trace_unavailable
with_trace provider tx_hash judge (err e) = err e
with_trace provider tx_hash judge (ok (none, legs)) = ok (none, legs)
with_trace provider tx_hash judge (ok (some r, legs)) =
    if not r.verified then ok (some r, legs) else elim (provider tx_hash) [
      | err e ↦ elim (fallback_on_trace_unavailable (some r) legs (some e)) [
        | ok fallback ↦ ok fallback
        | err _ ↦ err e
      ]
      | ok none ↦ ok (some (missing_trace r), legs)
      | ok (some root) ↦ ok (judge r legs root)
    ]

module _ (interaction : CandidateInteraction) where
  -- `hasSuccessfulDirectCall(traceRoot, providerAddress, receiverAddress)`
  unfoldable pub callback_seen : CallFrame → Bool
  unfolding has_successful_direct_call to_lower
  callback_seen root =
      has_successful_direct_call root (to_lower interaction.provider_address)
        (to_lower interaction.receiver_address)

  unfoldable pub repayment_path_seen : CallFrame → Option (List InteractionLeg) → Bool
  unfolding has_repayment_path to_lower
  repayment_path_seen root legs =
      has_repayment_path root (to_lower interaction.provider_address) (legs_of legs)

-- annotateAaveTraceLegs
annotate_aave_leg : InteractionLeg → InteractionLeg
annotate_aave_leg leg = record leg {
  event_seen = true;
  settlement_mode = elim leg.settlement_mode [
    | none ↦ if leg.opened_debt then none else some "full_repayment"
    | some mode ↦ some mode
  ];
  strict_leg = if leg.opened_debt then leg.strict_leg else true;
}

unfoldable pub annotate_aave_trace_legs : List InteractionLeg → List InteractionLeg
unfolding annotate_aave_leg
annotate_aave_trace_legs legs = map annotate_aave_leg legs

-- annotateBalancerTraceLegs and annotateUniswapTraceLegs, which differ in the settlement mode.
annotate_leg : String → InteractionLeg → InteractionLeg
annotate_leg mode leg = record leg {
  event_seen = true;
  strict_leg = true;
  settlement_mode = elim leg.settlement_mode [ none ↦ some mode | some old ↦ some old ];
}

unfoldable pub annotate_trace_legs : String → List InteractionLeg → List InteractionLeg
unfolding annotate_leg
annotate_trace_legs mode legs = map (annotate_leg mode) legs

module _ (interaction : CandidateInteraction) where
  -- The rest of `Verify` of aave_v3_trace.go, with a trace at hand.
  unfoldable pub judge_aave :
      VerifiedInteraction → Option (List InteractionLeg) → CallFrame → Verdict
  unfolding append_note annotate_aave_trace_legs
  judge_aave r legs root =
      let seen = callback_seen interaction root in
      let repaid = repayment_path_seen interaction root legs in
      let r' = record r {
        callback_seen = seen;
        settlement_seen = seen;
        repayment_seen = repaid && not r.contains_debt_opening;
      } in
      if r.contains_debt_opening
      then (
        some (
            noted "trace confirms non-strict path because debt opening is present"
              (record r' { strict = false })),
        legs,
      )
      else (if not seen
          then (some (missing_callback r'), legs)
          else (if not repaid
              then (
                some (
                    noted
                      "trace callback seen but repayment path evidence not found; downgraded from strict"
                      (record r' { strict = false })),
                legs,
              )
              else (
                some (
                    noted
                      "trace-backed strict verification passed via callback and repayment-path evidence"
                      (record r' { strict = true })),
                some (annotate_aave_trace_legs (legs_of legs)),
              )))

  -- The rest of `Verify` of balancer_v2_trace.go and uniswap_v2_trace.go, which differ in two notes
  -- and in the settlement mode.
  unfoldable pub judge_repaid :
      String
      → String
      → String
      → VerifiedInteraction
      → Option (List InteractionLeg)
      → CallFrame
      → Verdict
  unfolding append_note annotate_trace_legs
  judge_repaid downgraded passed mode r legs root =
      let seen = callback_seen interaction root in
      let repaid = repayment_path_seen interaction root legs in
      let r' = record r { callback_seen = seen; settlement_seen = seen; repayment_seen = repaid } in
      if not seen
      then (some (missing_callback r'), legs)
      else (if not repaid then (some (noted downgraded (record r' { strict = false })), legs) else (
        some (noted passed (record r' { strict = true })),
        some (annotate_trace_legs mode (legs_of legs)),
      ))

  unfoldable pub judge_balancer :
      VerifiedInteraction → Option (List InteractionLeg) → CallFrame → Verdict
  unfolding judge_repaid
  judge_balancer =
      judge_repaid
        "trace callback seen but repayment path evidence not found; downgraded from strict"
        "trace-backed strict verification passed via Balancer callback and repayment-path evidence"
        "full_repayment"

  unfoldable pub judge_uniswap :
      VerifiedInteraction → Option (List InteractionLeg) → CallFrame → Verdict
  unfolding judge_repaid
  judge_uniswap =
      judge_repaid
        "trace callback seen but invariant-restoration path evidence not found; downgraded from strict"
        "trace-backed strict verification passed via Uniswap V2 callback and invariant-path evidence"
        "invariant_restored"

module _ (conv : Conversions) (views : Views) (provider : Provider) where
  unfoldable pub verify_aave : PoolAbi → ℕ → CandidateInteraction → Outcome Verdict
  unfolding with_trace judge_aave Aave.verify
  verify_aave abi chain_id interaction =
      with_trace provider interaction.tx_hash (judge_aave interaction)
        (Aave.verify conv views abi chain_id interaction)

  unfoldable pub verify_balancer : VaultAbi → ℕ → CandidateInteraction → Outcome Verdict
  unfolding with_trace judge_balancer Balancer.verify
  verify_balancer abi chain_id interaction =
      with_trace provider interaction.tx_hash (judge_balancer interaction)
        (Balancer.verify conv views abi chain_id interaction)

  unfoldable pub verify_uniswap : PairAbi → ℕ → CandidateInteraction → Outcome Verdict
  unfolding with_trace judge_uniswap Uniswap.verify
  verify_uniswap abi chain_id interaction =
      with_trace provider interaction.tx_hash (judge_uniswap interaction)
        (Uniswap.verify conv views abi chain_id interaction)
