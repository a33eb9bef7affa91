-- ===== src/Verifier/Traced/Laws.antt =====
-- How a trace verifier's result comes about, for any way of judging a trace.
use flashloan_scanner.Base.{
  String, ◌≡◌, refl, true, false, inl, inr, Option, none, some, List, arith, Bool-cases, Outcome,
  ok, err,
}
use flashloan_scanner.Types.{InteractionLeg, VerifiedInteraction}
use flashloan_scanner.Trace.Frames.{CallFrame}
use flashloan_scanner.Trace.Providers.{Provider}
use flashloan_scanner.Verifier.Convert.{Verdict}
use flashloan_scanner.Verifier.Traced.{
  with_trace, missing_trace, noted, is_trace_unavailable_error, fallback_on_trace_unavailable,
}

-- The four ways to a result `r` with legs `legs` from the result `r₀` with legs `legs₀` of the
-- event-based verifier.
pub data Course (provider : Provider) (tx_hash : String)
    (judge : VerifiedInteraction → Option (List InteractionLeg) → CallFrame → Verdict)
    (base r : VerifiedInteraction) (base_legs legs : Option (List InteractionLeg)) : Type 0 where
  rejected :
      base.verified ≡ false
      → r ≡ base
      → legs ≡ base_legs
      → Course provider tx_hash judge base r base_legs legs
  unavailable :
      (error : String)
      → base.verified ≡ true
      → provider tx_hash ≡ err error
      → is_trace_unavailable_error error ≡ true
      → r ≡ noted "trace unavailable; fell back to event-based verification" base
      → legs ≡ base_legs
      → Course provider tx_hash judge base r base_legs legs
  untraced :
      base.verified ≡ true
      → provider tx_hash ≡ ok none
      → r ≡ missing_trace base
      → legs ≡ base_legs
      → Course provider tx_hash judge base r base_legs legs
  traced :
      (root : CallFrame)
      → base.verified ≡ true
      → provider tx_hash ≡ ok (some root)
      → judge base base_legs root ≡ (some r, legs)
      → Course provider tx_hash judge base r base_legs legs

module _ (provider : Provider) (tx_hash : String)
    (judge : VerifiedInteraction → Option (List InteractionLeg) → CallFrame → Verdict) where
  Course-of :
      (base : VerifiedInteraction) (base_legs : Option (List InteractionLeg))
      {r : VerifiedInteraction} {legs : Option (List InteractionLeg)}
      (answer : Outcome (Option CallFrame))
      → provider tx_hash ≡ answer
      → with_trace provider tx_hash judge (ok (some base, base_legs)) ≡ ok (some r, legs)
      → base.verified ≡ true
      → Course provider tx_hash judge base r base_legs legs
  unfolding with_trace fallback_on_trace_unavailable
  Course-of base base_legs (err e) p h v = elim (Bool-cases (is_trace_unavailable_error e)) [
    | inl yes_ ↦ Course.unavailable e v p yes_ (ground (arith, p)) (ground (arith, p))
    | inr no_ ↦ absurd (ground (arith, p))
  ]
  Course-of base base_legs (ok none) p h v =
      Course.untraced v p (ground (arith, p)) (ground (arith, p))
  Course-of base base_legs (ok (some root)) p h v = Course.traced root v p (ground (arith, p))

  pub with_trace-Course :
      (result : Outcome Verdict) {r : VerifiedInteraction} {legs : Option (List InteractionLeg)}
      → with_trace provider tx_hash judge result ≡ ok (some r, legs)
      → (base : VerifiedInteraction) × (base_legs : Option (List InteractionLeg)) × (result
          ≡ ok (some base, base_legs))
        × Course provider tx_hash judge base r base_legs legs
  unfolding with_trace
  with_trace-Course (err e) h = cc
  with_trace-Course (ok (none, base_legs)) h = cc
  with_trace-Course (ok (some base, base_legs)) {r} {legs} h = (
    base,
    base_legs,
    refl,
    elim (Bool-cases base.verified) [
      | inl v ↦ Course-of base base_legs (provider tx_hash) refl h v
      | inr v ↦ Course.rejected v (ground arith) (ground arith)
    ],
  )

  -- With a trace at hand the answer is the judgement.
  pub with_trace-judged :
      (base r : VerifiedInteraction) (base_legs legs : Option (List InteractionLeg))
      (root : CallFrame)
      → base.verified ≡ true
      → provider tx_hash ≡ ok (some root)
      → with_trace provider tx_hash judge (ok (some base, base_legs)) ≡ ok (some r, legs)
      → judge base base_legs root ≡ (some r, legs)
  unfolding with_trace
  with_trace-judged base r base_legs legs root v shown h = ground arith
