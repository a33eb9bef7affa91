-- ===== src/Verifier/Traced/Strict.antt =====
-- A trace verifier calls a loan strict just when the trace shows it, and keeps verdicts consistent.
use mathlib.Core.Path.{subst}
use flashloan_scanner.Base.{
  String, ◌≡◌, sym, true, false, ◌↔◌, Option, some, List, ◌∷◌, arith, Any, ok, err,
}
use flashloan_scanner.Base.Text.{to_lower, to_lower_idem}
use flashloan_scanner.Types.{CandidateInteraction, InteractionLeg, VerifiedInteraction}
use flashloan_scanner.Trace.Frames.{CallFrame, descendants}
use flashloan_scanner.Trace.Providers.{Provider}
use flashloan_scanner.Verifier.Consistent.{IsConsistent}
use flashloan_scanner.Verifier.TracePath.{has_repayment_path}
use flashloan_scanner.Verifier.TracePath.Evidence.{
  IsDirectCall, IsRepayment, has_successful_direct_call_iff, has_repayment_path_iff,
}
use flashloan_scanner.Verifier.Traced.{
  legs_of, callback_seen, repayment_path_seen, judge_aave, judge_repaid, is_trace_unavailable_error,
}
use flashloan_scanner.Verifier.Traced.Laws.{Course}

-- Below the root a successful call of the provider to the receiver, and somewhere a repayment.
pub record TraceEvidence (interaction : CandidateInteraction) (legs : Option (List InteractionLeg))
    (root : CallFrame) : Type 0 where
  pub callback :
      Any
        (IsDirectCall
          (to_lower interaction.provider_address)
          (to_lower interaction.receiver_address))
        (descendants root)
  pub repayment :
      Any
        (IsRepayment (to_lower interaction.provider_address) (legs_of legs))
        (root ∷ descendants root)

module _ (interaction : CandidateInteraction) (legs : Option (List InteractionLeg))
    (root : CallFrame) where
  abbrev RepaidTo : String → Type 0
  RepaidTo provider = Any (IsRepayment provider (legs_of legs)) (root ∷ descendants root)

  path_seen_iff :
      (has_repayment_path root (to_lower interaction.provider_address) (legs_of legs) ≡ true)
      ↔ RepaidTo (to_lower (to_lower interaction.provider_address))
  path_seen_iff = has_repayment_path_iff root (to_lower interaction.provider_address) (legs_of legs)

  pub seen→TraceEvidence :
      callback_seen interaction root ≡ true
      → repayment_path_seen interaction root legs ≡ true
      → TraceEvidence interaction legs root
  unfolding callback_seen repayment_path_seen
  seen→TraceEvidence c p = record {
    callback = (has_successful_direct_call_iff root _ _).0 c;
    repayment = subst RepaidTo (to_lower_idem interaction.provider_address) (path_seen_iff.0 p);
  }

  pub TraceEvidence→seen :
      TraceEvidence interaction legs root
      → (callback_seen interaction root ≡ true) × (repayment_path_seen interaction root legs ≡ true)
  unfolding callback_seen repayment_path_seen
  TraceEvidence→seen t = (
    (has_successful_direct_call_iff root _ _).1 t.callback,
    path_seen_iff.1 (subst RepaidTo (sym (to_lower_idem interaction.provider_address)) t.repayment),
  )

  pub judge_aave-strict :
      (base : VerifiedInteraction) {r : VerifiedInteraction} {legs' : Option (List InteractionLeg)}
      → judge_aave interaction base legs root ≡ (some r, legs')
      → (r.strict ≡ true) ↔ (
          (base.contains_debt_opening ≡ false)
          × (callback_seen interaction root ≡ true)
          × (repayment_path_seen interaction root legs ≡ true))
  unfolding judge_aave
  judge_aave-strict base h = ground arith

  pub judge_repaid-strict :
      (downgraded passed mode : String) (base : VerifiedInteraction) {r : VerifiedInteraction}
      {legs' : Option (List InteractionLeg)}
      → judge_repaid interaction downgraded passed mode base legs root ≡ (some r, legs')
      → (r.strict ≡ true) ↔ (
          (callback_seen interaction root ≡ true)
          × (repayment_path_seen interaction root legs ≡ true))
  unfolding judge_repaid
  judge_repaid-strict downgraded passed mode base h = ground arith

  judge_aave-IsConsistent :
      (base : VerifiedInteraction) {r : VerifiedInteraction} {legs' : Option (List InteractionLeg)}
      → judge_aave interaction base legs root ≡ (some r, legs')
      → base.verified ≡ true
      → IsConsistent base
      → IsConsistent r
  unfolding judge_aave
  judge_aave-IsConsistent base h v c = ground arith

  judge_repaid-IsConsistent :
      (downgraded passed mode : String) (base : VerifiedInteraction) {r : VerifiedInteraction}
      {legs' : Option (List InteractionLeg)}
      → judge_repaid interaction downgraded passed mode base legs root ≡ (some r, legs')
      → base.verified ≡ true
      → base.contains_debt_opening ≡ false
      → IsConsistent base
      → IsConsistent r
  unfolding judge_repaid
  judge_repaid-IsConsistent downgraded passed mode base h v d c = ground arith

-- What a strict verdict of a trace verifier rests on, given how the event-based verifier answers: it
-- had verified the loan, and either no trace was to be had and it had called the loan strict itself,
-- or the trace shows the callback and the repayment of a loan that opened no debt.
pub data StrictGround (provider : Provider) (interaction : CandidateInteraction)
    (base : VerifiedInteraction) (base_legs : Option (List InteractionLeg)) : Type 0 where
  by_events :
      (error : String)
      → provider interaction.tx_hash ≡ err error
      → is_trace_unavailable_error error ≡ true
      → base.strict ≡ true
      → StrictGround provider interaction base base_legs
  by_trace :
      (root : CallFrame)
      → provider interaction.tx_hash ≡ ok (some root)
      → base.contains_debt_opening ≡ false
      → TraceEvidence interaction base_legs root
      → StrictGround provider interaction base base_legs

module _ (provider : Provider) (interaction : CandidateInteraction) where
  pub aave_ground :
      (base r : VerifiedInteraction) (base_legs legs : Option (List InteractionLeg))
      → Course provider interaction.tx_hash (judge_aave interaction) base r base_legs legs
      → IsConsistent base
      → r.strict ≡ true
      → (base.verified ≡ true) × StrictGround provider interaction base base_legs
  aave_ground base r base_legs legs (Course.rejected v e l) c s = absurd (ground arith)
  aave_ground base r base_legs legs (Course.unavailable error v p u e l) c s =
      (v, StrictGround.by_events error p u (ground arith))
  aave_ground base r base_legs legs (Course.untraced v p e l) c s = absurd (ground arith)
  aave_ground base r base_legs legs (Course.traced root v p j) c s =
      let (no_debt, seen, repaid) = (judge_aave-strict interaction base_legs root base j).0 s in
      (
        v,
        StrictGround.by_trace root p no_debt
            (seen→TraceEvidence interaction base_legs root seen repaid),
      )

  pub repaid_ground :
      (downgraded passed mode : String) (base r : VerifiedInteraction)
      (base_legs legs : Option (List InteractionLeg))
      → Course provider interaction.tx_hash
          (judge_repaid interaction downgraded passed mode)
          base
          r
          base_legs
          legs
      → IsConsistent base
      → base.contains_debt_opening ≡ false
      → r.strict ≡ true
      → (base.verified ≡ true) × StrictGround provider interaction base base_legs
  repaid_ground _ _ _ base r base_legs legs (Course.rejected v e l) c d s = absurd (ground arith)
  repaid_ground _ _ _ base r base_legs legs (Course.unavailable error v p u e l) c d s =
      (v, StrictGround.by_events error p u (ground arith))
  repaid_ground _ _ _ base r base_legs legs (Course.untraced v p e l) c d s = absurd (ground arith)
  repaid_ground downgraded passed mode base r base_legs legs (Course.traced root v p j) c d s =
      let (seen, repaid) =
        (judge_repaid-strict interaction base_legs root downgraded passed mode base j).0 s in
      (
        v,
        StrictGround.by_trace root p d (seen→TraceEvidence interaction base_legs root seen repaid),
      )

  pub aave-Course-IsConsistent :
      (base r : VerifiedInteraction) (base_legs legs : Option (List InteractionLeg))
      → Course provider interaction.tx_hash (judge_aave interaction) base r base_legs legs
      → IsConsistent base
      → IsConsistent r
  aave-Course-IsConsistent base r base_legs legs (Course.rejected v e l) c = rw e c
  aave-Course-IsConsistent base r base_legs legs (Course.unavailable error v p u e l) c =
      ground arith
  aave-Course-IsConsistent base r base_legs legs (Course.untraced v p e l) c = ground arith
  aave-Course-IsConsistent base r base_legs legs (Course.traced root v p j) c =
      judge_aave-IsConsistent interaction base_legs root base j v c

  pub repaid-Course-IsConsistent :
      (downgraded passed mode : String) (base r : VerifiedInteraction)
      (base_legs legs : Option (List InteractionLeg))
      → Course provider interaction.tx_hash
          (judge_repaid interaction downgraded passed mode)
          base
          r
          base_legs
          legs
      → IsConsistent base
      → base.contains_debt_opening ≡ false
      → IsConsistent r
  repaid-Course-IsConsistent _ _ _ base r base_legs legs (Course.rejected v e l) c d = rw e c
  repaid-Course-IsConsistent _ _ _ base r base_legs legs (Course.unavailable error v p u e l) c d =
      ground arith
  repaid-Course-IsConsistent _ _ _ base r base_legs legs (Course.untraced v p e l) c d =
      ground arith
  repaid-Course-IsConsistent downgraded passed mode base r base_legs legs (Course.traced root v p j)
        c d =
      judge_repaid-IsConsistent interaction base_legs root downgraded passed mode base j v d c
