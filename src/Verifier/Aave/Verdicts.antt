-- ===== src/Verifier/Aave/Verdicts.antt =====
-- What a verdict of aave_v3.go rests on.
use flashloan_scanner.Base.{
  ℕ, String, ◌≡◌, refl, Bool, false, not, ◌&&◌, ◌||◌, inl, inr, none, some, List, [], ◌∷◌, ◌++◌,
  arith, ◌∙◌, Memᴰ, Any, All, All₂, all, ◌==◌, Option-cases,
}
use mathlib.Core.List.{append-nil, append_assoc}
use flashloan_scanner.Types.{InteractionLeg}
use flashloan_scanner.Rows.{Conversions, InteractionAssetLeg}
use flashloan_scanner.Verifier.Convert.{big_int_string, convert_leg}
use flashloan_scanner.Verifier.Aave.{
  AaveFlashLoanEvent, find_matching_event, LegLoop, verify_legs, settle_leg, visit_leg,
}
use flashloan_scanner.Verifier.Aave.Matching.{
  Matches, find_matching_event-Found, find_matching_event-some,
}

-- The leg was repaid in the same transaction: its event's rate mode is 0.
abbrev pub is_repaid : InteractionLeg → Bool
is_repaid leg = elim leg.interest_rate_mode [ none ↦ false | some mode ↦ mode == 0 ]

-- The result's leg `out` is the stored leg, completed from a listed event that matches it.
pub record Settled (conv : Conversions) (events : List AaveFlashLoanEvent) (receiver : String)
    (leg : InteractionAssetLeg) (out : InteractionLeg) : Type 0 where
  pub event : AaveFlashLoanEvent
  pub listed : Memᴰ event events
  pub matched : Matches conv receiver leg event
  pub completed :
      out
      ≡ settle_leg (convert_leg conv leg) (big_int_string event.premium) event.interest_rate_mode

visit_strict :
    (s : LegLoop) (leg : InteractionLeg) (premium : String) (mode : ℕ) (rest : Bool)
    → ((visit_leg s leg premium mode).strict && rest)
      ≡ (s.strict && (is_repaid (settle_leg leg premium mode) && rest))
unfolding visit_leg settle_leg
visit_strict s leg premium mode rest = ground arith

visit_debt :
    (s : LegLoop) (leg : InteractionLeg) (premium : String) (mode : ℕ) (rest : Bool)
    → ((visit_leg s leg premium mode).contains_debt_opening || not rest)
      ≡ (s.contains_debt_opening || not (is_repaid (settle_leg leg premium mode) && rest))
unfolding visit_leg settle_leg
visit_debt s leg premium mode rest = ground arith

module _ (conv : Conversions) (events : List AaveFlashLoanEvent) (receiver : String) where
  -- What the loop over the legs has done when it ends in the state `t`.
  pub record Loop (s t : LegLoop) (legs : List InteractionAssetLeg) : Type 0 where
    pub outs : List InteractionLeg
    pub appended : t.verified_legs ≡ s.verified_legs ++ outs
    pub settled : All₂ (Settled conv events receiver) legs outs
    pub its_strict : t.strict ≡ (s.strict && all is_repaid outs)
    pub its_debt : t.contains_debt_opening ≡ (s.contains_debt_opening || not (all is_repaid outs))

  pub verify_legs-Loop :
      (legs : List InteractionAssetLeg) (s t : LegLoop)
      → verify_legs conv events receiver s legs ≡ some t
      → Loop s t legs
  unfolding verify_legs visit_leg
  verify_legs-Loop [] s t h = record {
    outs = [];
    appended = ground (arith, append-nil s.verified_legs);
    settled = tt;
    its_strict = ground arith;
    its_debt = ground arith;
  }
  verify_legs-Loop (leg ∷ legs) s t h =
      elim (Option-cases (
        find_matching_event conv events (conv.address_hex leg.asset_address)
          (big_int_string leg.amount_borrowed) receiver)) [
            | inl miss ↦ absurd (ground (arith, miss))
            | inr ((premium, mode), hit) ↦
                let found = find_matching_event-Found conv receiver leg events hit in
                let out = settle_leg (convert_leg conv leg) premium mode in
                let later =
                  verify_legs-Loop legs (visit_leg s (convert_leg conv leg) premium mode) t
                    (rw (hit, verify_legs) at h) in
                record {
                  outs = out ∷ later.outs;
                  appended = later.appended ∙ append_assoc s.verified_legs (out ∷ []) later.outs;
                  settled = (
                    record {
                      event = found.event;
                      listed = found.listed;
                      matched = found.matched;
                      completed = cc (found.its_premium, found.its_mode);
                    },
                    later.settled,
                  );
                  its_strict =
                      later.its_strict ∙ visit_strict s (convert_leg conv leg) premium mode _;
                  its_debt = later.its_debt ∙ visit_debt s (convert_leg conv leg) premium mode _;
                }
          ]

  -- The loop ends well if each leg has an event that matches it.
  pub verify_legs-some :
      (legs : List InteractionAssetLeg) (s : LegLoop)
      → All (λ leg. Any (Matches conv receiver leg) events) legs
      → (t : LegLoop) × (verify_legs conv events receiver s legs ≡ some t)
  unfolding verify_legs
  verify_legs-some [] s h = (s, refl)
  verify_legs-some (leg ∷ legs) s h =
      let ((premium, mode), hit) = find_matching_event-some conv receiver leg events h.0 in
      rw (hit, verify_legs)
        (verify_legs-some legs (visit_leg s (convert_leg conv leg) premium mode) h.1)
