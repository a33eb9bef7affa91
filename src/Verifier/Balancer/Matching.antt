-- ===== src/Verifier/Balancer/Matching.antt =====
-- What it means for a Balancer FlashLoan event to match a stored leg, and that the loops of
-- balancer_v2.go compute it.
use text.Mathlib.TextPositions.{eq_refl}
use mathlib.Core.List.{append-nil, append_assoc}
use flashloan_scanner.Base.{
  ℕ, String, ◌≡◌, refl, ◌∙◌, Bool, true, inl, inr, Option, some, List, [], ◌∷◌, ◌++◌, arith, Any,
  All, All₂, Bool-cases, Option-cases, Memᴰ, and-eq-true, str_eq→eq, eq→str_eq,
}
use flashloan_scanner.Base.Decimal.{decimal}
use flashloan_scanner.Types.{InteractionLeg}
use flashloan_scanner.Rows.{Conversions, InteractionAssetLeg}
use flashloan_scanner.Verifier.Convert.{big_int_string, convert_leg}
use flashloan_scanner.Verifier.Amounts.{matches_amount}
use flashloan_scanner.Verifier.Balancer.{
  BalancerFlashLoanEvent, matches, find_matching_event, settle_leg, verify_legs,
}

-- The event reports the loan of the leg to the recipient, with one and the same number as amount.
pub record Matches (conv : Conversions) (recipient : String) (leg : InteractionAssetLeg)
    (event : BalancerFlashLoanEvent) : Type 0 where
  pub amount : ℕ
  pub same_token : conv.address_hex event.token ≡ conv.address_hex leg.asset_address
  pub same_recipient : conv.address_hex event.recipient ≡ recipient
  pub event_amount : event.amount ≡ some amount
  pub leg_amount : leg.amount_borrowed ≡ some amount

-- The result's leg `out` is the stored leg, completed from a listed event that matches it.
pub record Settled (conv : Conversions) (events : List BalancerFlashLoanEvent) (recipient : String)
    (leg : InteractionAssetLeg) (out : InteractionLeg) : Type 0 where
  pub event : BalancerFlashLoanEvent
  pub listed : Memᴰ event events
  pub matched : Matches conv recipient leg event
  pub completed : out ≡ settle_leg (convert_leg conv leg) (big_int_string event.fee_amount)

module _ (conv : Conversions) (recipient : String) (leg : InteractionAssetLeg) where
  abbrev tested : BalancerFlashLoanEvent → Bool
  tested event =
      matches conv event (conv.address_hex leg.asset_address) (big_int_string leg.amount_borrowed)
        recipient

  abbrev found : List BalancerFlashLoanEvent → Option String
  found events =
      find_matching_event conv events (conv.address_hex leg.asset_address)
        (big_int_string leg.amount_borrowed) recipient

  matches→Matches :
      (event : BalancerFlashLoanEvent) → tested event ≡ true → Matches conv recipient leg event
  unfolding matches
  matches→Matches event h =
      let (addresses, amounts) = and-eq-true _ _ h in
      let (token, to) = and-eq-true _ _ addresses in
      let (n, reported, stored) = matches_amount event.amount leg.amount_borrowed amounts in
      record {
        amount = n;
        same_token = str_eq→eq _ _ token;
        same_recipient = str_eq→eq _ _ to;
        event_amount = reported;
        leg_amount = stored;
      }

  Matches→matches :
      (event : BalancerFlashLoanEvent) → Matches conv recipient leg event → tested event ≡ true
  unfolding matches big_int_string
  Matches→matches event m = rw (
    eq→str_eq _ _ m.same_token,
    eq→str_eq _ _ m.same_recipient,
    m.event_amount,
    m.leg_amount,
    eq_refl (decimal m.amount),
  )

  pub find_matching_event-Settled :
      (events : List BalancerFlashLoanEvent) {fee : String}
      → found events ≡ some fee
      → Settled conv events recipient leg (settle_leg (convert_leg conv leg) fee)
  unfolding find_matching_event
  find_matching_event-Settled [] h = cc
  find_matching_event-Settled (event ∷ events) {fee} h = elim (Bool-cases (tested event)) [
    | inl hit ↦
        let same : ◌≡◌ {A = Option String} (some (big_int_string event.fee_amount)) (some fee) =
          rw hit at h in
        record {
          event = event;
          listed = Memᴰ.head refl;
          matched = matches→Matches event hit;
          completed = cc same;
        }
    | inr miss ↦
        let later = find_matching_event-Settled events (rw miss at h) in
        record {
          event = later.event;
          listed = Memᴰ.tail later.listed;
          matched = later.matched;
          completed = later.completed;
        }
  ]

  pub find_matching_event-some :
      (events : List BalancerFlashLoanEvent)
      → Any (Matches conv recipient leg) events
      → (fee : String) × (found events ≡ some fee)
  unfolding find_matching_event
  find_matching_event-some [] h = absurd h
  find_matching_event-some (event ∷ events) (inl m) =
      (big_int_string event.fee_amount, rw (Matches→matches event m))
  find_matching_event-some (event ∷ events) (inr later) = elim (Bool-cases (tested event)) [
    | inl hit ↦ (big_int_string event.fee_amount, rw hit)
    | inr miss ↦ rw miss (find_matching_event-some events later)
  ]

module _ (conv : Conversions) (events : List BalancerFlashLoanEvent) (recipient : String) where
  pub verify_legs-Settled :
      (legs : List InteractionAssetLeg) (done final : List InteractionLeg)
      → verify_legs conv events recipient done legs ≡ some final
      → (outs : List InteractionLeg) × (final ≡ done ++ outs)
        × All₂ (Settled conv events recipient) legs outs
  unfolding verify_legs
  verify_legs-Settled [] done final h = ([], ground (arith, append-nil done), tt)
  verify_legs-Settled (leg ∷ legs) done final h =
      elim (Option-cases (found conv recipient leg events)) [
        | inl miss ↦ absurd (ground (arith, miss))
        | inr (fee, hit) ↦
            let out = settle_leg (convert_leg conv leg) fee in
            let (outs, appended, settled) =
              verify_legs-Settled legs (done ++ out ∷ []) final (rw (hit, verify_legs) at h) in
            (
              out ∷ outs,
              appended ∙ append_assoc done (out ∷ []) outs,
              (find_matching_event-Settled conv recipient leg events hit, settled),
            )
      ]

  pub verify_legs-some :
      (legs : List InteractionAssetLeg) (done : List InteractionLeg)
      → All (λ leg. Any (Matches conv recipient leg) events) legs
      → (final : List InteractionLeg) × (verify_legs conv events recipient done legs ≡ some final)
  unfolding verify_legs
  verify_legs-some [] done h = (done, refl)
  verify_legs-some (leg ∷ legs) done h =
      let (fee, hit) = find_matching_event-some conv recipient leg events h.0 in
      rw (hit, verify_legs)
        (verify_legs-some legs (done ++ settle_leg (convert_leg conv leg) fee ∷ []) h.1)
