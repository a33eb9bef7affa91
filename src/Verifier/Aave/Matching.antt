-- ===== src/Verifier/Aave/Matching.antt =====
-- What it means for a FlashLoan event to match a stored leg, and that the loops of aave_v3.go
-- compute it.
use flashloan_scanner.Base.{
  ℕ, String, ◌≡◌, refl, Bool, true, inl, inr, Option, some, List, [], ◌∷◌, and-eq-true, sym,
  some-pair, str_eq→eq, eq→str_eq, Memᴰ, Any, Bool-cases,
}
use text.Mathlib.TextPositions.{eq_refl}
use flashloan_scanner.Base.Decimal.{decimal}
use flashloan_scanner.Rows.{Conversions, InteractionAssetLeg}
use flashloan_scanner.Verifier.Convert.{big_int_string}
use flashloan_scanner.Verifier.Amounts.{matches_amount}
use flashloan_scanner.Verifier.Aave.{AaveFlashLoanEvent, matches, find_matching_event}

-- The event reports the loan of the leg to the receiver: the same asset in its text form, the
-- receiver as target, and one and the same number as amount.
pub record Matches (conv : Conversions) (receiver : String) (leg : InteractionAssetLeg)
    (event : AaveFlashLoanEvent) : Type 0 where
  pub amount : ℕ
  pub same_asset : conv.address_hex event.asset ≡ conv.address_hex leg.asset_address
  pub same_target : conv.address_hex event.target ≡ receiver
  pub event_amount : event.amount ≡ some amount
  pub leg_amount : leg.amount_borrowed ≡ some amount

module _ (conv : Conversions) (receiver : String) (leg : InteractionAssetLeg) where
  abbrev tested : AaveFlashLoanEvent → Bool
  tested event =
      matches conv event (conv.address_hex leg.asset_address) (big_int_string leg.amount_borrowed)
        receiver

  matches→Matches :
      (event : AaveFlashLoanEvent) → tested event ≡ true → Matches conv receiver leg event
  unfolding matches
  matches→Matches event h =
      let (addresses, amounts) = and-eq-true _ _ h in
      let (asset, target) = and-eq-true _ _ addresses in
      let (n, reported, stored) = matches_amount event.amount leg.amount_borrowed amounts in
      record {
        amount = n;
        same_asset = str_eq→eq _ _ asset;
        same_target = str_eq→eq _ _ target;
        event_amount = reported;
        leg_amount = stored;
      }

  Matches→matches :
      (event : AaveFlashLoanEvent) → Matches conv receiver leg event → tested event ≡ true
  unfolding matches big_int_string
  Matches→matches event m = rw (
    eq→str_eq _ _ m.same_asset,
    eq→str_eq _ _ m.same_target,
    m.event_amount,
    m.leg_amount,
    eq_refl (decimal m.amount),
  )

  abbrev found : List AaveFlashLoanEvent → Option (String × ℕ)
  found events =
      find_matching_event conv events (conv.address_hex leg.asset_address)
        (big_int_string leg.amount_borrowed) receiver

  -- What the search returns comes from a listed event that matches the leg.
  pub record Found (events : List AaveFlashLoanEvent) (premium : String) (mode : ℕ) : Type 0 where
    pub event : AaveFlashLoanEvent
    pub listed : Memᴰ event events
    pub matched : Matches conv receiver leg event
    pub its_premium : premium ≡ big_int_string event.premium
    pub its_mode : mode ≡ event.interest_rate_mode

  pub find_matching_event-Found :
      (events : List AaveFlashLoanEvent) {premium : String} {mode : ℕ}
      → found events ≡ some (premium, mode)
      → Found events premium mode
  unfolding find_matching_event
  find_matching_event-Found [] h = cc
  find_matching_event-Found (event ∷ events) {premium} {mode} h = elim (Bool-cases (tested event)) [
    | inl hit ↦
        let (same_premium, same_mode) =
          some-pair (big_int_string event.premium) premium event.interest_rate_mode mode
            (rw hit at h) in
        record {
          event = event;
          listed = Memᴰ.head refl;
          matched = matches→Matches event hit;
          its_premium = sym same_premium;
          its_mode = sym same_mode;
        }
    | inr miss ↦
        let later = find_matching_event-Found events (rw miss at h) in
        record {
          event = later.event;
          listed = Memᴰ.tail later.listed;
          matched = later.matched;
          its_premium = later.its_premium;
          its_mode = later.its_mode;
        }
  ]

  pub find_matching_event-some :
      (events : List AaveFlashLoanEvent)
      → Any (Matches conv receiver leg) events
      → (r : String × ℕ) × (found events ≡ some r)
  unfolding find_matching_event
  find_matching_event-some [] h = absurd h
  find_matching_event-some (event ∷ events) (inl m) =
      ((big_int_string event.premium, event.interest_rate_mode), rw (Matches→matches event m))
  find_matching_event-some (event ∷ events) (inr later) = elim (Bool-cases (tested event)) [
    | inl hit ↦ ((big_int_string event.premium, event.interest_rate_mode), rw hit)
    | inr miss ↦ rw miss (find_matching_event-some events later)
  ]
