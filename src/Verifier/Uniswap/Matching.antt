-- ===== src/Verifier/Uniswap/Matching.antt =====
-- What it means for a Swap event to match the stored legs, and that the loops of uniswap_v2.go
-- compute it.
use text.Mathlib.TextPositions.{eq_refl}
use flashloan_scanner.Base.{
  ℕ, String, ◌≡◌, refl, ap, ◌∙◌, Bool, true, not, ◌&&◌, ◌||◌, ◌⊎◌, ◌↔◌, inl, inr, Option, none,
  some, List, [], ◌∷◌, arith, Any, Bool-cases, ◌≢◌, Memᴰ, and-eq-true, or-eq-true, str_eq→eq,
  eq→str_eq, str_eq, eq_iff, if◌then◌else◌,
}
use flashloan_scanner.Base.Decimal.{decimal, decimal-ne-empty}
use flashloan_scanner.Rows.{Conversions, InteractionAssetLeg}
use flashloan_scanner.Verifier.Convert.{big_int_string}
use flashloan_scanner.Verifier.Amounts.{matches_amount}
use flashloan_scanner.Verifier.Uniswap.{
  UniswapV2SwapEvent, on_side, Wants, want, wants, amount_fits, matches_legs, match_swap_event,
}

-- The last stored leg on a side.
unfoldable pub last_on : String → List InteractionAssetLeg → Option InteractionAssetLeg
last_on side [] = none
last_on side (leg ∷ legs) = elim (last_on side legs) [
  | some later ↦ some later
  | none ↦ if on_side side leg then some leg else none
]

-- The amount that the legs say was borrowed on a side: the amount of the last leg there.
unfoldable pub borrowed : String → List InteractionAssetLeg → Option ℕ
unfolding last_on
borrowed side legs = elim (last_on side legs) [ none ↦ none | some leg ↦ leg.amount_borrowed ]

-- The event sends out what the legs say was borrowed, on each side where they name an amount, and
-- they name one on a side at least.
pub record SwapMatches (legs : List InteractionAssetLeg) (event : UniswapV2SwapEvent) : Type 0 where
  pub side0 : (n : ℕ) → borrowed "token0" legs ≡ some n → event.amounts.amount0_out ≡ some n
  pub side1 : (n : ℕ) → borrowed "token1" legs ≡ some n → event.amounts.amount1_out ≡ some n
  pub some_side : (borrowed "token0" legs ≢ none) ⊎ (borrowed "token1" legs ≢ none)

text_or : Option InteractionAssetLeg → String → String
text_or none old = old
text_or (some leg) old = big_int_string leg.amount_borrowed

text_or-cons :
    (side : String) (leg : InteractionAssetLeg) (legs : List InteractionAssetLeg) (old : String)
    → text_or
        (last_on side legs)
        (if on_side side leg then big_int_string leg.amount_borrowed else old)
      ≡ text_or (last_on side (leg ∷ legs)) old
unfolding last_on text_or
text_or-cons side leg legs old = ground arith

wants-last_on :
    (legs : List InteractionAssetLeg) (w : Wants)
    → ((wants w legs).want0 ≡ text_or (last_on "token0" legs) w.want0)
      × ((wants w legs).want1 ≡ text_or (last_on "token1" legs) w.want1)
unfolding wants want
wants-last_on [] w = unfold last_on text_or in (refl, refl)
wants-last_on (leg ∷ legs) w =
    let (zero_side, one_side) = wants-last_on legs (want w leg) in
    (
      zero_side ∙ text_or-cons "token0" leg legs w.want0,
      one_side ∙ text_or-cons "token1" leg legs w.want1,
    )

text_or-borrowed :
    (side : String) (legs : List InteractionAssetLeg)
    → text_or (last_on side legs) "" ≡ big_int_string (borrowed side legs)
unfolding borrowed text_or big_int_string
text_or-borrowed side legs = ground arith

-- The texts that `matches_legs` compares are those of the borrowed amounts.
wants-borrowed :
    (legs : List InteractionAssetLeg)
    → wants (record { want0 = ""; want1 = "" }) legs ≡ record {
      want0 = big_int_string (borrowed "token0" legs);
      want1 = big_int_string (borrowed "token1" legs);
    }
wants-borrowed legs = ground (
  arith,
  wants-last_on legs (record { want0 = ""; want1 = "" }),
  text_or-borrowed "token0" legs,
  text_or-borrowed "token1" legs,
)

amount_fits-eq :
    (wanted amount : Option ℕ) (n : ℕ)
    → amount_fits (big_int_string wanted) amount ≡ true
    → wanted ≡ some n
    → amount ≡ some n
unfolding amount_fits big_int_string
amount_fits-eq none amount n h e = cc
amount_fits-eq (some m) amount n h e = elim (Bool-cases (str_eq (decimal m) "")) [
  | inl empty ↦ absurd (decimal-ne-empty m (str_eq→eq _ _ empty))
  | inr full ↦
      let (k, reported, stored) = matches_amount amount (some m) (rw full at h) in
      cc (reported, stored)
]

fits-of-eq :
    (wanted amount : Option ℕ)
    → ((n : ℕ) → wanted ≡ some n → amount ≡ some n)
    → amount_fits (big_int_string wanted) amount ≡ true
unfolding amount_fits big_int_string
fits-of-eq none amount h = refl
fits-of-eq (some m) amount h = rw (h m refl) (ground (arith, eq_refl (decimal m)))

not_empty_iff :
    (wanted : Option ℕ) → (not (str_eq (big_int_string wanted) "") ≡ true) ↔ (wanted ≢ none)
unfolding big_int_string
not_empty_iff none = (λ e. cc, λ ne. absurd (ne refl))
not_empty_iff (some m) = (λ _ e. cc, λ _. ground (arith, eq_iff (decimal m) "", decimal-ne-empty m))

some_inj {ℓ} : {A : Type ℓ} (a b : A) → some a ≡ some b → a ≡ b
some_inj a b e = cc

module _ (event : UniswapV2SwapEvent) (legs : List InteractionAssetLeg) where
  abbrev text0 : String
  text0 = big_int_string (borrowed "token0" legs)

  abbrev text1 : String
  text1 = big_int_string (borrowed "token1" legs)

  matches_legs_lem : matches_legs event legs ≡ (
      amount_fits text0 event.amounts.amount0_out
      && amount_fits text1 event.amounts.amount1_out
      && (not (str_eq text0 "") || not (str_eq text1 "")))
  unfolding matches_legs
  matches_legs_lem =
      ap
        (λ (w : Wants).
          amount_fits w.want0 event.amounts.amount0_out
          && amount_fits w.want1 event.amounts.amount1_out
          && (not (str_eq w.want0 "") || not (str_eq w.want1 "")))
        (wants-borrowed legs)

  matches_legs→SwapMatches : matches_legs event legs ≡ true → SwapMatches legs event
  matches_legs→SwapMatches h =
      let (fits, some_text) = and-eq-true _ _ (rw matches_legs_lem at h) in
      let (fits0, fits1) = and-eq-true _ _ fits in
      record {
        side0 = λ n. amount_fits-eq (borrowed "token0" legs) _ n fits0;
        side1 = λ n. amount_fits-eq (borrowed "token1" legs) _ n fits1;
        some_side = elim (or-eq-true _ _ some_text) [
          | inl e ↦ inl ((not_empty_iff (borrowed "token0" legs)).0 e)
          | inr e ↦ inr ((not_empty_iff (borrowed "token1" legs)).0 e)
        ];
      }

  SwapMatches→matches_legs : SwapMatches legs event → matches_legs event legs ≡ true
  SwapMatches→matches_legs m =
      rw
        (
          matches_legs_lem,
          fits-of-eq (borrowed "token0" legs) event.amounts.amount0_out m.side0,
          fits-of-eq (borrowed "token1" legs) event.amounts.amount1_out m.side1,
        )
        (elim m.some_side [
          | inl e ↦ rw ((not_empty_iff (borrowed "token0" legs)).1 e)
          | inr e ↦ ground (arith, (not_empty_iff (borrowed "token1" legs)).1 e)
        ])

module _ (conv : Conversions) (receiver : String) (legs : List InteractionAssetLeg) where
  -- The event is one to the receiver that matches the legs.
  abbrev pub Fits : UniswapV2SwapEvent → Type 0
  Fits event = (conv.address_hex event.to ≡ receiver) × SwapMatches legs event

  abbrev tested : UniswapV2SwapEvent → Bool
  tested event = str_eq (conv.address_hex event.to) receiver && matches_legs event legs

  pub match_swap_event-Fits :
      (events : List UniswapV2SwapEvent) {swap : UniswapV2SwapEvent}
      → match_swap_event conv events receiver legs ≡ some swap
      → Memᴰ swap events × Fits swap
  unfolding match_swap_event
  match_swap_event-Fits [] h = cc
  match_swap_event-Fits (event ∷ events) {swap} h = elim (Bool-cases (tested event)) [
    | inl hit ↦
        let same : ◌≡◌ {A = Option UniswapV2SwapEvent} (some event) (some swap) = rw hit at h in
        let (to, fits) = and-eq-true _ _ hit in
        rw (← some_inj event swap same)
          (Memᴰ.head refl, (str_eq→eq _ _ to, matches_legs→SwapMatches event legs fits))
    | inr miss ↦
        let (listed, fits) = match_swap_event-Fits events (rw miss at h) in (Memᴰ.tail listed, fits)
  ]

  pub match_swap_event-some :
      (events : List UniswapV2SwapEvent)
      → Any Fits events
      → (swap : UniswapV2SwapEvent) × (match_swap_event conv events receiver legs ≡ some swap)
  unfolding match_swap_event
  match_swap_event-some [] h = absurd h
  match_swap_event-some (event ∷ events) (inl (to, fits)) =
      (event, rw (eq→str_eq _ _ to, SwapMatches→matches_legs event legs fits))
  match_swap_event-some (event ∷ events) (inr later) = elim (Bool-cases (tested event)) [
    | inl hit ↦ (event, rw hit)
    | inr miss ↦ rw miss (match_swap_event-some events later)
  ]
