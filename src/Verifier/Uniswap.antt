-- ===== src/Verifier/Uniswap.antt =====
-- scanner/verifier/uniswap_v2.go: the event-based check of a Uniswap V2 flash swap.
pub mod Emitted
pub mod Matching
pub mod Sound
pub mod Consistent
use flashloan_scanner.Base.{
  ℕ, String, Bool, true, false, not, ◌&&◌, ◌||◌, Option, none, some, List, [], ◌∷◌, map, str_eq,
  if◌then◌else◌, cond, ltb, Outcome, ok, ◌>>=◌,
}
use flashloan_scanner.Base.Decimal.{decimal}
use flashloan_scanner.Types.{CandidateInteraction, VerifiedInteraction, InteractionLeg}
use flashloan_scanner.Rows.{Hash, Address, Conversions, InteractionAssetLeg, ContractEvent}
use flashloan_scanner.Verifier.Logs.{match_events}
use flashloan_scanner.Verifier.Convert.{
  Views, Verdict, excluded, tx_successful, big_int_string, string_ptr, convert_leg, convert_legs,
  read_evidence,
}

-- The data part of a Swap event, as the ABI decoder returns it.
pub record SwapData : Type 0 where
  pub amount0_in : Option ℕ
  pub amount1_in : Option ℕ
  pub amount0_out : Option ℕ
  pub amount1_out : Option ℕ

pub record PairAbi : Type 0 where
  pub swap_id : Hash
  pub unpack_swap : List ℕ → Option SwapData

pub record UniswapV2SwapEvent : Type 0 where
  pub to : Address
  pub amounts : SwapData

-- The event of a log's further topics (the sender and the recipient), if there are enough of them.
pub with_topics : Conversions → List Hash → SwapData → Option UniswapV2SwapEvent
with_topics conv (sender ∷ to ∷ _) decoded =
    some (record { to = conv.topic_address to; amounts = decoded })
with_topics conv _ decoded = none

pub match_swap_events :
    Conversions → PairAbi → List ContractEvent → Address → List UniswapV2SwapEvent
unfolding match_events with_topics
match_swap_events conv abi events pair =
    match_events abi.swap_id abi.unpack_swap (with_topics conv) events pair

-- `leg.TokenSide != nil && *leg.TokenSide == side`
abbrev pub on_side : String → InteractionAssetLeg → Bool
on_side side leg = elim leg.token_side [ none ↦ false | some s ↦ str_eq s side ]

-- The two variables of the loop of `matches_legs`.
pub record Wants : Type 0 where
  pub want0 : String
  pub want1 : String

pub want : Wants → InteractionAssetLeg → Wants
unfolding big_int_string
want w leg = record {
  want0 = if on_side "token0" leg then big_int_string leg.amount_borrowed else w.want0;
  want1 = if on_side "token1" leg then big_int_string leg.amount_borrowed else w.want1;
}

pub wants : Wants → List InteractionAssetLeg → Wants
unfolding want
wants w [] = w
wants w (leg ∷ legs) = wants (want w leg) legs

-- `want == "" || (amount != nil && amount.String() == want)`
pub amount_fits : String → Option ℕ → Bool
amount_fits wanted amount =
    str_eq wanted "" || elim amount [ none ↦ false | some a ↦ str_eq (decimal a) wanted ]

pub matches_legs : UniswapV2SwapEvent → List InteractionAssetLeg → Bool
unfolding wants amount_fits
matches_legs event legs =
    let w = wants (record { want0 = ""; want1 = "" }) legs in
    amount_fits w.want0 event.amounts.amount0_out
    && amount_fits w.want1 event.amounts.amount1_out
    && (not (str_eq w.want0 "") || not (str_eq w.want1 ""))

-- The first event to the receiver that matches the legs; `none` is `false, nil`.
pub match_swap_event :
    Conversions
    → List UniswapV2SwapEvent
    → String
    → List InteractionAssetLeg
    → Option UniswapV2SwapEvent
unfolding matches_legs
match_swap_event conv [] receiver legs = none
match_swap_event conv (event ∷ events) receiver legs =
    if str_eq (conv.address_hex event.to) receiver && matches_legs event legs
    then some event
    else match_swap_event conv events receiver legs

-- The amount paid in on one side, if it is known and positive.
paid_in : Option ℕ → Option String → Option String
paid_in none old = old
paid_in (some a) old = if ltb 0 a then string_ptr (decimal a) else old

-- The `switch` on the leg's side.
amount_in_of : UniswapV2SwapEvent → Option String → Option String → Option String
unfolding paid_in
amount_in_of event none old = old
amount_in_of event (some side) old =
    if str_eq side "token0"
    then paid_in event.amounts.amount0_in old
    else (if str_eq side "token1" then paid_in event.amounts.amount1_in old else old)

pub settle_leg : UniswapV2SwapEvent → InteractionLeg → InteractionLeg
unfolding amount_in_of
settle_leg event leg = record leg {
  event_seen = true;
  strict_leg = true;
  settlement_mode = some "invariant_restored";
  amount_in = amount_in_of event leg.token_side leg.amount_in;
}

pub verified_interaction : String → VerifiedInteraction
verified_interaction id = record {
  interaction_id = id;
  verified = true;
  strict = true;
  callback_seen = true;
  settlement_seen = true;
  repayment_seen = true;
  contains_debt_opening = false;
  exclusion_reason = none;
  verification_notes =
      some
        "event-backed Uniswap V2 verification; callback and invariant restoration inferred from successful official pair swap with non-empty data and matching Swap event";
}

-- The part of `Verify` behind the reads of the database.
pub judge :
    Conversions
    → CandidateInteraction
    → List UniswapV2SwapEvent
    → List InteractionAssetLeg
    → Verdict
unfolding match_swap_event settle_leg verified_interaction
judge conv interaction [] legs =
    (some (excluded interaction.interaction_id "missing_swap_event"), some (convert_legs conv legs))
judge conv interaction (event ∷ events) legs =
    elim (match_swap_event conv (event ∷ events) interaction.receiver_address legs) [
      | none ↦ (
        some (excluded interaction.interaction_id "swap_event_mismatch"),
        some (convert_legs conv legs),
      )
      | some swap ↦ (
        some (verified_interaction interaction.interaction_id),
        some (map (λ leg. settle_leg swap (convert_leg conv leg)) legs),
      )
    ]

-- `interaction.DataNonEmpty != nil && *interaction.DataNonEmpty`
abbrev pub has_data : Option Bool → Bool
has_data none = false
has_data (some b) = b

module _ (conv : Conversions) (views : Views) (abi : PairAbi) where
  -- `Verify` for a transaction that was found and has succeeded.
  pub verify_successful : ℕ → CandidateInteraction → Outcome Verdict
  unfolding judge match_swap_events read_evidence
  verify_successful chain_id interaction = do
    (legs, events) ← read_evidence conv views chain_id interaction
    let pair = conv.hex_to_address interaction.provider_address
    ok (judge conv interaction (match_swap_events conv abi events pair) legs)

  unfoldable pub verify : ℕ → CandidateInteraction → Outcome Verdict
  unfolding verify_successful
  verify chain_id interaction = do
    tx ← views.get_observed_transaction chain_id (conv.hex_to_hash interaction.tx_hash)
    cond (tx_successful tx)
        (cond (has_data interaction.data_non_empty) (verify_successful chain_id interaction)
          (ok (some (excluded interaction.interaction_id "empty_swap_data"), none)))
        (ok (some (excluded interaction.interaction_id "transaction_not_successful"), none))
