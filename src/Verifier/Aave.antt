-- ===== src/Verifier/Aave.antt =====
-- scanner/verifier/aave_v3.go: the event-based check of an Aave V3 flash loan.
pub mod Emitted
pub mod Matching
pub mod Verdicts
pub mod Sound
pub mod Consistent
use flashloan_scanner.Base.{
  ℕ, String, Bool, true, false, not, ◌&&◌, Option, none, some, List, [], ◌∷◌, ◌++◌, str_eq,
  if◌then◌else◌, cond, Outcome, ok, ◌>>=◌, ◌==◌, ◌^◌, ◌%◌,
}
use flashloan_scanner.Base.Decimal.{decimal}
use flashloan_scanner.Types.{CandidateInteraction, VerifiedInteraction, InteractionLeg}
use flashloan_scanner.Rows.{Hash, Address, Conversions, InteractionAssetLeg, ContractEvent}
use flashloan_scanner.Verifier.Logs.{match_events}
use flashloan_scanner.Verifier.Convert.{
  Views, Verdict, excluded, tx_successful, big_int_string, string_ptr, convert_leg, convert_legs,
  read_evidence,
}

-- The data part of a FlashLoan event, as the ABI decoder returns it.
pub record FlashLoanData : Type 0 where
  pub initiator : Address
  pub amount : Option ℕ
  pub interest_rate_mode : ℕ
  pub premium : Option ℕ

-- The pool's ABI: the event's id, and `UnpackIntoInterface`, `none` for an error.
pub record PoolAbi : Type 0 where
  pub flash_loan_id : Hash
  pub unpack_flash_loan : List ℕ → Option FlashLoanData

pub record AaveFlashLoanEvent : Type 0 where
  pub target : Address
  pub asset : Address
  pub initiator : Address
  pub amount : Option ℕ
  pub interest_rate_mode : ℕ
  pub premium : Option ℕ
  pub referral_code : ℕ

-- The event of a log's further topics, if there are enough of them.
pub with_topics : Conversions → List Hash → FlashLoanData → Option AaveFlashLoanEvent
with_topics conv (target ∷ asset ∷ referral ∷ _) decoded = some (record {
  target = conv.topic_address target;
  asset = conv.topic_address asset;
  initiator = decoded.initiator;
  amount = decoded.amount;
  interest_rate_mode = decoded.interest_rate_mode;
  premium = decoded.premium;
  referral_code = referral % 2 ^ 64 % 2 ^ 16;
})
with_topics conv _ decoded = none

module _ (conv : Conversions) (abi : PoolAbi) where
  pub match_flash_loan_events : List ContractEvent → Address → List AaveFlashLoanEvent
  unfolding match_events with_topics
  match_flash_loan_events events provider =
      match_events abi.flash_loan_id abi.unpack_flash_loan (with_topics conv) events provider

-- The three tests of the loop of `find_matching_event`.
matches : Conversions → AaveFlashLoanEvent → String → String → String → Bool
matches conv event asset_address amount receiver =
    str_eq (conv.address_hex event.asset) asset_address
    && str_eq (conv.address_hex event.target) receiver
    && elim event.amount [ none ↦ false | some a ↦ str_eq (decimal a) amount ]

-- The premium and the rate mode of the first event that matches; `none` is `false, "", 0`.
pub find_matching_event :
    Conversions → List AaveFlashLoanEvent → String → String → String → Option (String × ℕ)
unfolding matches big_int_string
find_matching_event conv [] asset_address amount receiver = none
find_matching_event conv (event ∷ events) asset_address amount receiver =
    if matches conv event asset_address amount receiver
    then some (big_int_string event.premium, event.interest_rate_mode)
    else find_matching_event conv events asset_address amount receiver

-- The variables of the loop over the legs.
pub record LegLoop : Type 0 where
  pub strict : Bool
  pub contains_debt_opening : Bool
  pub verified_legs : List InteractionLeg

-- The leg that the loop appends for a matched event.
pub settle_leg : InteractionLeg → String → ℕ → InteractionLeg
settle_leg leg premium mode =
    if mode == 0
    then record paid {
      strict_leg = true;
      event_seen = true;
      settlement_mode = some "full_repayment";
    }
    else record paid {
      opened_debt = true;
      strict_leg = false;
      settlement_mode = some "debt_opening";
    }
  where
    paid : InteractionLeg
    paid = record leg {
      premium_amount = if str_eq premium "" then leg.premium_amount else string_ptr premium;
      interest_rate_mode = some mode;
    }

pub visit_leg : LegLoop → InteractionLeg → String → ℕ → LegLoop
unfolding settle_leg
visit_leg s leg premium mode = record {
  strict = if mode == 0 then s.strict else false;
  contains_debt_opening = if mode == 0 then s.contains_debt_opening else true;
  verified_legs = s.verified_legs ++ settle_leg leg premium mode ∷ [];
}

-- `none` is the return with `flashloan_event_mismatch`.
pub verify_legs :
    Conversions
    → List AaveFlashLoanEvent
    → String
    → LegLoop
    → List InteractionAssetLeg
    → Option LegLoop
unfolding find_matching_event visit_leg
verify_legs conv events receiver s [] = some s
verify_legs conv events receiver s (leg ∷ legs) =
    elim (find_matching_event conv events (conv.address_hex leg.asset_address)
      (big_int_string leg.amount_borrowed) receiver) [
        | none ↦ none
        | some (premium, mode) ↦
            verify_legs conv events receiver (visit_leg s (convert_leg conv leg) premium mode) legs
      ]

pub verified_interaction : String → LegLoop → VerifiedInteraction
verified_interaction id s = record {
  interaction_id = id;
  verified = true;
  strict = s.strict;
  callback_seen = true;
  settlement_seen = true;
  repayment_seen = s.strict;
  contains_debt_opening = s.contains_debt_opening;
  exclusion_reason = none;
  verification_notes =
      if s.strict
      then none
      else some "successful flash loan with debt opening or non-zero interest rate mode";
}

-- The part of `Verify` behind the reads of the database.
pub judge :
    Conversions
    → CandidateInteraction
    → List AaveFlashLoanEvent
    → List InteractionAssetLeg
    → Verdict
unfolding verify_legs verified_interaction
judge conv interaction [] legs = (
  some (excluded interaction.interaction_id "missing_flashloan_event"),
  some (convert_legs conv legs),
)
judge conv interaction (event ∷ events) legs =
    elim (verify_legs conv (event ∷ events) interaction.receiver_address start legs) [
      | none ↦ (
        some (excluded interaction.interaction_id "flashloan_event_mismatch"),
        some (convert_legs conv legs),
      )
      | some s ↦ (some (verified_interaction interaction.interaction_id s), some s.verified_legs)
    ]
  where
    start : LegLoop
    start = record { strict = true; contains_debt_opening = false; verified_legs = [] }

module _ (conv : Conversions) (views : Views) (abi : PoolAbi) where
  -- `Verify` for a transaction that was found and has succeeded.
  pub verify_successful : ℕ → CandidateInteraction → Outcome Verdict
  unfolding judge match_flash_loan_events read_evidence
  verify_successful chain_id interaction = do
    (legs, events) ← read_evidence conv views chain_id interaction
    let provider = conv.hex_to_address interaction.provider_address
    ok (judge conv interaction (match_flash_loan_events conv abi events provider) legs)

  unfoldable pub verify : ℕ → CandidateInteraction → Outcome Verdict
  unfolding verify_successful
  verify chain_id interaction = do
    tx ← views.get_observed_transaction chain_id (conv.hex_to_hash interaction.tx_hash)
    cond (tx_successful tx) (verify_successful chain_id interaction)
        (ok (some (excluded interaction.interaction_id "transaction_not_successful"), none))
