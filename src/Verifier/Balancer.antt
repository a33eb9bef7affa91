-- ===== src/Verifier/Balancer.antt =====
-- scanner/verifier/balancer_v2.go: the event-based check of a Balancer V2 flash loan.
pub mod Emitted
pub mod Matching
pub mod Sound
pub mod Consistent
use flashloan_scanner.Base.{
  ℕ, String, Bool, true, false, ◌&&◌, Option, none, some, List, [], ◌∷◌, ◌++◌, str_eq,
  if◌then◌else◌, cond, Outcome, ok, ◌>>=◌,
}
use flashloan_scanner.Base.Decimal.{decimal}
use flashloan_scanner.Types.{CandidateInteraction, VerifiedInteraction, InteractionLeg}
use flashloan_scanner.Rows.{Hash, Address, Conversions, InteractionAssetLeg, ContractEvent}
use flashloan_scanner.Verifier.Logs.{match_events}
use flashloan_scanner.Verifier.Convert.{
  Views, Verdict, excluded, tx_successful, big_int_string, string_ptr, convert_leg, convert_legs,
  read_evidence,
}

-- The data part of a FlashLoan event, as the ABI decoder returns it.
pub record FlashLoanData : Type 0 where
  pub amount : Option ℕ
  pub fee_amount : Option ℕ

pub record VaultAbi : Type 0 where
  pub flash_loan_id : Hash
  pub unpack_flash_loan : List ℕ → Option FlashLoanData

pub record BalancerFlashLoanEvent : Type 0 where
  pub recipient : Address
  pub token : Address
  pub amount : Option ℕ
  pub fee_amount : Option ℕ

-- The event of a log's further topics, if there are enough of them.
pub with_topics : Conversions → List Hash → FlashLoanData → Option BalancerFlashLoanEvent
with_topics conv (recipient ∷ token ∷ _) decoded = some (record {
  recipient = conv.topic_address recipient;
  token = conv.topic_address token;
  amount = decoded.amount;
  fee_amount = decoded.fee_amount;
})
with_topics conv _ decoded = none

pub match_flash_loan_events :
    Conversions → VaultAbi → List ContractEvent → Address → List BalancerFlashLoanEvent
unfolding match_events with_topics
match_flash_loan_events conv abi events provider =
    match_events abi.flash_loan_id abi.unpack_flash_loan (with_topics conv) events provider

-- The three tests of the loop of `find_matching_event`.
matches : Conversions → BalancerFlashLoanEvent → String → String → String → Bool
matches conv event asset_address amount recipient =
    str_eq (conv.address_hex event.token) asset_address
    && str_eq (conv.address_hex event.recipient) recipient
    && elim event.amount [ none ↦ false | some a ↦ str_eq (decimal a) amount ]

-- The fee of the first event that matches; `none` is `false, ""`.
pub find_matching_event :
    Conversions → List BalancerFlashLoanEvent → String → String → String → Option String
unfolding matches big_int_string
find_matching_event conv [] asset_address amount recipient = none
find_matching_event conv (event ∷ events) asset_address amount recipient =
    if matches conv event asset_address amount recipient
    then some (big_int_string event.fee_amount)
    else find_matching_event conv events asset_address amount recipient

-- The leg that the loop appends for a matched event.
pub settle_leg : InteractionLeg → String → InteractionLeg
settle_leg leg fee = record leg {
  fee_amount = if str_eq fee "" then leg.fee_amount else string_ptr fee;
  event_seen = true;
  strict_leg = true;
  settlement_mode = some "full_repayment";
}

-- The loop over the legs; `none` is the return with `flashloan_event_mismatch`.
pub verify_legs :
    Conversions
    → List BalancerFlashLoanEvent
    → String
    → List InteractionLeg
    → List InteractionAssetLeg
    → Option (List InteractionLeg)
unfolding find_matching_event settle_leg
verify_legs conv events recipient done [] = some done
verify_legs conv events recipient done (leg ∷ legs) =
    elim (find_matching_event conv events (conv.address_hex leg.asset_address)
      (big_int_string leg.amount_borrowed) recipient) [
        | none ↦ none
        | some fee ↦
            verify_legs conv events recipient (done ++ settle_leg (convert_leg conv leg) fee ∷ [])
              legs
      ]

pub verified_interaction : String → VerifiedInteraction
verified_interaction id = record {
  interaction_id = id;
  verified = true;
  strict = true;
  callback_seen = true;
  settlement_seen = true;
  repayment_seen = true;
  contains_debt_opening = false;
  exclusion_reason = none;
  verification_notes =
      some
        "event-backed Balancer V2 verification; callback and repayment inferred from successful Vault flashLoan settlement";
}

-- The part of `Verify` behind the reads of the database.
pub judge :
    Conversions
    → CandidateInteraction
    → List BalancerFlashLoanEvent
    → List InteractionAssetLeg
    → Verdict
unfolding verify_legs verified_interaction
judge conv interaction [] legs = (
  some (excluded interaction.interaction_id "missing_flashloan_event"),
  some (convert_legs conv legs),
)
judge conv interaction (event ∷ events) legs =
    elim (verify_legs conv (event ∷ events) interaction.receiver_address [] legs) [
      | none ↦ (
        some (excluded interaction.interaction_id "flashloan_event_mismatch"),
        some (convert_legs conv legs),
      )
      | some done ↦ (some (verified_interaction interaction.interaction_id), some done)
    ]

module _ (conv : Conversions) (views : Views) (abi : VaultAbi) where
  -- `Verify` for a transaction that was found and has succeeded.
  pub verify_successful : ℕ → CandidateInteraction → Outcome Verdict
  unfolding judge match_flash_loan_events read_evidence
  verify_successful chain_id interaction = do
    (legs, events) ← read_evidence conv views chain_id interaction
    let provider = conv.hex_to_address interaction.provider_address
    ok (judge conv interaction (match_flash_loan_events conv abi events provider) legs)

  unfoldable pub verify : ℕ → CandidateInteraction → Outcome Verdict
  unfolding verify_successful
  verify chain_id interaction = do
    tx ← views.get_observed_transaction chain_id (conv.hex_to_hash interaction.tx_hash)
    cond (tx_successful tx) (verify_successful chain_id interaction)
        (ok (some (excluded interaction.interaction_id "transaction_not_successful"), none))
