-- ===== src/Verifier/Convert.antt =====
-- What the verifiers share: the stored legs as scanner legs, the texts of optional values, the views
-- of the database that a verifier reads (`dbevent.ContractEventsView` and two of `dbscanner`), and
-- the results that reject a candidate.
use flashloan_scanner.Base.{
  ℕ, String, Bool, false, Option, none, some, List, map, str_eq, if◌then◌else◌, Outcome, ok, err,
  ◌==◌, text_append, ◌>>=◌,
}
use flashloan_scanner.Base.Decimal.{decimal}
use flashloan_scanner.Types.{CandidateInteraction, VerifiedInteraction, InteractionLeg}
use flashloan_scanner.Rows.{
  Hash, Uuid, Address, Conversions, ObservedTransactionRow, InteractionAssetLeg, ContractEvent,
}

pub record Views : Type 0 where
  pub get_observed_transaction : ℕ → Hash → Outcome (Option ObservedTransactionRow)
  pub list_interaction_legs : Uuid → Outcome (List InteractionAssetLeg)
  pub chain_contract_events_by_tx_hash : String → Hash → Outcome (List ContractEvent)
  -- uuid.Parse
  pub parse_uuid : String → Outcome Uuid

-- uuid.Parse, its error wrapped by `fmt.Errorf("parse interaction id: %w", err)`.
unfoldable pub parse_interaction_id : Views → String → Outcome Uuid
parse_interaction_id views raw = elim (views.parse_uuid raw) [
  | ok id ↦ ok id
  | err message ↦ err (text_append "parse interaction id: " message)
]

unfoldable pub big_int_string : Option ℕ → String
big_int_string none = ""
big_int_string (some v) = decimal v

unfoldable pub address_string : Conversions → Option Address → String
address_string conv none = ""
address_string conv (some v) = conv.address_hex v

unfoldable pub string_ptr : String → Option String
string_ptr v = if str_eq v "" then none else some v

unfoldable pub string_ptr_value : Option String → Option String
string_ptr_value none = none
string_ptr_value (some v) = if str_eq v "" then none else some v

unfoldable pub convert_leg : Conversions → InteractionAssetLeg → InteractionLeg
convert_leg conv item = record {
  interaction_id = conv.uuid_string item.interaction_id;
  leg_index = item.leg_index;
  asset_address = conv.address_hex item.asset_address;
  asset_role = item.asset_role;
  token_side = string_ptr_value item.token_side;
  amount_out = string_ptr (big_int_string item.amount_out);
  amount_in = string_ptr (big_int_string item.amount_in);
  amount_borrowed = string_ptr (big_int_string item.amount_borrowed);
  amount_repaid = string_ptr (big_int_string item.amount_repaid);
  premium_amount = string_ptr (big_int_string item.premium_amount);
  fee_amount = string_ptr (big_int_string item.fee_amount);
  interest_rate_mode = item.interest_rate_mode;
  repaid_to_address = string_ptr (address_string conv item.repaid_to_address);
  opened_debt = item.opened_debt;
  strict_leg = item.strict_leg;
  event_seen = item.event_seen;
  settlement_mode = string_ptr_value item.settlement_mode;
}

unfoldable pub convert_legs : Conversions → List InteractionAssetLeg → List InteractionLeg
convert_legs conv items = map (convert_leg conv) items

-- `VerifiedInteraction{InteractionID: id, ExclusionReason: &reason}`
abbrev pub excluded : String → String → VerifiedInteraction
excluded id reason = record {
  interaction_id = id;
  verified = false;
  strict = false;
  callback_seen = false;
  settlement_seen = false;
  repayment_seen = false;
  contains_debt_opening = false;
  exclusion_reason = some reason;
  verification_notes = none;
}

-- The two results of `Verify` besides its error: the verdict and the legs, each possibly nil.
abbrev pub Verdict : Type 0
Verdict = Option VerifiedInteraction × Option (List InteractionLeg)

-- `txRecord != nil && txRecord.Status == 1`
abbrev pub tx_successful : Option ObservedTransactionRow → Bool
tx_successful none = false
tx_successful (some tx) = tx.status == 1

-- The reads that every `Verify` makes for a successful transaction: the stored legs of the
-- interaction and the events of its transaction.
unfoldable pub read_evidence :
    Conversions
    → Views
    → ℕ
    → CandidateInteraction
    → Outcome (List InteractionAssetLeg × List ContractEvent)
unfolding parse_interaction_id
read_evidence conv views chain_id interaction = do
  interaction_id ← parse_interaction_id views interaction.interaction_id
  legs ← views.list_interaction_legs interaction_id
  events ←
      views.chain_contract_events_by_tx_hash (decimal chain_id)
        (conv.hex_to_hash interaction.tx_hash)
  ok (legs, events)
