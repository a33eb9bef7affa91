-- ===== src/Verifier/Samples.antt =====
-- Small inputs for the verifiers.
use flashloan_scanner.Base.{ℕ, String, true, false, Option, none, some, List, [], ◌∷◌, ok, err}
use flashloan_scanner.Base.Decimal.{decimal, parse_decimal}
use flashloan_scanner.Types.{CandidateInteraction, VerifiedInteraction, InteractionLeg, aave_v3}
use flashloan_scanner.Rows.{Conversions, InteractionAssetLeg, ContractEvent, ObservedTransactionRow}
use flashloan_scanner.Trace.Frames.{CallFrame, frame, nil, cons}
use flashloan_scanner.Trace.Providers.{Provider}
use flashloan_scanner.Verifier.Convert.{
  Views, convert_leg, string_ptr, string_ptr_value, address_string,
}
use flashloan_scanner.Verifier.TracePath.{is_direct_call, is_repayment}
use flashloan_scanner.Verifier.Traced.{
  verify_aave, verify_balancer, verify_uniswap, callback_seen, repayment_path_seen,
}
use flashloan_scanner.Verifier.Aave
use flashloan_scanner.Verifier.Balancer
use flashloan_scanner.Verifier.Uniswap
use flashloan_scanner.Verifier.Aave.{PoolAbi}
use flashloan_scanner.Verifier.Balancer.{VaultAbi}
use flashloan_scanner.Verifier.Uniswap.{PairAbi}

-- Addresses and hashes written in decimal.
unfoldable pub number_of : String → ℕ
unfolding parse_decimal
number_of s = elim (parse_decimal s) [ none ↦ 0 | some n ↦ n ]

abbrev pub conv : Conversions
conv = record {
  address_hex = decimal;
  hex_to_address = number_of;
  hash_hex = decimal;
  hex_to_hash = number_of;
  topic_address = λ t. t;
  uuid_string = decimal;
}

abbrev pub interaction : CandidateInteraction
interaction = record {
  interaction_id = "1";
  interaction_ordinal = 0;
  chain_id = 1;
  tx_hash = "50";
  block_number = "12";
  protocol = aave_v3;
  entrypoint = "flashLoan";
  provider_address = "7";
  factory_address = "";
  pair_address = "";
  receiver_address = "20";
  callback_target = "20";
  initiator = "";
  on_behalf_of = "";
  candidate_level = 2;
  raw_method_selector = "";
  data_non_empty = some true;
}

abbrev pub stored_leg : InteractionAssetLeg
stored_leg = record {
  interaction_id = 1;
  leg_index = 0;
  asset_address = 30;
  asset_role = "borrowed";
  token_side = some "token0";
  amount_out = none;
  amount_in = none;
  amount_borrowed = some 1000;
  amount_repaid = none;
  premium_amount = none;
  fee_amount = none;
  interest_rate_mode = none;
  repaid_to_address = none;
  opened_debt = false;
  strict_leg = false;
  event_seen = false;
  settlement_mode = none;
}

-- A log of the provider 7 with the event id 99.
abbrev pub log : ContractEvent
log = record { contract_address = 7; topics = 99 ∷ 20 ∷ 30 ∷ 0 ∷ []; payload = [] }

-- The same for a Balancer event and a Uniswap event, whose topics differ.
abbrev pub swap_log : ContractEvent
swap_log = record { contract_address = 7; topics = 99 ∷ 40 ∷ 20 ∷ []; payload = [] }

abbrev pub tx_row : ObservedTransactionRow
tx_row = record {
  chain_id = 1;
  tx_hash = 50;
  block_number = 12;
  tx_index = 0;
  from_address = 5;
  to_address = some 7;
  status = 1;
  value = some 0;
  input_data = "0x";
  method_selector = "";
  gas_used = some 21000;
  effective_gas_price = some 3;
}

abbrev pub views_of : ContractEvent → Views
views_of event = record {
  get_observed_transaction = λ _ _. ok (some tx_row);
  list_interaction_legs = λ _. ok (stored_leg ∷ []);
  chain_contract_events_by_tx_hash = λ _ _. ok (event ∷ []);
  parse_uuid = λ _. ok 1;
}

abbrev pub pool_abi : PoolAbi
pool_abi = record {
  flash_loan_id = 99;
  unpack_flash_loan = λ _.
      some (record { initiator = 5; amount = some 1000; interest_rate_mode = 0; premium = some 9 });
}

abbrev pub vault_abi : VaultAbi
vault_abi = record {
  flash_loan_id = 99;
  unpack_flash_loan = λ _. some (record { amount = some 1000; fee_amount = none });
}

abbrev pub pair_abi : PairAbi
pair_abi = record {
  swap_id = 99;
  unpack_swap = λ _. some (record {
    amount0_in = some 1003;
    amount1_in = some 0;
    amount0_out = some 1000;
    amount1_out = some 0;
  });
}

-- The provider 7 calls the receiver 20, and the receiver transfers the asset 30.
abbrev pub root : CallFrame
root = frame "CALL" "5" "7" "" "" "" "" (
    cons (frame "CALL" "7" "20" "" "" "" "" nil)
      (cons (frame "CALL" "20" "30" "0xA9059CBB00" "" "" "" nil) nil))

abbrev pub tracing : Provider
tracing = λ _. ok (some root)

abbrev pub untraceable : Provider
untraceable = λ _. err "the method debug_traceTransaction does not exist"

-- What the verifiers answer on these inputs, with the note and the details that they fill in.
abbrev pub strict_result : Option String → VerifiedInteraction
strict_result notes = record {
  interaction_id = "1";
  verified = true;
  strict = true;
  callback_seen = true;
  settlement_seen = true;
  repayment_seen = true;
  contains_debt_opening = false;
  exclusion_reason = none;
  verification_notes = notes;
}

abbrev pub settled_leg : Option String → Option String → Option ℕ → String → InteractionLeg
settled_leg paid premium mode settlement = record {
  interaction_id = "1";
  leg_index = 0;
  asset_address = "30";
  asset_role = "borrowed";
  token_side = some "token0";
  amount_out = none;
  amount_in = paid;
  amount_borrowed = some "1000";
  amount_repaid = none;
  premium_amount = premium;
  fee_amount = none;
  interest_rate_mode = mode;
  repaid_to_address = none;
  opened_debt = false;
  strict_leg = true;
  event_seen = true;
  settlement_mode = some settlement;
}

abbrev pub aave_legs : List InteractionLeg
aave_legs = settled_leg none (some "9") (some 0) "full_repayment" ∷ []

abbrev pub balancer_legs : List InteractionLeg
balancer_legs = settled_leg none none none "full_repayment" ∷ []

abbrev pub uniswap_legs : List InteractionLeg
uniswap_legs = settled_leg (some "1003") none none "invariant_restored" ∷ []

abbrev pub balancer_result : VerifiedInteraction
balancer_result = strict_result (
    some
      "event-backed Balancer V2 verification; callback and repayment inferred from successful Vault flashLoan settlement")

abbrev pub uniswap_result : VerifiedInteraction
uniswap_result = strict_result (
    some
      "event-backed Uniswap V2 verification; callback and invariant restoration inferred from successful official pair swap with non-empty data and matching Swap event")

abbrev pub traced_aave_result : VerifiedInteraction
traced_aave_result =
    strict_result
      (some "trace-backed strict verification passed via callback and repayment-path evidence")

abbrev pub traced_balancer_result : VerifiedInteraction
traced_balancer_result = strict_result (
    some
      "event-backed Balancer V2 verification; callback and repayment inferred from successful Vault flashLoan settlement; trace-backed strict verification passed via Balancer callback and repayment-path evidence")

abbrev pub traced_uniswap_result : VerifiedInteraction
traced_uniswap_result = strict_result (
    some
      "event-backed Uniswap V2 verification; callback and invariant restoration inferred from successful official pair swap with non-empty data and matching Swap event; trace-backed strict verification passed via Uniswap V2 callback and invariant-path evidence")

-- What a run of the verifiers on these inputs computes with.
unfoldable pub runs : Unit {0}
unfolding number_of decimal convert_leg string_ptr string_ptr_value address_string callback_seen
    is_direct_call repayment_path_seen is_repayment Aave.verify Balancer.verify Uniswap.verify
    verify_aave verify_balancer verify_uniswap
runs = tt
