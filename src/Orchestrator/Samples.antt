-- ===== src/Orchestrator/Samples.antt =====
-- A small runner, for tests.
use flashloan_scanner.Base.{ℕ, Bool, true, false, none, some, List, [], ◌∷◌, ok}
use flashloan_scanner.Types.{
  ObservedTransaction, CandidateInteraction, VerifiedInteraction, TxSummary, aave_v3,
}
use flashloan_scanner.Orchestrator.Runner.{ProtocolRunner}

abbrev pub tx : ObservedTransaction
tx = record {
  chain_id = 1;
  tx_hash = "50";
  block_number = "12";
  tx_index = 0;
  from_address = "5";
  to_address = "7";
  status = 1;
  value = "0";
  input_data = "";
  method_selector = "";
  gas_used = "1";
  effective_gas_price = "1";
}

abbrev pub candidate : CandidateInteraction
candidate = record {
  interaction_id = "1";
  interaction_ordinal = 0;
  chain_id = 1;
  tx_hash = "50";
  block_number = "12";
  protocol = aave_v3;
  entrypoint = "flashLoan";
  provider_address = "7";
  factory_address = "";
  pair_address = "";
  receiver_address = "20";
  callback_target = "20";
  initiator = "";
  on_behalf_of = "";
  candidate_level = 2;
  raw_method_selector = "";
  data_non_empty = some true;
}

abbrev pub verified : VerifiedInteraction
verified = record {
  interaction_id = "1";
  verified = true;
  strict = false;
  callback_seen = true;
  settlement_seen = true;
  repayment_seen = false;
  contains_debt_opening = false;
  exclusion_reason = none;
  verification_notes = none;
}

abbrev pub summary : TxSummary
summary = record {
  chain_id = 1;
  tx_hash = "50";
  block_number = "12";
  contains_candidate_interaction = true;
  contains_verified_interaction = true;
  contains_verified_strict_interaction = false;
  interaction_count = 1;
  strict_interaction_count = 0;
  protocol_count = 1;
  protocols = aave_v3 ∷ [];
}

-- A runner over the transactions `txs` with two candidates in one transaction; its world is the
-- stored cursor, which no stage changes.
abbrev pub runner_over : List ObservedTransaction → Bool → ProtocolRunner ℕ
runner_over txs watched = record {
  scanner_name = "aave";
  protocol = aave_v3;
  fetch_range = λ _ _ _ w. (ok tt, w);
  list_observed_transactions_by_block_range = λ _ _ _ w. (ok txs, w);
  extract = λ _ _ w. (ok (candidate ∷ candidate ∷ [], []), w);
  upsert_interactions = λ _ w. (ok tt, w);
  update_verification_result = λ _ w. (ok tt, w);
  replace_interaction_legs = λ _ _ w. (ok tt, w);
  verify = λ _ _ w. (ok (some verified, none), w);
  aggregate_by_tx = λ _ _ w. (ok (some summary), w);
  observed = watched;
  skip_tx_fetch = false;
  map_order = λ groups. groups;
}

abbrev pub runner : ProtocolRunner ℕ
runner = runner_over (tx ∷ []) true
