-- ===== src/Aggregator/Examples.antt =====
-- The aggregator on small inputs: tests, and the theorems applied.
use flashloan_scanner.Base.{
  ℕ, String, Bool, ◌+◌, ◌≡◌, refl, true, false, List, [], ◌∷◌, ok, none, length, any, str_eq, map,
}
use flashloan_scanner.Base.Decimal.{decimal}
use flashloan_scanner.Base.Distinct.{Once}
use flashloan_scanner.Types.{aave_v3, balancer_v2}
use flashloan_scanner.Rows.{Conversions, ProtocolInteraction}
use flashloan_scanner.Aggregator.{Stores, summarize, aggregate_range, join}
use flashloan_scanner.Aggregator.Summary.{Summarizes, summarize-Summarizes}
use flashloan_scanner.Aggregator.Range.{aggregate_each, aggregate_range-each}

abbrev conv : Conversions
conv = record {
  address_hex = decimal;
  hex_to_address = λ s. 0;
  hash_hex = decimal;
  hex_to_hash = λ s. 0;
  topic_address = λ t. t;
  uuid_string = decimal;
}

abbrev item : ℕ → String → Bool → Bool → ProtocolInteraction
item tx_hash protocol verified strict = record {
  interaction_id = 77;
  tx_hash = tx_hash;
  block_number = 12;
  interaction_ordinal = 0;
  protocol = protocol;
  entrypoint = "flashLoan";
  provider_address = 7;
  factory_address = none;
  pair_address = none;
  receiver_address = none;
  callback_target = none;
  initiator = none;
  on_behalf_of = none;
  candidate_level = 1;
  verified = verified;
  strict = strict;
  callback_seen = strict;
  settlement_seen = verified;
  repayment_seen = strict;
  contains_debt_opening = false;
  exclusion_reason = "";
  verification_notes = "";
  raw_method_selector = "";
}

abbrev items : List ProtocolInteraction
items =
    item 5 balancer_v2 true false ∷ item 5 aave_v3 true true ∷ item 6 balancer_v2 false false ∷ []

-- A store whose state is the number of rows written.
abbrev stores : Stores ℕ
stores = record {
  list_protocol_interactions_by_tx = λ _ _ _. ok items;
  list_candidate_interactions = λ _ _ _ _ _. ok items;
  upsert_flashloan_transactions = λ rows written. (ok tt, written + length rows);
}

sorted_protocols :
    (summarize 1 "5" (item 5 balancer_v2 true false) (item 5 aave_v3 true true ∷ [])).protocols
    ≡ aave_v3 ∷ balancer_v2 ∷ []
unfolding summarize
sorted_protocols = refl

two_transactions : aggregate_range conv stores 1 10 20 0 ≡ (ok tt, 2)
unfolding aggregate_range
two_transactions = refl

joined : join "," ("a" ∷ "b" ∷ []) ≡ "a,b"
unfolding join
joined = refl

summarize-Summarizes_example :
    Summarizes
      (summarize 1 "5" (item 5 balancer_v2 true false) (item 5 aave_v3 true true ∷ []))
      (item 5 balancer_v2 true false ∷ item 5 aave_v3 true true ∷ [])
summarize-Summarizes_example =
    summarize-Summarizes 1 "5" (item 5 balancer_v2 true false) (item 5 aave_v3 true true ∷ [])

aggregate_range-each_example :
    (hashes : List String) × (aggregate_range conv stores 1 10 20 0
      ≡ aggregate_each conv stores 1 hashes 0)
    × Once hashes
    × ((h : String)
        → any (str_eq h) hashes ≡ any (str_eq h) (map (λ i. conv.hash_hex i.tx_hash) items))
aggregate_range-each_example = aggregate_range-each conv stores 1 10 20 items 0 refl
