-- ===== src/Extractor/Examples.antt =====
-- The extractors on a call of an official contract and on one of another contract.
use flashloan_scanner.Extractor.Aave.Complete.{extract_complete}
use flashloan_scanner.Base.{Memᴰ, String, none, some, List, [], ◌∷◌, ok, All}
use flashloan_scanner.Base.Decimal.{decimal}
use flashloan_scanner.Types.{ObservedTransaction, CandidateInteraction, InteractionLeg, aave_v3}
use flashloan_scanner.Rows.{Conversions}
use flashloan_scanner.Registry.{MemoryRegistry, add_protocol_address, new_memory_registry}
use flashloan_scanner.Verifier.Convert.{string_ptr, big_int_string}
use flashloan_scanner.Extractor.Aave.{
  ExtractorDeps, borrowed_leg, interaction_of, extract, extract_tx,
}
use flashloan_scanner.Extractor.Aave.Origins.{IsCandidate, Belongs, extract-IsCandidate}
use flashloan_scanner.Base.{ℕ, ◌≡◌, refl, Outcome, err, map, filter_if, length}
use flashloan_scanner.Types.{UniswapV2Pair, balancer_v2}
use flashloan_scanner.Rows.{ContractEvent}
use flashloan_scanner.Registry.{add_uniswap_v2_pair}
use flashloan_scanner.Extractor.Shared.{Found, new_leg}
use flashloan_scanner.Extractor.Uniswap.{UniswapExtractorDeps, swap_interaction, extract_swaps}
use flashloan_scanner.Extractor.Uniswap.Swaps.{IsFlashSwap, IsSwapLeg, extract_swaps-IsFlashSwap}
use flashloan_scanner.Extractor.Balancer.{
  BalancerExtractorDeps, Groups, all_legs, match_vault_events, extract_from_flash_loan_events,
  extract_loans,
}
use flashloan_scanner.Extractor.Balancer.Numbering.{Numbered}
use flashloan_scanner.Extractor.Balancer.Groups.{
  IsGroup, leg_facts, event_facts, event_test, legs_at, extract_from_flash_loan_events-Numbered,
}

abbrev conv : Conversions
conv = record {
  address_hex = decimal;
  hex_to_address = λ s. 0;
  hash_hex = decimal;
  hex_to_hash = λ s. 0;
  topic_address = λ t. t;
  uuid_string = decimal;
}

abbrev deps : ExtractorDeps
deps = record {
  decode = λ _. some (1 ∷ 2 ∷ 3 ∷ 4 ∷ []);
  method_by_id = λ _. some "flashLoan";
  unpack_flash_loan = λ _. ok (record {
    receiver_address = 20;
    assets = 30 ∷ 31 ∷ [];
    amounts = some 1000 ∷ [];
    interest_rate_modes = some 0 ∷ some 2 ∷ [];
    on_behalf_of = 20;
  });
  unpack_flash_loan_simple = λ _. ok (record { receiver_address = 20; asset = 30; amount = 5 });
  new_sha1 = λ _. 77;
}

abbrev tx : String → ObservedTransaction
tx to = record {
  chain_id = 1;
  tx_hash = "50";
  block_number = "12";
  tx_index = 0;
  from_address = "5";
  to_address = to;
  status = 1;
  value = "0";
  input_data = "0x01020304";
  method_selector = "0x01020304";
  gas_used = "1";
  effective_gas_price = "1";
}

abbrev registry : MemoryRegistry
registry =
    add_protocol_address
      (record { chain_id = 1; protocol = aave_v3; address_role = "pool"; address = "7" })
      new_memory_registry

abbrev call : CandidateInteraction
call = interaction_of conv deps (tx "7") "flashLoan" "20" "20"

abbrev call_legs : List InteractionLeg
call_legs = borrowed_leg "77" 0 "30" (some "1000") 0 ∷ borrowed_leg "77" 1 "31" none 2 ∷ []

one_candidate : extract conv deps registry 1 (tx "8" ∷ tx "7" ∷ []) ≡ ok (call ∷ [], call_legs)
unfolding extract interaction_of add_protocol_address string_ptr big_int_string decimal
one_candidate = refl

extract-IsCandidate_example :
    All (IsCandidate conv deps registry 1 (tx "8" ∷ tx "7" ∷ [])) (call ∷ [])
    × All (Belongs (call ∷ [])) call_legs
extract-IsCandidate_example =
    extract-IsCandidate conv deps registry 1 (tx "8" ∷ tx "7" ∷ []) one_candidate

extract_complete_example : Memᴰ call (call ∷ []) × All (λ leg. Memᴰ leg call_legs) call_legs
unfolding extract_tx interaction_of add_protocol_address string_ptr big_int_string decimal
extract_complete_example =
    extract_complete conv deps registry 1 (tx "8" ∷ tx "7" ∷ []) (tx "7") call call_legs
      (Memᴰ.tail (Memᴰ.head refl)) refl one_candidate

-- A swap on a pair, that the registry knows, with data for a callback.
abbrev swap_deps : UniswapExtractorDeps
swap_deps = record {
  decode = λ _. some (1 ∷ 2 ∷ 3 ∷ 4 ∷ []);
  method_by_id = λ _. some "swap";
  unpack_swap =
      λ _. ok (record { amount0_out = some 0; amount1_out = some 900; to = 20; payload = 1 ∷ [] });
  new_sha1 = λ _. 78;
}

abbrev known_pair : UniswapV2Pair
known_pair = record {
  chain_id = 1;
  factory_address = "6";
  pair_address = "7";
  token0 = "30";
  token1 = "31";
  created_block = "2";
}

abbrev pair_registry : MemoryRegistry
pair_registry = add_uniswap_v2_pair known_pair new_memory_registry

abbrev flash_swap : CandidateInteraction
flash_swap =
    swap_interaction conv swap_deps (tx "7") known_pair
      (record { amount0_out = some 0; amount1_out = some 900; to = 20; payload = 1 ∷ [] })

abbrev flash_swap_legs : List InteractionLeg
flash_swap_legs = new_leg "78" 0 "31" (some "token1") (some "900") (some "900") none ∷ []

one_swap :
    extract_swaps conv swap_deps pair_registry 1 (tx "8" ∷ tx "7" ∷ [])
    ≡ ok (flash_swap ∷ [], flash_swap_legs)
unfolding extract_swaps swap_interaction add_uniswap_v2_pair decimal
one_swap = refl

extract_swaps-IsFlashSwap_example :
    All (IsFlashSwap conv swap_deps pair_registry 1 (tx "8" ∷ tx "7" ∷ [])) (flash_swap ∷ [])
    × All (IsSwapLeg conv swap_deps pair_registry 1 (tx "8" ∷ tx "7" ∷ [])) flash_swap_legs
extract_swaps-IsFlashSwap_example =
    extract_swaps-IsFlashSwap conv swap_deps pair_registry 1 (tx "8" ∷ tx "7" ∷ [])
      {interactions = flash_swap ∷ []} {legs = flash_swap_legs} one_swap

-- A loan of two tokens by the vault, which another contract called for.
abbrev loan_log : ℕ → ContractEvent
loan_log token = record { contract_address = 7; topics = 99 ∷ 20 ∷ token ∷ []; payload = [] }

abbrev two_logs : String → ℕ → Outcome (List ContractEvent)
two_logs chain hash = ok (loan_log 30 ∷ loan_log 31 ∷ [])

abbrev vault_deps : BalancerExtractorDeps
vault_deps = record {
  decode = λ _. some (1 ∷ 2 ∷ 3 ∷ 4 ∷ []);
  method_by_id = λ _. some "flashLoan";
  unpack_flash_loan = λ _. err "no input";
  event_id = 99;
  unpack_event = λ _. some (some 1000, some 0);
  events_by_tx_hash = some two_logs;
  new_sha1 = λ _. 79;
}

abbrev vault_registry : MemoryRegistry
vault_registry =
    add_protocol_address
      (record { chain_id = 1; protocol = balancer_v2; address_role = "vault"; address = "7" })
      new_memory_registry

abbrev shape : Found → ℕ × List String
shape (err e) = (0, [])
shape (ok (interactions, legs)) = (length interactions, map (λ leg. leg.asset_address) legs)

-- One candidate with two legs.
two_legs :
    shape (extract_loans conv vault_deps vault_registry 1 (tx "8" ∷ [])) ≡ (1, "30" ∷ "31" ∷ [])
unfolding extract_loans add_protocol_address decimal
two_legs = refl

extract_from_flash_loan_events-Numbered_example :
    (groups : Groups) × (extract_from_flash_loan_events conv vault_deps vault_registry 1 (tx "8")
      ≡ ok (map (λ g. g.1.interaction) groups, all_legs conv vault_deps groups))
    × Numbered (IsGroup conv vault_deps (tx "8")) 0 groups
    × ((key : String)
        → map leg_facts (legs_at conv vault_deps (tx "8") key groups)
          ≡ map (event_facts conv vault_deps (tx "8")) (
              filter_if (event_test conv vault_deps (tx "8") key) (
                match_vault_events conv vault_deps vault_registry 1
                  (loan_log 30 ∷ loan_log 31 ∷ []))))
extract_from_flash_loan_events-Numbered_example =
    extract_from_flash_loan_events-Numbered conv vault_deps (tx "8") vault_registry 1
      {view = two_logs} {events = loan_log 30 ∷ loan_log 31 ∷ []} refl refl
