-- ===== src/Registry/Examples.antt =====
-- The registry on small inputs: tests, and the theorem applied.
use flashloan_scanner.Base.{String, Bool, ◌≡◌, refl, true, false, [], ◌∷◌, ok, any}
use flashloan_scanner.Base.Decimal.{decimal}
use flashloan_scanner.Types.{Protocol, aave_v3}
use flashloan_scanner.Rows.{Conversions, ProtocolAddress, UniswapV2PairRow}
use flashloan_scanner.Registry.{
  MemoryRegistry, RegistryViews, add_protocol_address, is_official_aave_pool, new_memory_registry,
  has_address, get_uniswap_v2_pair, is_official_uniswap_v2_pair, found, list_tracked_addresses,
  new_memory_registry_from_db,
}
use flashloan_scanner.Registry.Loading.{is_listed, last_pair, new_memory_registry_from_db-lookups}

abbrev conv : Conversions
conv = record {
  address_hex = decimal;
  hex_to_address = λ s. 0;
  hash_hex = decimal;
  hex_to_hash = λ s. 0;
  topic_address = λ t. t;
  uuid_string = decimal;
}

abbrev pool : ProtocolAddress
pool = record { chain_id = 1; protocol = aave_v3; address_role = "pool"; contract_address = 7 }

abbrev pair : Bool → UniswapV2PairRow
pair official = record {
  chain_id = 1;
  factory_address = 8;
  pair_address = 9;
  token0 = 30;
  token1 = 31;
  created_block = 4;
  is_official = official;
}

abbrev views : RegistryViews
views = record {
  list_official_protocol_addresses = λ _. ok (pool ∷ []);
  list_uniswap_v2_pairs = λ _. ok (pair true ∷ pair false ∷ []);
}

any_case :
    is_official_aave_pool
      (add_protocol_address
        (record { chain_id = 1; protocol = aave_v3; address_role = "pool"; address = "0xAb" })
        new_memory_registry)
      1
      "0xaB"
    ≡ true
unfolding is_official_aave_pool add_protocol_address
any_case = refl

tracked :
    list_tracked_addresses
      (add_protocol_address
        (record { chain_id = 1; protocol = aave_v3; address_role = "pool"; address = "0xAb" })
        new_memory_registry)
      1
    ≡ "0xab" ∷ []
unfolding list_tracked_addresses add_protocol_address
tracked = refl

new_memory_registry_from_db-lookups_example :
    (r : MemoryRegistry) × (new_memory_registry_from_db conv views 1 ≡ ok r)
    × ((protocol : Protocol) (role address : String)
        → has_address r 1 protocol role address
          ≡ any (is_listed conv 1 protocol role address) (pool ∷ []))
    × ((address : String)
        → get_uniswap_v2_pair r 1 address ≡ last_pair conv 1 address (pair true ∷ pair false ∷ []))
    × ((address : String)
        → is_official_uniswap_v2_pair r 1 address
          ≡ found (last_pair conv 1 address (pair true ∷ pair false ∷ [])))
new_memory_registry_from_db-lookups_example =
    new_memory_registry_from_db-lookups conv views 1 (pool ∷ []) (pair true ∷ pair false ∷ []) refl
      refl
