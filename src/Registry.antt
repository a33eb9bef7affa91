-- ===== src/Registry.antt =====
-- scanner/registry: memory.go and loader.go. The registry of official contracts, three maps behind a
-- lock; an operation holds the lock from its first to its last step, so that it is one function.
pub mod Loading
mod Examples
use flashloan_scanner.Base.{
  ℕ, String, Bool, true, false, Option, none, some, List, [], ◌∷◌, map, if◌then◌else◌, Outcome, ok,
  err, ◌>>=◌, text_append, not,
}
use flashloan_scanner.Base.Dict.{Dict, lookup, insert, nat_eq, string_eq}
use flashloan_scanner.Base.Text.{to_lower}
use flashloan_scanner.Base.Decimal.{decimal}
use flashloan_scanner.Types.{Protocol, UniswapV2Pair, aave_v3, balancer_v2, uniswap_v2}
use flashloan_scanner.Rows.{Conversions, ProtocolAddress, UniswapV2PairRow}

pub record AddressRecord : Type 0 where
  pub chain_id : ℕ
  pub protocol : Protocol
  pub address_role : String
  pub address : String

pub record MemoryRegistry : Type 0 where
  pub addresses_by_key : Dict String (Unit {0})
  pub pairs_by_chain : Dict ℕ (Dict String UniswapV2Pair)
  pub tracked_by_chain : Dict ℕ (Dict String (Unit {0}))

abbrev pub new_memory_registry : MemoryRegistry
new_memory_registry = record { addresses_by_key = []; pairs_by_chain = []; tracked_by_chain = [] }

abbrev pub normalize_address : String → String
normalize_address address = to_lower address

-- strings.Join of the four parts with "|".
unfoldable pub address_key : ℕ → Protocol → String → String → String
unfolding decimal to_lower
address_key chain_id protocol role address = text_append (decimal chain_id) (
    text_append "|" (
      text_append protocol
        (text_append "|" (text_append role (text_append "|" (normalize_address address))))))

-- A map of maps, read where the outer key may be missing: a nil map has no keys.
abbrev pub at_chain {ℓ} : {V : Type ℓ} → ℕ → Dict ℕ (Dict String V) → Dict String V
at_chain chain_id m = elim (lookup ⦃e = nat_eq⦄ chain_id m) [ none ↦ [] | some inner ↦ inner ]

unfoldable pub add_tracked : ℕ → String → MemoryRegistry → MemoryRegistry
unfolding lookup insert to_lower
add_tracked chain_id address r = record r {
  tracked_by_chain =
      insert ⦃e = nat_eq⦄ chain_id
        (insert ⦃e = string_eq⦄ (normalize_address address) tt
          (at_chain chain_id r.tracked_by_chain))
        r.tracked_by_chain;
}

unfoldable pub add_protocol_address : AddressRecord → MemoryRegistry → MemoryRegistry
unfolding add_tracked address_key
add_protocol_address item r = add_tracked item.chain_id item.address (record r {
  addresses_by_key =
      insert ⦃e = string_eq⦄
        (address_key item.chain_id item.protocol item.address_role item.address) tt
        r.addresses_by_key;
})

unfoldable pub add_uniswap_v2_pair : UniswapV2Pair → MemoryRegistry → MemoryRegistry
unfolding add_tracked
add_uniswap_v2_pair pair r = add_tracked pair.chain_id pair.factory_address (
    add_tracked pair.chain_id pair.pair_address (record r {
      pairs_by_chain =
          insert ⦃e = nat_eq⦄ pair.chain_id
            (insert ⦃e = string_eq⦄ (normalize_address pair.pair_address) pair
              (at_chain pair.chain_id r.pairs_by_chain))
            r.pairs_by_chain;
    }))

abbrev pub found {ℓ} : {V : Type ℓ} → Option V → Bool
found none = false
found (some _) = true

unfoldable pub has_address : MemoryRegistry → ℕ → Protocol → String → String → Bool
unfolding lookup address_key
has_address r chain_id protocol role address =
    found (lookup ⦃e = string_eq⦄ (address_key chain_id protocol role address) r.addresses_by_key)

module _ (r : MemoryRegistry) (chain_id : ℕ) where
  unfoldable pub is_official_aave_pool : String → Bool
  unfolding has_address
  is_official_aave_pool address = has_address r chain_id aave_v3 "pool" address

  unfoldable pub is_official_balancer_vault : String → Bool
  unfolding has_address
  is_official_balancer_vault address = has_address r chain_id balancer_v2 "vault" address

  unfoldable pub is_official_uniswap_v2_factory : String → Bool
  unfolding has_address
  is_official_uniswap_v2_factory address = has_address r chain_id uniswap_v2 "factory" address

  -- An empty map has no key either, so that the early return changes nothing.
  unfoldable pub get_uniswap_v2_pair : String → Option UniswapV2Pair
  unfolding lookup to_lower
  get_uniswap_v2_pair pair =
      lookup ⦃e = string_eq⦄ (normalize_address pair) (at_chain chain_id r.pairs_by_chain)

  unfoldable pub is_official_uniswap_v2_pair : String → Bool
  unfolding lookup to_lower
  is_official_uniswap_v2_pair address = elim (at_chain chain_id r.pairs_by_chain) [
    | [] ↦ false
    | pair ∷ pairs ↦ found (lookup ⦃e = string_eq⦄ (normalize_address address) (pair ∷ pairs))
  ]

  -- The keys, in some order.
  unfoldable pub list_tracked_addresses : List String
  unfolding lookup
  list_tracked_addresses = map (λ entry. entry.0) (at_chain chain_id r.tracked_by_chain)

-- dbscanner.ProtocolAddressView and dbscanner.UniswapV2PairView.
pub record RegistryViews : Type 0 where
  pub list_official_protocol_addresses : ℕ → Outcome (List ProtocolAddress)
  pub list_uniswap_v2_pairs : ℕ → Outcome (List UniswapV2PairRow)

module _ (conv : Conversions) where
  abbrev pub address_record : ProtocolAddress → AddressRecord
  address_record item = record {
    chain_id = item.chain_id;
    protocol = item.protocol;
    address_role = item.address_role;
    address = conv.address_hex item.contract_address;
  }

  abbrev pub pair_of_row : UniswapV2PairRow → UniswapV2Pair
  pair_of_row item = record {
    chain_id = item.chain_id;
    factory_address = conv.address_hex item.factory_address;
    pair_address = conv.address_hex item.pair_address;
    token0 = conv.address_hex item.token0;
    token1 = conv.address_hex item.token1;
    created_block = decimal item.created_block;
  }

  unfoldable pub add_addresses : List ProtocolAddress → MemoryRegistry → MemoryRegistry
  unfolding add_protocol_address
  add_addresses [] r = r
  add_addresses (item ∷ items) r =
      add_addresses items (add_protocol_address (address_record item) r)

  unfoldable pub add_pairs : List UniswapV2PairRow → MemoryRegistry → MemoryRegistry
  unfolding add_uniswap_v2_pair
  add_pairs [] r = r
  add_pairs (item ∷ items) r =
      add_pairs items (if not item.is_official then r else add_uniswap_v2_pair (pair_of_row item) r)

  unfoldable pub new_memory_registry_from_db : RegistryViews → ℕ → Outcome MemoryRegistry
  unfolding add_addresses add_pairs
  new_memory_registry_from_db views chain_id = do
    addresses ← views.list_official_protocol_addresses chain_id
    pairs ← views.list_uniswap_v2_pairs chain_id
    ok (add_pairs pairs (add_addresses addresses new_memory_registry))
