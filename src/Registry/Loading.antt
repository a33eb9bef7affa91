-- ===== src/Registry/Loading.antt =====
-- What a registry answers that was loaded from the database.
use flashloan_scanner.Base.{
  ℕ, String, ◌≡◌, refl, ◌∙◌, ap, Bool, false, not, ◌&&◌, ◌||◌, Option, none, some, List, [], ◌∷◌,
  arith, any, str_eq, ◌==◌, ==_iff, if◌then◌else◌, Bool-cases, inl, inr, ok,
}
use flashloan_scanner.Base.Dict.{lookup, insert, nat_eq, string_eq, lookup-insert}
use flashloan_scanner.Types.{Protocol, UniswapV2Pair}
use flashloan_scanner.Rows.{Conversions, ProtocolAddress, UniswapV2PairRow}
use flashloan_scanner.Registry.{
  MemoryRegistry, AddressRecord, new_memory_registry, address_key, at_chain, add_tracked,
  add_protocol_address, add_uniswap_v2_pair, has_address, get_uniswap_v2_pair,
  is_official_uniswap_v2_pair, found, RegistryViews, address_record, pair_of_row, add_addresses,
  add_pairs, new_memory_registry_from_db, normalize_address,
}

has_address-add :
    (item : AddressRecord) (r : MemoryRegistry) (chain_id : ℕ) (protocol : Protocol)
    (role address : String)
    → has_address (add_protocol_address item r) chain_id protocol role address ≡ (
        str_eq
          (address_key item.chain_id item.protocol item.address_role item.address)
          (address_key chain_id protocol role address)
        || has_address r chain_id protocol role address)
unfolding has_address add_protocol_address add_tracked
has_address-add item r chain_id protocol role address = ground (
  arith,
  lookup-insert ⦃e = string_eq⦄
      (address_key item.chain_id item.protocol item.address_role item.address)
      (address_key chain_id protocol role address) tt r.addresses_by_key,
)

get_pair-add :
    (pair : UniswapV2Pair) (r : MemoryRegistry) (chain_id : ℕ) (address : String)
    → get_uniswap_v2_pair (add_uniswap_v2_pair pair r) chain_id address ≡ (
        if pair.chain_id == chain_id
          && str_eq (normalize_address pair.pair_address) (normalize_address address)
        then some pair
        else get_uniswap_v2_pair r chain_id address)
unfolding get_uniswap_v2_pair add_uniswap_v2_pair add_tracked
get_pair-add pair r chain_id address = ground (
  arith,
  lookup-insert ⦃e = nat_eq⦄ pair.chain_id chain_id
      (insert ⦃e = string_eq⦄ (normalize_address pair.pair_address) pair
        (at_chain pair.chain_id r.pairs_by_chain))
      r.pairs_by_chain,
  lookup-insert ⦃e = string_eq⦄ (normalize_address pair.pair_address) (normalize_address address)
      pair (at_chain pair.chain_id r.pairs_by_chain),
  ==_iff pair.chain_id chain_id,
)

module _ (conv : Conversions) (chain_id : ℕ) where
  -- A listed row is the contract asked for.
  abbrev pub is_listed : Protocol → String → String → ProtocolAddress → Bool
  is_listed protocol role address item =
      str_eq
        (address_key item.chain_id item.protocol item.address_role
          (conv.address_hex item.contract_address))
        (address_key chain_id protocol role address)

  -- A row is an official pair of the chain with the address, up to case.
  abbrev pub is_pair : String → UniswapV2PairRow → Bool
  is_pair address item =
      item.is_official
      && (item.chain_id == chain_id
          && str_eq (normalize_address (conv.address_hex item.pair_address))
              (normalize_address address))

  -- The last official pair with the address, up to case.
  abbrev pub last_pair : String → List UniswapV2PairRow → Option UniswapV2Pair
  last_pair address [] = none
  last_pair address (item ∷ items) = elim (last_pair address items) [
    | some later ↦ some later
    | none ↦ if is_pair address item then some (pair_of_row conv item) else none
  ]

  has_address-addresses :
      (items : List ProtocolAddress) (r : MemoryRegistry) (protocol : Protocol)
      (role address : String)
      → has_address (add_addresses conv items r) chain_id protocol role address ≡ (
          any (is_listed protocol role address) items
          || has_address r chain_id protocol role address)
  unfolding add_addresses
  has_address-addresses [] r protocol role address = refl
  has_address-addresses (item ∷ items) r protocol role address = ground (
    arith,
    has_address-addresses items (add_protocol_address (address_record conv item) r) protocol role
        address,
    has_address-add (address_record conv item) r chain_id protocol role address,
  )

  has_address-pairs :
      (items : List UniswapV2PairRow) (r : MemoryRegistry) (protocol : Protocol)
      (role address : String)
      → has_address (add_pairs conv items r) chain_id protocol role address
        ≡ has_address r chain_id protocol role address
  unfolding add_pairs has_address add_uniswap_v2_pair add_tracked
  has_address-pairs [] r protocol role address = refl
  has_address-pairs (item ∷ items) r protocol role address =
      has_address-pairs items
        (if not item.is_official then r else add_uniswap_v2_pair (pair_of_row conv item) r) protocol
        role address
      ∙ (elim (Bool-cases item.is_official) [ inl y ↦ rw y refl | inr n ↦ rw n refl ])

  get_pair-addresses :
      (items : List ProtocolAddress) (r : MemoryRegistry) (address : String)
      → get_uniswap_v2_pair (add_addresses conv items r) chain_id address
        ≡ get_uniswap_v2_pair r chain_id address
  unfolding add_addresses get_uniswap_v2_pair add_protocol_address add_tracked
  get_pair-addresses [] r address = refl
  get_pair-addresses (item ∷ items) r address =
      get_pair-addresses items (add_protocol_address (address_record conv item) r) address

  get_pair-pairs :
      (items : List UniswapV2PairRow) (r : MemoryRegistry) (address : String)
      → get_uniswap_v2_pair (add_pairs conv items r) chain_id address
        ≡ elim (last_pair address items) [
          | some pair ↦ some pair
          | none ↦ get_uniswap_v2_pair r chain_id address
        ]
  unfolding add_pairs
  get_pair-pairs [] r address = refl
  get_pair-pairs (item ∷ items) r address = ground (
    arith,
    get_pair-pairs items
        (if not item.is_official then r else add_uniswap_v2_pair (pair_of_row conv item) r) address,
    get_pair-add (pair_of_row conv item) r chain_id address,
  )

  pair_official :
      (r : MemoryRegistry) (address : String)
      → is_official_uniswap_v2_pair r chain_id address
        ≡ found (get_uniswap_v2_pair r chain_id address)
  unfolding is_official_uniswap_v2_pair get_uniswap_v2_pair lookup
  pair_official r address = ground arith

has_address-empty :
    (chain_id : ℕ) (protocol : Protocol) (role address : String)
    → has_address new_memory_registry chain_id protocol role address ≡ false
unfolding has_address lookup
has_address-empty chain_id protocol role address = refl

get_pair-empty :
    (chain_id : ℕ) (address : String)
    → get_uniswap_v2_pair new_memory_registry chain_id address ≡ none
unfolding get_uniswap_v2_pair lookup
get_pair-empty chain_id address = refl

module _ (conv : Conversions) (chain_id : ℕ) (addresses : List ProtocolAddress)
    (pairs : List UniswapV2PairRow) where
  abbrev start : MemoryRegistry
  start = add_addresses conv addresses new_memory_registry

  abbrev loaded : MemoryRegistry
  loaded = add_pairs conv pairs start

  loaded_address :
      (protocol : Protocol) (role address : String)
      → has_address loaded chain_id protocol role address
        ≡ any (is_listed conv chain_id protocol role address) addresses
  loaded_address protocol role address = ground (
    arith,
    has_address-pairs conv chain_id pairs start protocol role address,
    has_address-addresses conv chain_id addresses new_memory_registry protocol role address,
    has_address-empty chain_id protocol role address,
  )

  loaded_pair :
      (address : String)
      → get_uniswap_v2_pair loaded chain_id address ≡ last_pair conv chain_id address pairs
  loaded_pair address = ground (
    arith,
    get_pair-pairs conv chain_id pairs start address,
    get_pair-addresses conv chain_id addresses new_memory_registry address,
    get_pair-empty chain_id address,
  )

-- If the two views list rows, the registry that is loaded from them takes a contract for official in
-- a role of a protocol just when a listed address has its key, finds for an address the last listed
-- official pair of the chain with that address up to case, and takes an address for an official pair
-- just when there is one.
pub new_memory_registry_from_db-lookups :
    (conv : Conversions) (views : RegistryViews) (chain_id : ℕ) (addresses : List ProtocolAddress)
    (pairs : List UniswapV2PairRow)
    → views.list_official_protocol_addresses chain_id ≡ ok addresses
    → views.list_uniswap_v2_pairs chain_id ≡ ok pairs
    → (r : MemoryRegistry) × (new_memory_registry_from_db conv views chain_id ≡ ok r)
      × ((protocol : Protocol) (role address : String)
          → has_address r chain_id protocol role address
            ≡ any (is_listed conv chain_id protocol role address) addresses)
      × ((address : String)
          → get_uniswap_v2_pair r chain_id address ≡ last_pair conv chain_id address pairs)
      × ((address : String)
          → is_official_uniswap_v2_pair r chain_id address
            ≡ found (last_pair conv chain_id address pairs))
unfolding new_memory_registry_from_db
new_memory_registry_from_db-lookups conv views chain_id addresses pairs listed listed' = (
  loaded conv chain_id addresses pairs,
  rw (listed, listed') refl,
  loaded_address conv chain_id addresses pairs,
  loaded_pair conv chain_id addresses pairs,
  λ address.
      pair_official conv chain_id (loaded conv chain_id addresses pairs) address
      ∙ ap found (loaded_pair conv chain_id addresses pairs address),
)
