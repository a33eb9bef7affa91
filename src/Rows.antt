-- ===== src/Rows.antt =====
-- database/scanner and database/event: the rows that the scanner reads and writes. go-ethereum's
-- `common.Address` and `common.Hash` and google's `uuid.UUID` are arrays of bytes, read here as the
-- number that the bytes spell; `==` on the arrays is `==` on the numbers. Columns that only the
-- database layer reads (row ids, timestamps) are left out.
use flashloan_scanner.Base.{ℕ, String, Bool, Option, List}

abbrev pub Address : Type 0
Address = ℕ

abbrev pub Hash : Type 0
Hash = ℕ

abbrev pub Uuid : Type 0
Uuid = ℕ

-- The text and word conversions of go-ethereum and google/uuid that the scanner calls.
pub record Conversions : Type 0 where
  pub address_hex : Address → String
  pub hex_to_address : String → Address
  pub hash_hex : Hash → String
  pub hex_to_hash : String → Hash
  -- common.BytesToAddress of a topic's bytes
  pub topic_address : Hash → Address
  pub uuid_string : Uuid → String

pub record ObservedTransactionRow : Type 0 where
  pub chain_id : ℕ
  pub tx_hash : Hash
  pub block_number : ℕ
  pub tx_index : ℕ
  pub from_address : Address
  pub to_address : Option Address
  pub status : ℕ
  pub value : Option ℕ
  pub input_data : String
  pub method_selector : String
  pub gas_used : Option ℕ
  pub effective_gas_price : Option ℕ

pub record InteractionAssetLeg : Type 0 where
  pub interaction_id : Uuid
  pub leg_index : ℕ
  pub asset_address : Address
  pub asset_role : String
  pub token_side : Option String
  pub amount_out : Option ℕ
  pub amount_in : Option ℕ
  pub amount_borrowed : Option ℕ
  pub amount_repaid : Option ℕ
  pub premium_amount : Option ℕ
  pub fee_amount : Option ℕ
  pub interest_rate_mode : Option ℕ
  pub repaid_to_address : Option Address
  pub opened_debt : Bool
  pub strict_leg : Bool
  pub event_seen : Bool
  pub settlement_mode : Option String

pub record ProtocolInteraction : Type 0 where
  pub interaction_id : Uuid
  pub tx_hash : Hash
  pub block_number : ℕ
  pub interaction_ordinal : ℕ
  pub protocol : String
  pub entrypoint : String
  pub provider_address : Address
  pub factory_address : Option Address
  pub pair_address : Option Address
  pub receiver_address : Option Address
  pub callback_target : Option Address
  pub initiator : Option Address
  pub on_behalf_of : Option Address
  pub candidate_level : ℕ
  pub verified : Bool
  pub strict : Bool
  pub callback_seen : Bool
  pub settlement_seen : Bool
  pub repayment_seen : Bool
  pub contains_debt_opening : Bool
  pub exclusion_reason : String
  pub verification_notes : String
  pub raw_method_selector : String

pub record FlashloanTransaction : Type 0 where
  pub chain_id : ℕ
  pub tx_hash : Hash
  pub block_number : ℕ
  pub timestamp : ℕ
  pub contains_candidate_interaction : Bool
  pub contains_verified_interaction : Bool
  pub contains_verified_strict_interaction : Bool
  pub interaction_count : ℕ
  pub strict_interaction_count : ℕ
  pub protocol_count : ℕ
  pub protocols : String

-- The log of a contract event: `RLPLog.Topics` and `RLPLog.Data`, with the emitting contract.
pub record ContractEvent : Type 0 where
  pub contract_address : Address
  pub topics : List Hash
  pub payload : List ℕ

pub record ProtocolAddress : Type 0 where
  pub chain_id : ℕ
  pub protocol : String
  pub address_role : String
  pub contract_address : Address

pub record UniswapV2PairRow : Type 0 where
  pub chain_id : ℕ
  pub factory_address : Address
  pub pair_address : Address
  pub token0 : Address
  pub token1 : Address
  pub created_block : ℕ
  pub is_official : Bool

pub record ScannerCursor : Type 0 where
  pub scanner_name : String
  pub chain_id : ℕ
  pub cursor_type : String
  pub block_number : Option ℕ
