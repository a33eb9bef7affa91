-- ===== src/Types.antt =====
-- scanner/types.go: the values that the scanner's stages hand to one another. A pointer that may be
-- nil is an `Option`.
use flashloan_scanner.Base.{ℕ, String, Bool, Option, List}

-- type Protocol string
abbrev pub Protocol : Type 0
Protocol = String

abbrev pub aave_v3 : Protocol
aave_v3 = "aave_v3"

abbrev pub balancer_v2 : Protocol
balancer_v2 = "balancer_v2"

abbrev pub uniswap_v2 : Protocol
uniswap_v2 = "uniswap_v2"

-- type CandidateLevel uint8
abbrev pub weak_level : ℕ
weak_level = 1

abbrev pub normal_level : ℕ
normal_level = 2

abbrev pub strict_level : ℕ
strict_level = 3

pub record ObservedTransaction : Type 0 where
  pub chain_id : ℕ
  pub tx_hash : String
  pub block_number : String
  pub tx_index : ℕ
  pub from_address : String
  pub to_address : String
  pub status : ℕ
  pub value : String
  pub input_data : String
  pub method_selector : String
  pub gas_used : String
  pub effective_gas_price : String

pub record CandidateInteraction : Type 0 where
  pub interaction_id : String
  pub interaction_ordinal : ℕ
  pub chain_id : ℕ
  pub tx_hash : String
  pub block_number : String
  pub protocol : Protocol
  pub entrypoint : String
  pub provider_address : String
  pub factory_address : String
  pub pair_address : String
  pub receiver_address : String
  pub callback_target : String
  pub initiator : String
  pub on_behalf_of : String
  pub candidate_level : ℕ
  pub raw_method_selector : String
  pub data_non_empty : Option Bool

pub record VerifiedInteraction : Type 0 where
  pub interaction_id : String
  pub verified : Bool
  pub strict : Bool
  pub callback_seen : Bool
  pub settlement_seen : Bool
  pub repayment_seen : Bool
  pub contains_debt_opening : Bool
  pub exclusion_reason : Option String
  pub verification_notes : Option String

pub record InteractionLeg : Type 0 where
  pub interaction_id : String
  pub leg_index : ℕ
  pub asset_address : String
  pub asset_role : String
  pub token_side : Option String
  pub amount_out : Option String
  pub amount_in : Option String
  pub amount_borrowed : Option String
  pub amount_repaid : Option String
  pub premium_amount : Option String
  pub fee_amount : Option String
  pub interest_rate_mode : Option ℕ
  pub repaid_to_address : Option String
  pub opened_debt : Bool
  pub strict_leg : Bool
  pub event_seen : Bool
  pub settlement_mode : Option String

pub record TxSummary : Type 0 where
  pub chain_id : ℕ
  pub tx_hash : String
  pub block_number : String
  pub contains_candidate_interaction : Bool
  pub contains_verified_interaction : Bool
  pub contains_verified_strict_interaction : Bool
  pub interaction_count : ℕ
  pub strict_interaction_count : ℕ
  pub protocol_count : ℕ
  pub protocols : List Protocol

pub record UniswapV2Pair : Type 0 where
  pub chain_id : ℕ
  pub factory_address : String
  pub pair_address : String
  pub token0 : String
  pub token1 : String
  pub created_block : String
