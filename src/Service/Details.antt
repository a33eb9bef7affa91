-- ===== src/Service/Details.antt =====
-- query_service.go: the details of a transaction's interactions that the API answers with.
use flashloan_scanner.Base.{ℕ, String, Bool, List}

pub record InteractionLegDto : Type 0 where
  pub leg_index : ℕ
  pub asset_address : String
  pub asset_role : String
  pub token_side : String
  pub amount_out : String
  pub amount_in : String
  pub amount_borrowed : String
  pub amount_repaid : String
  pub premium_amount : String
  pub fee_amount : String
  pub interest_rate_mode : String
  pub repaid_to_address : String
  pub opened_debt : Bool
  pub strict_leg : Bool
  pub event_seen : Bool
  pub settlement_mode : String

pub record InteractionDetailResult : Type 0 where
  pub interaction_id : String
  pub protocol : String
  pub entrypoint : String
  pub provider_address : String
  pub factory_address : String
  pub pair_address : String
  pub receiver_address : String
  pub callback_target : String
  pub initiator : String
  pub on_behalf_of : String
  pub candidate_level : ℕ
  pub verified : Bool
  pub strict : Bool
  pub callback_seen : Bool
  pub settlement_seen : Bool
  pub repayment_seen : Bool
  pub contains_debt_opening : Bool
  pub exclusion_reason : String
  pub verification_notes : String
  pub raw_method_selector : String
  pub legs : List InteractionLegDto

pub record AddressRoleSummary : Type 0 where
  pub address : String
  pub roles : List String

pub record TimelineStep : Type 0 where
  pub ordinal : ℕ
  pub kind : String
  pub protocol : String
  pub entrypoint : String
  pub asset_address : String
  pub asset_role : String
  pub amount_borrowed : String
  pub amount_repaid : String
  pub strict : Bool
  pub event_seen : Bool
  pub callback_seen : Bool
  pub settlement_seen : Bool
  pub repayment_seen : Bool

pub record DetectionConclusion : Type 0 where
  pub verdict : String
  pub protocols : List String
  pub interaction_count : ℕ
  pub strict_interaction_count : ℕ
  pub callback_seen_count : ℕ
  pub settlement_seen_count : ℕ
  pub repayment_seen_count : ℕ
  pub strict_leg_count : ℕ
  pub debt_opening_count : ℕ
  pub exclusion_reasons : List String

pub record TransactionDetailSummary : Type 0 where
  pub addresses : List AddressRoleSummary
  pub timeline : List TimelineStep
  pub conclusion : DetectionConclusion
