-- ===== src/Service/Summary.antt =====
-- trace_summary.go: the types.
pub mod Input
pub mod Flatten
pub mod Evidence
pub mod Paths
pub mod Subtrees
pub mod Build
use flashloan_scanner.Base.{ℕ, String, Bool, List}
use flashloan_scanner.Trace.Frames.{CallFrame}

pub record TraceFrameDto : Type 0 where
  pub id : String
  pub parent_id : String
  pub depth : ℕ
  pub call_index : ℕ
  pub kind : String
  pub from : String
  pub to : String
  pub method_selector : String
  pub error : String
  pub revert_reason : String
  pub token_action : String
  pub asset_address : String
  pub token_amount : String
  pub flow_source : String
  pub flow_target : String
  pub tags : List String

pub record TraceSequenceStep : Type 0 where
  pub step : ℕ
  pub frame_id : String
  pub parent_frame_id : String
  pub depth : ℕ
  pub from : String
  pub to : String
  pub method_selector : String
  pub label : String
  pub detail : String
  pub token_action : String
  pub asset_address : String
  pub token_amount : String
  pub error : String

pub record TraceAssetFlow : Type 0 where
  pub frame_id : String
  pub action : String
  pub asset_address : String
  pub source : String
  pub target : String
  pub amount : String

pub record TraceInteractionEvidence : Type 0 where
  pub interaction_id : String
  pub protocol : String
  pub entrypoint : String
  pub verdict : String
  pub callback_seen : Bool
  pub settlement_seen : Bool
  pub repayment_seen : Bool
  pub contains_debt_opening : Bool
  pub callback_frame_ids : List String
  pub callback_subtree_ids : List String
  pub repayment_frame_ids : List String
  pub exclusion_reason : String
  pub verification_notes : String
  pub provider_address : String
  pub receiver_address : String

pub record TransactionTraceSummary : Type 0 where
  pub status : String
  pub error : String
  pub root_frame_id : String
  pub frames : List TraceFrameDto
  pub sequence : List TraceSequenceStep
  pub asset_flows : List TraceAssetFlow
  pub interaction_evidence : List TraceInteractionEvidence

pub record FlatTraceFrame : Type 0 where
  pub frame : CallFrame
  pub id : String
  pub parent_id : String
  pub depth : ℕ
  pub call_index : ℕ
  pub method : String
  pub token_action : String
  pub asset_address : String
  pub token_amount : String
  pub flow_source : String
  pub flow_target : String
  pub tags : List String
