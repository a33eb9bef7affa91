-- ===== src/Service/Flows.antt =====
-- fund_flow_graph.go: the types.
pub mod Amounts
pub mod Labels
pub mod Order
pub mod Branches
pub mod Nodes
pub mod Lanes
pub mod Graph
use flashloan_scanner.Base.{ℕ, String, List}

pub record FundFlowNode : Type 0 where
  pub id : String
  pub roles : List String
  pub title : String
  pub subtitle : String
  pub address : String

pub record FundFlowSegment : Type 0 where
  pub id : String
  pub from : String
  pub to : String
  pub action : String
  pub asset : String
  pub asset_address : String
  pub amount : String
  pub tone : String

pub record FundFlowLane : Type 0 where
  pub id : String
  pub label : String
  pub asset_address : String
  pub sublabel : String
  pub nodes : List FundFlowNode
  pub segments : List FundFlowSegment

pub record FundFlowGraph : Type 0 where
  pub status : String
  pub empty_label : String
  pub lanes : List FundFlowLane

-- A TraceAssetFlow with its order.
pub record OrderedTraceAssetFlow : Type 0 where
  pub frame_id : String
  pub action : String
  pub asset_address : String
  pub source : String
  pub target : String
  pub amount : String
  pub order : ℕ
