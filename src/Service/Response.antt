-- ===== src/Service/Response.antt =====
-- query_service.go: the answer for one transaction.
use flashloan_scanner.Base.{ℕ, String, Bool, Option, List}
use flashloan_scanner.Service.Details.{InteractionDetailResult, TransactionDetailSummary}
use flashloan_scanner.Service.Summary.{TransactionTraceSummary}
use flashloan_scanner.Service.Flows.{FundFlowGraph}

pub record TransactionDetailResponse : Type 0 where
  pub tx_hash : String
  pub chain_id : ℕ
  pub block_number : String
  pub timestamp : ℕ
  pub tx_index : ℕ
  pub from_address : String
  pub to_address : String
  pub status : ℕ
  pub value : String
  pub input_data : String
  pub method_selector : String
  pub gas_used : String
  pub effective_gas_price : String
  pub transaction_fee : String
  pub candidate : Bool
  pub verified : Bool
  pub strict : Bool
  pub interaction_count : ℕ
  pub strict_interaction_count : ℕ
  pub protocol_count : ℕ
  pub protocols : List String
  pub summary : TransactionDetailSummary
  pub trace_summary : Option TransactionTraceSummary
  pub fund_flow_graph : Option FundFlowGraph
  pub interactions : List InteractionDetailResult
