-- ===== src/Service/Flows/Graph.antt =====
-- buildFallbackFundFlowLane and buildFundFlowGraph.
use flashloan_scanner.Base.{
  ℕ, suc, String, Bool, true, false, not, ◌&&◌, ◌||◌, Option, none, some, List, [], ◌∷◌, ◌++◌, any,
  str_eq, if◌then◌else◌, text_append, filter_if,
}
use flashloan_scanner.Base.Dict.{Dict, lookup, string_eq}
use flashloan_scanner.Base.Decimal.{decimal}
use flashloan_scanner.Service.Details.{InteractionDetailResult, InteractionLegDto}
use flashloan_scanner.Service.Summary.{TraceInteractionEvidence, TransactionTraceSummary}
use flashloan_scanner.Service.Response.{TransactionDetailResponse}
use flashloan_scanner.Service.Flows.{FundFlowLane, FundFlowGraph}
use flashloan_scanner.Service.Flows.Amounts.{
  normalize_amount, sum_raw_amounts, first_non_zero_string, compact_raw_amount,
}
use flashloan_scanner.Service.Flows.Labels.{
  first_non_empty_string, resolve_asset_display_label, is_meaningful_fund_flow, is_zero_address,
}
use flashloan_scanner.Service.Flows.Order.{sort_fund_flows_by_trace, map_interaction_evidence}
use flashloan_scanner.Service.Flows.Branches.{Flow}
use flashloan_scanner.Service.Flows.Nodes.{
  LaneState, push_fallback_node, segment_of, dedupe_fund_flow_segments, lane_nodes,
}
use flashloan_scanner.Service.Flows.Lanes.{segment_id, build_fund_flow_lane}

unfoldable pub filter_flows_by_interaction_evidence :
    List Flow → Option TraceInteractionEvidence → List Flow
filter_flows_by_interaction_evidence flows none = flows
filter_flows_by_interaction_evidence flows (some evidence) =
    let allowed =
      evidence.callback_frame_ids
      ++ (evidence.callback_subtree_ids ++ evidence.repayment_frame_ids) in
    elim allowed [
      | [] ↦ flows
      | first ∷ rest ↦
          elim (filter_if (λ (f : Flow). any (str_eq f.frame_id) (first ∷ rest)) flows) [
            | [] ↦ flows
            | f ∷ kept ↦ f ∷ kept
          ]
    ]

module _ (sender : String) (interaction : InteractionDetailResult) (leg : InteractionLegDto)
    (interaction_index : ℕ) (receiver : String) where
  -- A segment with its two nodes.
  unfoldable pub fallback_push :
      String → String → String → String → String → String → String → String → LaneState → LaneState
  unfolding push_fallback_node segment_of
  fallback_push id from from_role to to_role action amount tone lane =
      let (from_id, nodes) = push_fallback_node interaction sender from from_role lane.nodes in
      let (to_id, nodes') = push_fallback_node interaction sender to to_role nodes in
      record {
        nodes = nodes';
        segments =
            lane.segments ++ segment_of id from_id to_id action leg.asset_address amount tone ∷ [];
      }

  unfoldable pub fallback_repayment : String
  unfolding sum_raw_amounts first_non_zero_string
  fallback_repayment = sum_raw_amounts (
      first_non_zero_string (leg.amount_repaid ∷ leg.amount_borrowed ∷ [])
      ∷ leg.premium_amount
      ∷ leg.fee_amount
      ∷ [])

  unfoldable pub fallback_borrow : LaneState → LaneState
  unfolding fallback_push segment_id normalize_amount first_non_empty_string
  fallback_borrow lane =
      let provider = first_non_empty_string (
        interaction.provider_address ∷ interaction.pair_address ∷ interaction.factory_address
        ∷ []) in
      let amount = normalize_amount leg.amount_borrowed in
      if not (str_eq provider "") && not (str_eq amount "0")
      then fallback_push (segment_id interaction leg "fallback-borrow" interaction_index) provider
          "borrow_source" receiver "receiver" "Borrow" amount "borrow" lane
      else lane

  unfoldable pub fallback_repay : LaneState → LaneState
  unfolding fallback_push segment_id fallback_repayment first_non_empty_string
  fallback_repay lane =
      let target = first_non_empty_string (
        leg.repaid_to_address ∷ interaction.provider_address ∷ interaction.pair_address
        ∷ interaction.factory_address ∷ []) in
      if not (str_eq target "") && not (str_eq fallback_repayment "0")
      then fallback_push (segment_id interaction leg "fallback-repay" interaction_index) receiver
          "receiver" target "repayment_target" "Repay" fallback_repayment "repay" lane
      else lane

  unfoldable pub build_fallback_fund_flow_lane : Option FundFlowLane
  unfolding fallback_borrow fallback_repay fallback_repayment dedupe_fund_flow_segments lane_nodes
      resolve_asset_display_label compact_raw_amount normalize_amount decimal
  build_fallback_fund_flow_lane =
      let lane = fallback_repay (fallback_borrow (record { nodes = []; segments = [] })) in
      elim lane.segments [
        | [] ↦ none
        | s ∷ rest ↦ some (record {
          id = text_append interaction.interaction_id (text_append "-" (decimal leg.leg_index));
          label = resolve_asset_display_label leg.asset_address;
          asset_address = leg.asset_address;
          sublabel = text_append "Borrow " (
              text_append (compact_raw_amount (normalize_amount leg.amount_borrowed))
                (text_append " · fallback repay " (compact_raw_amount fallback_repayment)));
          nodes = lane_nodes lane.nodes;
          segments = dedupe_fund_flow_segments lane.segments;
        })
      ]

-- The loop over the flows.
unfoldable pub meaningful_flows : List Flow → List Flow
unfolding is_meaningful_fund_flow is_zero_address
meaningful_flows flows =
    filter_if
      (λ f.
        is_meaningful_fund_flow f.action f.amount
        && not (is_zero_address f.source || is_zero_address f.target))
      flows

module _ (sender : String) (trace_available : Bool) (interaction : InteractionDetailResult)
    (interaction_index : ℕ) (receiver : String) (flows : List Flow) where
  -- The lane of a leg.
  unfoldable pub lane_of : InteractionLegDto → Option FundFlowLane
  unfolding build_fund_flow_lane build_fallback_fund_flow_lane
  lane_of leg =
      let fallback =
        build_fallback_fund_flow_lane sender interaction leg interaction_index receiver in
      elim trace_available [
        | false ↦ fallback
        | true ↦
            elim (build_fund_flow_lane sender interaction leg interaction_index receiver flows) [
              | none ↦ fallback
              | some lane ↦ some lane
            ]
      ]

  -- The loop over the legs.
  unfoldable pub lanes_of : List InteractionLegDto → List FundFlowLane
  unfolding lane_of
  lanes_of [] = []
  lanes_of (leg ∷ legs) = elim (lane_of leg) [
    | none ↦ lanes_of legs
    | some lane ↦ lane ∷ lanes_of legs
  ]

-- The loop over the interactions.
unfoldable pub graph_lanes :
    String
    → Bool
    → List Flow
    → Dict String TraceInteractionEvidence
    → ℕ
    → List InteractionDetailResult
    → List FundFlowLane
unfolding first_non_empty_string filter_flows_by_interaction_evidence lanes_of lookup
graph_lanes sender trace_available flows evidence index [] = []
graph_lanes sender trace_available flows evidence index (interaction ∷ rest) =
    let receiver =
      first_non_empty_string
        (interaction.callback_target ∷ interaction.receiver_address ∷ interaction.initiator ∷ []) in
    let own_flows =
      if trace_available
      then filter_flows_by_interaction_evidence flows
          (lookup ⦃e = string_eq⦄ interaction.interaction_id evidence)
      else flows in
    let later = graph_lanes sender trace_available flows evidence (suc index) rest in
    if str_eq receiver ""
    then later
    else lanes_of sender trace_available interaction index receiver own_flows interaction.legs
      ++ later

abbrev status_of : Option TransactionTraceSummary → String
status_of none = "unavailable"
status_of (some summary) = if str_eq summary.status "" then "unavailable" else summary.status

abbrev is_available : Option TransactionTraceSummary → List Flow → Bool
is_available none flows = false
is_available (some summary) [] = false
is_available (some summary) (f ∷ flows) = str_eq summary.status "available"

abbrev no_path : String
no_path = "No fund-flow path is available for this transaction."

unfoldable pub build_fund_flow_graph : Option TransactionDetailResponse → FundFlowGraph
unfolding sort_fund_flows_by_trace meaningful_flows map_interaction_evidence graph_lanes
build_fund_flow_graph none = record { status = "unavailable"; empty_label = no_path; lanes = [] }
build_fund_flow_graph (some response) =
    let flows = meaningful_flows (sort_fund_flows_by_trace response.trace_summary) in
    let available = is_available response.trace_summary flows in
    let status = status_of response.trace_summary in
    elim (graph_lanes response.from_address available flows
      (map_interaction_evidence response.trace_summary) 0 response.interactions) [
        | [] ↦ record { status = status; empty_label = no_path; lanes = [] }
        | lane ∷ lanes ↦ record {
          status = if available then "available" else status;
          empty_label = "";
          lanes = lane ∷ lanes;
        }
      ]
