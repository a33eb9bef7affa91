-- ===== src/Service/Flows/Lanes.antt =====
-- buildFundFlowLane: the lane of a leg out of the flows of a trace. `sender` is the FromAddress of
-- the response.
use flashloan_scanner.Base.{
  ℕ, suc, String, Bool, false, not, ◌&&◌, ◌||◌, Option, none, some, List, [], ◌∷◌, any, length,
  str_eq, leb, if◌then◌else◌, text_append, filter_if,
}
use flashloan_scanner.Base.Decimal.{decimal}
use flashloan_scanner.Service.Details.{InteractionDetailResult, InteractionLegDto}
use flashloan_scanner.Service.Flows.{FundFlowLane}
use flashloan_scanner.Service.Flows.Amounts.{
  normalize_amount, sum_raw_amounts, first_non_zero_string, compact_raw_amount,
}
use flashloan_scanner.Service.Flows.Labels.{
  normalize_address, same_address, first_non_empty_string, resolve_asset_display_label,
  is_debt_like_asset, humanize_fund_flow_action,
}
use flashloan_scanner.Service.Flows.Branches.{Flow, extract_key_execution_segments}
use flashloan_scanner.Service.Flows.Nodes.{
  LaneState, push_node, push_segment, segment_of, dedupe_fund_flow_segments, lane_nodes,
  pick_preferred_ordered_flow, pick_key_topup_flows,
}

unfoldable pub fee_amount : InteractionLegDto → String
unfolding sum_raw_amounts
fee_amount leg = sum_raw_amounts (leg.premium_amount ∷ leg.fee_amount ∷ [])

unfoldable pub expected_repayment : InteractionLegDto → String
unfolding sum_raw_amounts normalize_amount
expected_repayment leg =
    let repaid = normalize_amount leg.amount_repaid in
    let base = if not (str_eq repaid "0") then repaid else normalize_amount leg.amount_borrowed in
    sum_raw_amounts (base ∷ leg.premium_amount ∷ leg.fee_amount ∷ [])

-- stringOrEmpty
abbrev pub string_or_empty : Option Flow → (Flow → String) → String
string_or_empty none mapper = ""
string_or_empty (some flow) mapper = mapper flow

abbrev has_amount : String → Flow → Bool
has_amount amount flow = str_eq (normalize_amount flow.amount) amount

-- `%s-%d-…-%d`
unfoldable pub segment_id : InteractionDetailResult → InteractionLegDto → String → ℕ → String
unfolding decimal
segment_id interaction leg kind index = text_append interaction.interaction_id (
    text_append "-" (
      text_append (decimal leg.leg_index)
        (text_append "-" (text_append kind (text_append "-" (decimal index))))))

module _ (sender : String) (interaction : InteractionDetailResult) (leg : InteractionLegDto)
    (interaction_index : ℕ) (receiver : String) (flows : List Flow) where
  unfoldable pub borrow_flow : Option Flow
  unfolding same_address normalize_address normalize_amount pick_preferred_ordered_flow
  borrow_flow =
      let amount = normalize_amount leg.amount_borrowed in
      let candidates : List Flow =
        filter_if
          (λ f.
            same_address f.target receiver
            && same_address f.asset_address (normalize_address leg.asset_address))
          flows in
      pick_preferred_ordered_flow (
        filter_if (λ f. same_address f.source interaction.provider_address && has_amount amount f)
          candidates
        ∷ filter_if (λ f. not (same_address f.source sender) && has_amount amount f) candidates
        ∷ filter_if (has_amount amount) candidates
        ∷ filter_if (λ f. not (same_address f.source sender)) candidates
        ∷ candidates
        ∷ [])

  unfoldable pub borrow_source : String
  unfolding borrow_flow first_non_empty_string
  borrow_source = first_non_empty_string (
      string_or_empty borrow_flow (λ f. f.source)
      ∷ interaction.provider_address
      ∷ interaction.factory_address
      ∷ interaction.pair_address
      ∷ [])

  unfoldable pub repay_flow : Option Flow
  unfolding same_address normalize_address normalize_amount pick_preferred_ordered_flow
      expected_repayment
  repay_flow =
      let amount = expected_repayment leg in
      let candidates : List Flow =
        filter_if
          (λ f.
            same_address f.source receiver
            && same_address f.asset_address (normalize_address leg.asset_address))
          flows in
      pick_preferred_ordered_flow (
        filter_if (λ f. same_address f.target leg.repaid_to_address && has_amount amount f)
          candidates
        ∷ filter_if (λ f. same_address f.target interaction.provider_address && has_amount amount f)
            candidates
        ∷ filter_if (has_amount amount) candidates
        ∷ filter_if (λ f. same_address f.target interaction.provider_address) candidates
        ∷ candidates
        ∷ [])

  unfoldable pub repayment_target : String
  unfolding repay_flow first_non_empty_string
  repayment_target = first_non_empty_string (
      string_or_empty repay_flow (λ f. f.target)
      ∷ leg.repaid_to_address
      ∷ interaction.provider_address
      ∷ interaction.pair_address
      ∷ interaction.factory_address
      ∷ [])

  -- The order of the borrowing flow, or none for -1.
  abbrev start_order : Option Flow → Option ℕ
  start_order none = none
  start_order (some flow) = some flow.order

  unfoldable pub swap_segments : List Flow
  unfolding extract_key_execution_segments borrow_flow borrow_source repayment_target
  swap_segments =
      extract_key_execution_segments receiver borrow_source repayment_target flows
        (start_order borrow_flow)

  abbrev is_before : Option ℕ → Flow → Bool
  is_before none flow = false
  is_before (some start) flow = leb flow.order start

  -- The test of the top-up candidates.
  unfoldable pub is_topup : Flow → Bool
  unfolding same_address normalize_address normalize_amount is_debt_like_asset expected_repayment
      borrow_flow borrow_source repayment_target swap_segments
  is_topup flow =
      not (is_before (start_order borrow_flow) flow)
      && not (not (same_address flow.target receiver) || same_address flow.source receiver)
      && not (any (λ s. str_eq s.frame_id flow.frame_id) swap_segments)
      && not (is_debt_like_asset flow.asset_address)
      && (same_address flow.source sender
          || has_amount (expected_repayment leg) flow
          || same_address flow.asset_address (normalize_address leg.asset_address)
          || same_address flow.source borrow_source
          || same_address flow.source repayment_target)

  -- The two nodes of a segment and the segment, as pushSegment is called with pushNode.
  unfoldable pub push :
      String
      → String
      → String
      → String
      → String
      → String
      → String
      → String
      → String
      → LaneState
      → LaneState
  unfolding push_node push_segment segment_of
  push id from from_role to to_role action asset_address amount tone lane =
      let (from_id, nodes) = push_node interaction sender from from_role lane.nodes in
      let (to_id, nodes') = push_node interaction sender to to_role nodes in
      push_segment (segment_of id from_id to_id action asset_address amount tone)
        (record lane { nodes = nodes' })

  abbrev hop_role : String → String
  hop_role address = if same_address address receiver then "receiver" else "hop"

  unfoldable pub push_swaps : ℕ → List Flow → LaneState → LaneState
  unfolding push segment_id same_address humanize_fund_flow_action normalize_amount decimal
  push_swaps index [] lane = lane
  push_swaps index (flow ∷ rest) lane = push_swaps (suc index) rest (
      push
        (text_append (segment_id interaction leg "swap" interaction_index)
          (text_append "-" (decimal index)))
        flow.source (hop_role flow.source) flow.target (hop_role flow.target)
        (humanize_fund_flow_action flow.action) flow.asset_address (normalize_amount flow.amount)
        "swap" lane)

  unfoldable pub push_topups : ℕ → List Flow → LaneState → LaneState
  unfolding push segment_id normalize_amount decimal
  push_topups index [] lane = lane
  push_topups index (flow ∷ rest) lane = push_topups (suc index) rest (
      push
        (text_append (segment_id interaction leg "topup" interaction_index)
          (text_append "-" (decimal index)))
        flow.source "topup_source" receiver "receiver" "Top-up" flow.asset_address
        (normalize_amount flow.amount) "repay" lane)

  unfoldable pub push_borrow : LaneState → LaneState
  unfolding push segment_id normalize_amount borrow_source
  push_borrow lane =
      let amount = normalize_amount leg.amount_borrowed in
      if not (str_eq borrow_source "") && not (str_eq amount "0")
      then push (segment_id interaction leg "borrow" interaction_index) borrow_source
          "borrow_source" receiver "receiver" "Borrow" leg.asset_address amount "borrow" lane
      else lane

  unfoldable pub push_repay : LaneState → LaneState
  unfolding push segment_id expected_repayment fee_amount repayment_target first_non_zero_string
  push_repay lane =
      let expected = expected_repayment leg in
      let fee = fee_amount leg in
      if not (str_eq repayment_target "") && (not (str_eq expected "0") || not (str_eq fee "0"))
      then push (segment_id interaction leg "repay" interaction_index) receiver "receiver"
          repayment_target "repayment_target" "Repay" leg.asset_address
          (first_non_zero_string (expected ∷ fee ∷ [])) "repay" lane
      else lane

  unfoldable pub fund_flow_lane : LaneState → FundFlowLane
  unfolding dedupe_fund_flow_segments lane_nodes resolve_asset_display_label compact_raw_amount
      normalize_amount expected_repayment fee_amount first_non_zero_string decimal swap_segments
  fund_flow_lane lane =
      let repaid = first_non_zero_string (expected_repayment leg ∷ fee_amount leg ∷ []) in
      record {
        id = text_append interaction.interaction_id (text_append "-" (decimal leg.leg_index));
        label = resolve_asset_display_label leg.asset_address;
        asset_address = leg.asset_address;
        sublabel = text_append "Borrow " (
            text_append (compact_raw_amount (normalize_amount leg.amount_borrowed)) (
              text_append " · " (
                text_append (decimal (length swap_segments))
                  (text_append " key execution branch(es) · Repay " (compact_raw_amount repaid)))));
        nodes = lane_nodes lane.nodes;
        segments = dedupe_fund_flow_segments lane.segments;
      }

  unfoldable pub build_fund_flow_lane : Option FundFlowLane
  unfolding push_borrow push_swaps push_topups push_repay swap_segments is_topup expected_repayment
      pick_key_topup_flows fund_flow_lane dedupe_fund_flow_segments
  build_fund_flow_lane =
      let topups =
        pick_key_topup_flows (filter_if is_topup flows) sender (expected_repayment leg) in
      let lane = push_repay (
        push_topups 0 topups
          (push_swaps 0 swap_segments (push_borrow (record { nodes = []; segments = [] })))) in
      elim (dedupe_fund_flow_segments lane.segments) [
        | [] ↦ none
        | s ∷ rest ↦ some (fund_flow_lane lane)
      ]
