-- ===== src/Service/Flows/Nodes.antt =====
-- fund_flow_graph.go: the nodes and segments of a lane under construction, the choice of a flow,
-- and what is left of the segments.
use flashloan_scanner.Base.{
  ℕ, suc, zero, String, Bool, true, false, not, ◌&&◌, ◌||◌, Option, none, some, List, [], ◌∷◌, ◌++◌,
  map, any, str_eq, ltb, ◌==◌, if◌then◌else◌, text_append,
}
use flashloan_scanner.Base.Dict.{Dict, lookup, insert, string_eq}
use flashloan_scanner.Base.Order.{text_ltb}
use flashloan_scanner.Service.Details.{InteractionDetailResult}
use flashloan_scanner.Service.Flows.{FundFlowNode, FundFlowSegment}
use flashloan_scanner.Service.Flows.Amounts.{normalize_amount, compact_raw_amount}
use flashloan_scanner.Service.Flows.Labels.{
  normalize_address, same_address, shorten_hash, resolve_asset_display_label,
  resolve_fund_flow_node_title,
}
use flashloan_scanner.Service.Flows.Order.{slice_stable}
use flashloan_scanner.Service.Flows.Branches.{Flow}

abbrev pub Nodes : Type 0
Nodes = Dict String FundFlowNode

pub record LaneState : Type 0 where
  pub nodes : Nodes
  pub segments : List FundFlowSegment

abbrev pub contains_string : List String → String → Bool
contains_string values candidate = any (λ value. str_eq value candidate) values

unfoldable pub new_node : String → String → String → String → FundFlowNode
unfolding shorten_hash
new_node id address role title = record {
  id = id;
  roles = role ∷ [];
  title = title;
  subtitle = shorten_hash address;
  address = address;
}

-- A node that is there gets another role, and a title if it only had a shortened address.
unfoldable pub add_role : String → String → FundFlowNode → FundFlowNode
unfolding slice_stable text_ltb
add_role role title node = record node {
  roles =
      if contains_string node.roles role
      then node.roles
      else slice_stable text_ltb (node.roles ++ role ∷ []);
  title =
      if str_eq node.title node.subtitle && not (str_eq title node.subtitle)
      then title
      else node.title;
}

module _ (interaction : InteractionDetailResult) (sender : String) where
  -- `pushNode` of buildFundFlowLane.
  unfoldable pub push_node : String → String → Nodes → String × Nodes
  unfolding normalize_address resolve_fund_flow_node_title new_node add_role lookup insert
  push_node address role nodes =
      let id = normalize_address address in
      let title = resolve_fund_flow_node_title address role interaction sender in
      elim (str_eq id "") [
        | true ↦ ("", nodes)
        | false ↦ elim (lookup ⦃e = string_eq⦄ id nodes) [
          | some existing ↦ (id, insert ⦃e = string_eq⦄ id (add_role role title existing) nodes)
          | none ↦ (id, insert ⦃e = string_eq⦄ id (new_node id address role title) nodes)
        ]
      ]

  -- `pushNode` of buildFallbackFundFlowLane, which leaves a node that is there as it is.
  unfoldable pub push_fallback_node : String → String → Nodes → String × Nodes
  unfolding normalize_address resolve_fund_flow_node_title new_node lookup insert
  push_fallback_node address role nodes =
      let id = normalize_address address in
      let title = resolve_fund_flow_node_title address role interaction sender in
      elim (str_eq id "") [
        | true ↦ ("", nodes)
        | false ↦ elim (lookup ⦃e = string_eq⦄ id nodes) [
          | some existing ↦ (id, nodes)
          | none ↦ (id, insert ⦃e = string_eq⦄ id (new_node id address role title) nodes)
        ]
      ]

unfoldable pub segment_of :
    String → String → String → String → String → String → String → FundFlowSegment
unfolding resolve_asset_display_label compact_raw_amount
segment_of id from to action asset_address amount tone = record {
  id = id;
  from = from;
  to = to;
  action = action;
  asset = resolve_asset_display_label asset_address;
  asset_address = asset_address;
  amount = compact_raw_amount amount;
  tone = tone;
}

-- `pushSegment`
unfoldable pub push_segment : FundFlowSegment → LaneState → LaneState
push_segment s lane =
    if str_eq s.from "" || str_eq s.to ""
    then lane
    else record lane { segments = lane.segments ++ s ∷ [] }

unfoldable pub segment_key : FundFlowSegment → String
unfolding normalize_address
segment_key s = text_append s.from (
    text_append "|" (
      text_append s.to (
        text_append "|" (
          text_append (normalize_address s.asset_address)
            (text_append "|" (text_append s.tone (text_append "|" s.action)))))))

-- The loop of dedupeFundFlowSegments with the keys of `grouped`.
unfoldable pub dedupe_segments : List String → List FundFlowSegment → List FundFlowSegment
unfolding segment_key
dedupe_segments seen [] = []
dedupe_segments seen (s ∷ segments) = elim (any (str_eq (segment_key s)) seen) [
  | true ↦ dedupe_segments seen segments
  | false ↦ s ∷ dedupe_segments (segment_key s ∷ seen) segments
]

unfoldable pub dedupe_fund_flow_segments : List FundFlowSegment → List FundFlowSegment
unfolding dedupe_segments
dedupe_fund_flow_segments segments = dedupe_segments [] segments

-- The nodes of a lane. The map has one node for each address, so that their order does not depend
-- on the order of the range over it.
unfoldable pub lane_nodes : Nodes → List FundFlowNode
unfolding slice_stable text_ltb
lane_nodes nodes = slice_stable (λ a b. text_ltb a.address b.address) (map (λ e. e.1) nodes)

-- The loop over a group, with the best flow so far.
unfoldable pub earliest : Flow → List Flow → Flow
earliest best [] = best
earliest best (candidate ∷ rest) =
    earliest (if ltb candidate.order best.order then candidate else best) rest

unfoldable pub pick_preferred_ordered_flow : List (List Flow) → Option Flow
unfolding earliest
pick_preferred_ordered_flow [] = none
pick_preferred_ordered_flow ([] ∷ groups) = pick_preferred_ordered_flow groups
pick_preferred_ordered_flow ((flow ∷ rest) ∷ groups) = some (earliest flow rest)

-- The order of the top-ups.
unfoldable pub topup_before : String → String → Flow → Flow → Bool
unfolding same_address normalize_amount
topup_before sender expected_repayment a b =
    let left_sender = if same_address a.source sender then 0 else 1 in
    let right_sender = if same_address b.source sender then 0 else 1 in
    let left_matches = if str_eq (normalize_amount a.amount) expected_repayment then 0 else 1 in
    let right_matches = if str_eq (normalize_amount b.amount) expected_repayment then 0 else 1 in
    if not (left_sender == right_sender)
    then ltb left_sender right_sender
    else if not (left_matches == right_matches)
    then ltb left_matches right_matches
    else ltb a.order b.order

unfoldable pub topup_key : Flow → String
unfolding normalize_address normalize_amount
topup_key flow = text_append (normalize_address flow.source) (
    text_append "|" (
      text_append (normalize_address flow.asset_address)
        (text_append "|" (normalize_amount flow.amount))))

-- The loop of pickKeyTopupFlows, which takes `left` more flows.
unfoldable pub pick_topups : ℕ → List String → List Flow → List Flow
unfolding topup_key
pick_topups left seen [] = []
pick_topups zero seen (flow ∷ flows) = []
pick_topups (suc left) seen (flow ∷ flows) = elim (any (str_eq (topup_key flow)) seen) [
  | true ↦ pick_topups (suc left) seen flows
  | false ↦ flow ∷ pick_topups left (topup_key flow ∷ seen) flows
]

unfoldable pub pick_key_topup_flows : List Flow → String → String → List Flow
unfolding slice_stable topup_before pick_topups
pick_key_topup_flows flows sender expected_repayment =
    pick_topups 3 [] (slice_stable (topup_before sender expected_repayment) flows)
