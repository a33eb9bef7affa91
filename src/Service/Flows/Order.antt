-- ===== src/Service/Flows/Order.antt =====
-- fund_flow_graph.go: sort.SliceStable, and the flows in the order of their frames.
use flashloan_scanner.Base.{
  ℕ, ◌+◌, ◌*◌, String, Bool, not, Option, none, some, List, [], ◌∷◌, map, ltb, ◌==◌, if◌then◌else◌,
}
use flashloan_scanner.Base.Dict.{Dict, lookup, insert, string_eq}
use flashloan_scanner.Base.Order.{text_ltb}
use flashloan_scanner.Service.Summary.{
  TraceFrameDto, TraceAssetFlow, TransactionTraceSummary, TraceInteractionEvidence,
}
use flashloan_scanner.Service.Flows.{OrderedTraceAssetFlow}

module _ {ℓ} {A : Type ℓ} where
  insert_by : (A → A → Bool) → A → List A → List A
  insert_by less x [] = x ∷ []
  insert_by less x (y ∷ ys) =
      let rest = insert_by less x ys in if less y x then y ∷ rest else x ∷ y ∷ ys

  -- A stable sort. For a strict weak order, which every `less` of the code is, all stable sorts
  -- give one result.
  unfoldable pub slice_stable : (A → A → Bool) → List A → List A
  unfolding insert_by
  slice_stable less [] = []
  slice_stable less (x ∷ xs) = insert_by less x (slice_stable less xs)

unfoldable pub before_in_trace : OrderedTraceAssetFlow → OrderedTraceAssetFlow → Bool
unfolding text_ltb
before_in_trace a b =
    if not (a.order == b.order) then ltb a.order b.order else text_ltb a.frame_id b.frame_id

-- The map `frameOrder`.
unfoldable pub frame_orders : Dict String ℕ → List TraceFrameDto → Dict String ℕ
unfolding insert
frame_orders orders [] = orders
frame_orders orders (f ∷ frames) =
    frame_orders (insert ⦃e = string_eq⦄ f.id (f.call_index * 10 + f.depth) orders) frames

unfoldable pub order_of : Dict String ℕ → String → ℕ
unfolding lookup
order_of orders id = elim (lookup ⦃e = string_eq⦄ id orders) [ none ↦ 0 | some order ↦ order ]

unfoldable pub ordered_flow : Dict String ℕ → TraceAssetFlow → OrderedTraceAssetFlow
unfolding order_of
ordered_flow orders flow = record {
  frame_id = flow.frame_id;
  action = flow.action;
  asset_address = flow.asset_address;
  source = flow.source;
  target = flow.target;
  amount = flow.amount;
  order = order_of orders flow.frame_id;
}

-- `sortFundFlowsByTrace` of a response with that trace summary.
unfoldable pub sort_fund_flows_by_trace :
    Option TransactionTraceSummary → List OrderedTraceAssetFlow
unfolding slice_stable before_in_trace frame_orders ordered_flow
sort_fund_flows_by_trace none = []
sort_fund_flows_by_trace (some summary) =
    slice_stable before_in_trace
      (map (ordered_flow (frame_orders [] summary.frames)) summary.asset_flows)

unfoldable pub evidence_by_id :
    Dict String TraceInteractionEvidence
    → List TraceInteractionEvidence
    → Dict String TraceInteractionEvidence
unfolding insert
evidence_by_id result [] = result
evidence_by_id result (item ∷ items) =
    evidence_by_id (insert ⦃e = string_eq⦄ item.interaction_id item result) items

unfoldable pub map_interaction_evidence :
    Option TransactionTraceSummary → Dict String TraceInteractionEvidence
unfolding evidence_by_id
map_interaction_evidence none = []
map_interaction_evidence (some summary) = evidence_by_id [] summary.interaction_evidence
