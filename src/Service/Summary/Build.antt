-- ===== src/Service/Summary/Build.antt =====
-- buildTransactionTraceSummary, with its variants for a stored trace and for a tree.
use flashloan_scanner.Base.{
  ℕ, suc, String, Bool, true, false, not, ◌&&◌, Option, none, some, List, [], ◌∷◌, map, str_eq,
  if◌then◌else◌, text_append, Outcome, ok, err,
}
use flashloan_scanner.Base.Text.{to_lower, trim_space}
use flashloan_scanner.Trace.Frames.{CallFrame, frame, from_of, to_of, error_of}
use flashloan_scanner.Service.Details.{InteractionDetailResult}
use flashloan_scanner.Service.Summary.{
  FlatTraceFrame, TraceFrameDto, TraceSequenceStep, TraceAssetFlow, TransactionTraceSummary,
}
use flashloan_scanner.Service.Summary.Flatten.{flatten_trace_frames}
use flashloan_scanner.Service.Summary.Evidence.{build_trace_interaction_evidence, tag_trace_frames}

abbrev type_of : CallFrame → String
type_of (frame type _ _ _ _ _ _ _) = type

abbrev revert_reason_of : CallFrame → String
revert_reason_of (frame _ _ _ _ _ _ revert_reason _) = revert_reason

unfoldable pub build_trace_step_label : FlatTraceFrame → String
unfolding to_lower
build_trace_step_label f =
    if not (str_eq f.token_action "")
    then f.token_action
    else if not (str_eq f.method "")
    then f.method
    else if not (str_eq (error_of f.frame) "")
    then "reverted call"
    else if not (str_eq (type_of f.frame) "")
    then to_lower (type_of f.frame)
    else "call"

abbrev arrow : String → String → String
arrow a b = text_append a (text_append " -> " b)

unfoldable pub build_trace_step_detail : FlatTraceFrame → String
build_trace_step_detail f =
    if not (str_eq f.token_action "")
    then text_append (arrow f.flow_source f.flow_target)
        (text_append " " (text_append f.token_action (text_append " " f.token_amount)))
    else if not (str_eq (error_of f.frame) "")
    then (if not (str_eq (revert_reason_of f.frame) "")
        then revert_reason_of f.frame
        else error_of f.frame)
    else arrow (from_of f.frame) (to_of f.frame)

unfoldable pub frame_dto : FlatTraceFrame → TraceFrameDto
frame_dto f = record {
  id = f.id;
  parent_id = f.parent_id;
  depth = f.depth;
  call_index = f.call_index;
  kind = type_of f.frame;
  from = from_of f.frame;
  to = to_of f.frame;
  method_selector = f.method;
  error = error_of f.frame;
  revert_reason = revert_reason_of f.frame;
  token_action = f.token_action;
  asset_address = f.asset_address;
  token_amount = f.token_amount;
  flow_source = f.flow_source;
  flow_target = f.flow_target;
  tags = f.tags;
}

-- The steps of the sequence from an index on.
unfoldable pub sequence_steps : ℕ → List FlatTraceFrame → List TraceSequenceStep
unfolding build_trace_step_label build_trace_step_detail
sequence_steps index [] = []
sequence_steps index (f ∷ frames) =
    record {
      step = suc index;
      frame_id = f.id;
      parent_frame_id = f.parent_id;
      depth = f.depth;
      from = from_of f.frame;
      to = to_of f.frame;
      method_selector = f.method;
      label = build_trace_step_label f;
      detail = build_trace_step_detail f;
      token_action = f.token_action;
      asset_address = f.asset_address;
      token_amount = f.token_amount;
      error = error_of f.frame;
    }
    ∷ sequence_steps (suc index) frames

abbrev has_flow : FlatTraceFrame → Bool
has_flow f =
    not (str_eq f.token_action "") && not (str_eq f.flow_source "") && not (str_eq f.flow_target "")

unfoldable pub asset_flows : List FlatTraceFrame → List TraceAssetFlow
asset_flows [] = []
asset_flows (f ∷ frames) =
    let rest = asset_flows frames in
    let flow : TraceAssetFlow = record {
      frame_id = f.id;
      action = f.token_action;
      asset_address = f.asset_address;
      source = f.flow_source;
      target = f.flow_target;
      amount = f.token_amount;
    } in
    if has_flow f then flow ∷ rest else rest

-- A summary without frames.
abbrev pub no_trace : String → String → TransactionTraceSummary
no_trace status error = record {
  status = status;
  error = error;
  root_frame_id = "";
  frames = [];
  sequence = [];
  asset_flows = [];
  interaction_evidence = [];
}

-- The id of the first frame; a tree has one.
abbrev first_id : List FlatTraceFrame → String
first_id [] = ""
first_id (f ∷ frames) = f.id

-- `checksum` is the text of an address, by HexToAddress and Hex of go-ethereum.
module _ (checksum : String → String) where
  unfoldable pub build_transaction_trace_summary_from_root :
      Option CallFrame → List InteractionDetailResult → TransactionTraceSummary
  unfolding flatten_trace_frames build_trace_interaction_evidence tag_trace_frames frame_dto
      sequence_steps asset_flows
  build_transaction_trace_summary_from_root none interactions =
      no_trace "unavailable" "trace returned no call frames"
  build_transaction_trace_summary_from_root (some root) interactions =
      let flattened = flatten_trace_frames checksum root in
      let evidence = build_trace_interaction_evidence flattened interactions in
      let tagged = tag_trace_frames flattened evidence in
      record {
        status = "available";
        error = "";
        root_frame_id = first_id tagged;
        frames = map frame_dto tagged;
        sequence = sequence_steps 0 tagged;
        asset_flows = asset_flows tagged;
        interaction_evidence = evidence;
      }

  -- `unmarshal` is json.Unmarshal into a CallFrame.
  unfoldable pub build_transaction_trace_summary_from_json :
      (String → Outcome CallFrame) → String → List InteractionDetailResult → TransactionTraceSummary
  unfolding trim_space build_transaction_trace_summary_from_root
  build_transaction_trace_summary_from_json unmarshal raw interactions =
      elim (str_eq (trim_space raw) "") [
        | true ↦ no_trace "unavailable" "stored trace payload is empty"
        | false ↦ elim (unmarshal raw) [
          | err e ↦ no_trace "error" (text_append "decode stored trace: " e)
          | ok root ↦ build_transaction_trace_summary_from_root (some root) interactions
        ]
      ]

  -- A source gives for a chain a provider or nil, and a provider gives for a transaction a tree or
  -- nil; either may fail.
  unfoldable pub build_transaction_trace_summary :
      Option (ℕ → Outcome (Option (String → Outcome (Option CallFrame))))
      → ℕ
      → String
      → List InteractionDetailResult
      → TransactionTraceSummary
  unfolding build_transaction_trace_summary_from_root
  build_transaction_trace_summary none chain_id tx_hash interactions =
      no_trace "unavailable" "trace provider is unavailable"
  build_transaction_trace_summary (some source) chain_id tx_hash interactions =
      elim (source chain_id) [
        | err e ↦ no_trace "unavailable" e
        | ok none ↦ no_trace "unavailable" "trace provider is unavailable"
        | ok (some provider) ↦ elim (provider tx_hash) [
          | err e ↦ no_trace "error" e
          | ok root ↦ build_transaction_trace_summary_from_root root interactions
        ]
      ]
