-- ===== src/Service/Summary/Evidence.antt =====
-- buildTraceInteractionEvidence and tagTraceFrames: the frames that bear an interaction out.
use flashloan_scanner.Base.{
  String, Bool, true, false, not, ◌&&◌, ◌||◌, List, [], ◌∷◌, ◌++◌, map, any, str_eq, if◌then◌else◌,
  text_append, filter_if,
}
use flashloan_scanner.Base.Text.{to_lower, trim_space, has_prefix}
use flashloan_scanner.Trace.Frames.{from_of, to_of, error_of}
use flashloan_scanner.Service.Details.{InteractionDetailResult, InteractionLegDto}
use flashloan_scanner.Service.Summary.{FlatTraceFrame, TraceInteractionEvidence}

-- The keys of the map `assets`.
unfoldable pub evidence_assets : List InteractionLegDto → List String
unfolding to_lower
evidence_assets [] = []
evidence_assets (leg ∷ legs) =
    let rest = evidence_assets legs in
    if not (str_eq leg.asset_address "") then to_lower leg.asset_address ∷ rest else rest

unfoldable pub matches_repayment_frame : FlatTraceFrame → String → List String → Bool
unfolding to_lower
matches_repayment_frame f provider_address assets =
    let from = to_lower (from_of f.frame) in
    let to = to_lower (to_of f.frame) in
    str_eq (error_of f.frame) ""
    && not (str_eq f.token_action "")
    && (any (str_eq from) assets
        || any (str_eq to) assets
        || str_eq from provider_address
        || str_eq to provider_address)

-- The test of a callback in the loop over the frames.
unfoldable pub is_callback_frame : String → String → FlatTraceFrame → Bool
unfolding to_lower
is_callback_frame provider receiver f =
    str_eq (error_of f.frame) ""
    && str_eq (to_lower (from_of f.frame)) provider
    && str_eq (to_lower (to_of f.frame)) receiver

abbrev pub frame_ids : List FlatTraceFrame → List String
frame_ids frames = map (λ f. f.id) frames

unfoldable pub collect_subtree_frame_ids : List FlatTraceFrame → String → List String
unfolding has_prefix
collect_subtree_frame_ids frames root_id =
    frame_ids
      (filter_if (λ f. str_eq f.id root_id || has_prefix f.id (text_append root_id ".")) frames)

-- The loop of dedupeStrings with the keys of `seen`.
unfoldable pub dedupe : List String → List String → List String
dedupe seen [] = []
dedupe seen (value ∷ values) = elim (str_eq value "" || any (str_eq value) seen) [
  | true ↦ dedupe seen values
  | false ↦ value ∷ dedupe (value ∷ seen) values
]

unfoldable pub dedupe_strings : List String → List String
unfolding dedupe
dedupe_strings values = dedupe [] values

-- The loop over the callbacks.
unfoldable pub callback_subtrees : List FlatTraceFrame → List String → List String
unfolding collect_subtree_frame_ids
callback_subtrees frames [] = []
callback_subtrees frames (callback_id ∷ rest) =
    collect_subtree_frame_ids frames callback_id ++ callback_subtrees frames rest

unfoldable pub verdict_for_interaction : InteractionDetailResult → String
verdict_for_interaction interaction =
    if interaction.strict
    then "strict"
    else if interaction.verified
    then "verified"
    else "candidate"

-- A round of the loop over the interactions.
unfoldable pub evidence_of :
    List FlatTraceFrame → InteractionDetailResult → TraceInteractionEvidence
unfolding evidence_assets matches_repayment_frame is_callback_frame callback_subtrees dedupe_strings
    verdict_for_interaction to_lower trim_space
evidence_of frames interaction =
    let provider = to_lower (trim_space interaction.provider_address) in
    let receiver = to_lower (trim_space interaction.receiver_address) in
    let assets = evidence_assets interaction.legs in
    let callback_ids = frame_ids (filter_if (is_callback_frame provider receiver) frames) in
    let repayment_ids =
      frame_ids (filter_if (λ f. matches_repayment_frame f provider assets) frames) in
    record {
      interaction_id = interaction.interaction_id;
      protocol = interaction.protocol;
      entrypoint = interaction.entrypoint;
      verdict = verdict_for_interaction interaction;
      callback_seen = interaction.callback_seen;
      settlement_seen = interaction.settlement_seen;
      repayment_seen = interaction.repayment_seen;
      contains_debt_opening = interaction.contains_debt_opening;
      callback_frame_ids = dedupe_strings callback_ids;
      callback_subtree_ids = dedupe_strings (callback_subtrees frames callback_ids);
      repayment_frame_ids = dedupe_strings repayment_ids;
      exclusion_reason = interaction.exclusion_reason;
      verification_notes = interaction.verification_notes;
      provider_address = interaction.provider_address;
      receiver_address = interaction.receiver_address;
    }

unfoldable pub build_trace_interaction_evidence :
    List FlatTraceFrame → List InteractionDetailResult → List TraceInteractionEvidence
unfolding evidence_of
build_trace_interaction_evidence frames interactions = map (evidence_of frames) interactions

-- Whether some evidence has the id in a list.
abbrev in_some :
    (TraceInteractionEvidence → List String) → List TraceInteractionEvidence → String → Bool
in_some ids evidence id = any (λ item. any (str_eq id) (ids item)) evidence

abbrev tag_if : Bool → String → List String → List String
tag_if b tag tags = if b then tag ∷ tags else tags

-- A round of the loop of tagTraceFrames; the keys of its maps are those of the evidence.
unfoldable pub tag_frame : List TraceInteractionEvidence → FlatTraceFrame → FlatTraceFrame
tag_frame evidence f = record f {
  tags = tag_if (not (str_eq f.token_action "")) "token_action" (
      tag_if (in_some (λ item. item.callback_subtree_ids) evidence f.id) "callback_path" (
        tag_if (in_some (λ item. item.repayment_frame_ids) evidence f.id) "repayment_path"
          (tag_if (not (str_eq (error_of f.frame) "")) "error" [])));
}

unfoldable pub tag_trace_frames :
    List FlatTraceFrame → List TraceInteractionEvidence → List FlatTraceFrame
unfolding tag_frame
tag_trace_frames frames evidence = map (tag_frame evidence) frames
