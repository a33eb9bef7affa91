-- ===== src/Service/Conclusion.antt =====
-- query_service.go: what the answer for a transaction says of its interactions together.
pub mod Protocols
use flashloan_scanner.Base.{
  ℕ, suc, ◌+◌, String, Bool, false, Option, none, some, List, [], ◌∷◌, ◌++◌, map, any, count_if,
  length, str_eq, if◌then◌else◌,
}
use flashloan_scanner.Base.Dict.{Dict, lookup, insert, string_eq}
use flashloan_scanner.Base.Order.{text_ltb}
use flashloan_scanner.Base.Split.{split_at}
use flashloan_scanner.Base.Text.{trim_space}
use flashloan_scanner.Service.Details.{
  InteractionLegDto, InteractionDetailResult, AddressRoleSummary, TimelineStep, DetectionConclusion,
  TransactionDetailSummary,
}
use flashloan_scanner.Service.Flows.Order.{slice_stable}

-- The keys of `roleMap` with the keys of their maps.
abbrev pub RoleMap : Type 0
RoleMap = Dict String (List String)

abbrev roles_of : Option (List String) → List String
roles_of none = []
roles_of (some roles) = roles

unfoldable pub append_role : String → String → RoleMap → RoleMap
unfolding trim_space lookup insert
append_role address role roles_by_address =
    let key = trim_space address in
    let roles = roles_of (lookup ⦃e = string_eq⦄ key roles_by_address) in
    if str_eq key ""
    then roles_by_address
    else insert ⦃e = string_eq⦄ key (if any (str_eq role) roles then roles else roles ++ role ∷ [])
        roles_by_address

unfoldable pub append_leg_roles : RoleMap → List InteractionLegDto → RoleMap
unfolding append_role
append_leg_roles roles [] = roles
append_leg_roles roles (leg ∷ legs) =
    append_leg_roles (append_role leg.repaid_to_address "repayment_target" roles) legs

unfoldable pub append_roles : RoleMap → List InteractionDetailResult → RoleMap
unfolding append_leg_roles
append_roles roles [] = roles
append_roles roles (i ∷ interactions) =
    let callers = append_role i.callback_target "callback_target" (
      append_role i.receiver_address "receiver"
        (append_role i.on_behalf_of "on_behalf_of" (append_role i.initiator "initiator" roles))) in
    let contracts = append_role i.pair_address "pair" (
      append_role i.factory_address "factory"
        (append_role i.provider_address "provider" callers)) in
    append_roles (append_leg_roles contracts i.legs) interactions

unfoldable pub build_address_role_summaries : List InteractionDetailResult → List AddressRoleSummary
unfolding append_roles slice_stable text_ltb
build_address_role_summaries interactions =
    map (λ entry. record { address = entry.0; roles = slice_stable text_ltb entry.1 })
      (slice_stable (λ a b. text_ltb a.0 b.0) (append_roles [] interactions))

abbrev empty_step : ℕ → String → String → TimelineStep
empty_step ordinal kind protocol = record {
  ordinal = ordinal;
  kind = kind;
  protocol = protocol;
  entrypoint = "";
  asset_address = "";
  asset_role = "";
  amount_borrowed = "";
  amount_repaid = "";
  strict = false;
  event_seen = false;
  callback_seen = false;
  settlement_seen = false;
  repayment_seen = false;
}

-- The steps of the legs, from an ordinal on.
unfoldable pub leg_steps : String → ℕ → List InteractionLegDto → List TimelineStep
leg_steps protocol ordinal [] = []
leg_steps protocol ordinal (leg ∷ legs) =
    record (empty_step ordinal "asset_leg" protocol) {
      asset_address = leg.asset_address;
      asset_role = leg.asset_role;
      amount_borrowed = leg.amount_borrowed;
      amount_repaid = leg.amount_repaid;
      strict = leg.strict_leg;
      event_seen = leg.event_seen;
    }
    ∷ leg_steps protocol (suc ordinal) legs

unfoldable pub timeline_from : ℕ → List InteractionDetailResult → List TimelineStep
unfolding leg_steps
timeline_from ordinal [] = []
timeline_from ordinal (i ∷ interactions) =
    let last = suc ordinal + length i.legs in
    record (empty_step ordinal "entrypoint" i.protocol) { entrypoint = i.entrypoint }
      ∷ leg_steps i.protocol (suc ordinal) i.legs
    ++ record (empty_step last "evidence" i.protocol) {
      strict = i.strict;
      callback_seen = i.callback_seen;
      settlement_seen = i.settlement_seen;
      repayment_seen = i.repayment_seen;
    }
      ∷ timeline_from (suc last) interactions

unfoldable pub build_timeline : List InteractionDetailResult → List TimelineStep
unfolding timeline_from
build_timeline interactions = timeline_from 1 interactions

abbrev add_reason : String → List String → List String
add_reason reason reasons =
    if str_eq reason ""
    then reasons
    else (if any (str_eq reason) reasons then reasons else reasons ++ reason ∷ [])

abbrev count_seen : Bool → ℕ → ℕ
count_seen seen count = if seen then suc count else count

-- A round of the loop; the keys of `exclusionSeen` are the reasons so far.
unfoldable pub conclude_interaction :
    DetectionConclusion → InteractionDetailResult → DetectionConclusion
unfolding trim_space
conclude_interaction c i = record c {
  callback_seen_count = count_seen i.callback_seen c.callback_seen_count;
  settlement_seen_count = count_seen i.settlement_seen c.settlement_seen_count;
  repayment_seen_count = count_seen i.repayment_seen c.repayment_seen_count;
  strict_leg_count = c.strict_leg_count + count_if (λ leg. leg.strict_leg) i.legs;
  debt_opening_count = count_seen i.contains_debt_opening c.debt_opening_count;
  exclusion_reasons = add_reason (trim_space i.exclusion_reason) c.exclusion_reasons;
}

unfoldable pub conclude : DetectionConclusion → List InteractionDetailResult → DetectionConclusion
unfolding conclude_interaction
conclude c [] = c
conclude c (i ∷ interactions) = conclude (conclude_interaction c i) interactions

-- The fields of the response that buildDetectionConclusion reads.
pub record Verdicts : Type 0 where
  pub verified : Bool
  pub strict : Bool
  pub interaction_count : ℕ
  pub strict_interaction_count : ℕ
  pub protocols : List String

unfoldable pub build_detection_conclusion :
    Verdicts → List InteractionDetailResult → DetectionConclusion
unfolding conclude
build_detection_conclusion v interactions =
    conclude
      (record {
        verdict = if v.strict then "strict" else if v.verified then "verified" else "candidate";
        protocols = v.protocols;
        interaction_count = v.interaction_count;
        strict_interaction_count = v.strict_interaction_count;
        callback_seen_count = 0;
        settlement_seen_count = 0;
        repayment_seen_count = 0;
        strict_leg_count = 0;
        debt_opening_count = 0;
        exclusion_reasons = [];
      })
      interactions

unfoldable pub build_transaction_detail_summary :
    Verdicts → List InteractionDetailResult → TransactionDetailSummary
unfolding build_address_role_summaries build_timeline build_detection_conclusion
build_transaction_detail_summary v interactions = record {
  addresses = build_address_role_summaries interactions;
  timeline = build_timeline interactions;
  conclusion = build_detection_conclusion v interactions;
}

-- The loop over the parts.
unfoldable pub trimmed_parts : List String → List String
unfolding trim_space
trimmed_parts [] = []
trimmed_parts (part ∷ parts) =
    let rest = trimmed_parts parts in
    let trimmed = trim_space part in if str_eq trimmed "" then rest else trimmed ∷ rest

unfoldable pub split_protocols : String → List String
unfolding trim_space split_at trimmed_parts
split_protocols raw = if str_eq (trim_space raw) "" then [] else trimmed_parts (split_at "," raw)
