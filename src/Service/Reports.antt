-- ===== src/Service/Reports.antt =====
-- report.go: LoadReports for one transaction, and query_service.go: the details of its interactions
-- from the rows. The tables are parameters.
use flashloan_scanner.Base.{ℕ, String, Option, none, some, List, [], ◌∷◌, map, Outcome, ok, ◌>>=◌}
use flashloan_scanner.Rows.{
  Hash, Uuid, Conversions, FlashloanTransaction, ProtocolInteraction, InteractionAssetLeg,
  ObservedTransactionRow,
}
use flashloan_scanner.Trace.Frames.{CallFrame}
use flashloan_scanner.Verifier.Convert.{big_int_string, address_string}
use flashloan_scanner.Service.Details.{InteractionLegDto, InteractionDetailResult}

pub record InteractionReport : Type 0 where
  pub interaction : ProtocolInteraction
  pub legs : List InteractionAssetLeg

pub record TransactionReport : Type 0 where
  pub tx : FlashloanTransaction
  pub interactions : List InteractionReport

pub record QueryViews : Type 0 where
  pub get_flashloan_transaction : ℕ → Hash → Outcome (Option FlashloanTransaction)
  pub list_protocol_interactions_by_tx : ℕ → Hash → Outcome (List ProtocolInteraction)
  pub list_interaction_legs : Uuid → Outcome (List InteractionAssetLeg)
  pub get_observed_transaction : ℕ → Hash → Outcome (Option ObservedTransactionRow)
  -- `none` is a negative number.
  pub block_time_stamp_by_num : String → ℕ → Outcome (Option ℕ)
  -- The trace's text, if one is stored
  pub get_transaction_trace : ℕ → Hash → Outcome (Option String)
  pub checksum : String → String
  pub unmarshal : String → Outcome CallFrame
  pub trace_provider_source : Option (ℕ → Outcome (Option (String → Outcome (Option CallFrame))))

abbrev string_ptr_or_empty : Option String → String
string_ptr_or_empty none = ""
string_ptr_or_empty (some s) = s

module _ (conv : Conversions) where
  unfoldable pub leg_detail : InteractionAssetLeg → InteractionLegDto
  unfolding big_int_string address_string
  leg_detail leg = record {
    leg_index = leg.leg_index;
    asset_address = conv.address_hex leg.asset_address;
    asset_role = leg.asset_role;
    token_side = string_ptr_or_empty leg.token_side;
    amount_out = big_int_string leg.amount_out;
    amount_in = big_int_string leg.amount_in;
    amount_borrowed = big_int_string leg.amount_borrowed;
    amount_repaid = big_int_string leg.amount_repaid;
    premium_amount = big_int_string leg.premium_amount;
    fee_amount = big_int_string leg.fee_amount;
    interest_rate_mode = big_int_string leg.interest_rate_mode;
    repaid_to_address = address_string conv leg.repaid_to_address;
    opened_debt = leg.opened_debt;
    strict_leg = leg.strict_leg;
    event_seen = leg.event_seen;
    settlement_mode = string_ptr_or_empty leg.settlement_mode;
  }

  unfoldable pub map_interaction_detail : InteractionReport → InteractionDetailResult
  unfolding leg_detail address_string
  map_interaction_detail report =
      let i = report.interaction in
      record {
        interaction_id = conv.uuid_string i.interaction_id;
        protocol = i.protocol;
        entrypoint = i.entrypoint;
        provider_address = conv.address_hex i.provider_address;
        factory_address = address_string conv i.factory_address;
        pair_address = address_string conv i.pair_address;
        receiver_address = address_string conv i.receiver_address;
        callback_target = address_string conv i.callback_target;
        initiator = address_string conv i.initiator;
        on_behalf_of = address_string conv i.on_behalf_of;
        candidate_level = i.candidate_level;
        verified = i.verified;
        strict = i.strict;
        callback_seen = i.callback_seen;
        settlement_seen = i.settlement_seen;
        repayment_seen = i.repayment_seen;
        contains_debt_opening = i.contains_debt_opening;
        exclusion_reason = i.exclusion_reason;
        verification_notes = i.verification_notes;
        raw_method_selector = i.raw_method_selector;
        legs = map leg_detail report.legs;
      }

module _ (views : QueryViews) where
  unfoldable pub load_interactions : List ProtocolInteraction → Outcome (List InteractionReport)
  load_interactions [] = ok []
  load_interactions (i ∷ rest) =
      let later = load_interactions rest in
      views.list_interaction_legs i.interaction_id >>= λ legs.
      later >>= λ reports. ok (record { interaction = i; legs = legs } ∷ reports)

  -- The report of a row.
  unfoldable pub report_of : ℕ → FlashloanTransaction → Outcome (Option TransactionReport)
  unfolding load_interactions
  report_of chain_id tx = views.list_protocol_interactions_by_tx chain_id tx.tx_hash >>= λ items.
      load_interactions items >>= λ reports. ok (some (record { tx = tx; interactions = reports }))

  -- LoadReports for a transaction's hash.
  unfoldable pub load_report : ℕ → Hash → Outcome (Option TransactionReport)
  unfolding report_of
  load_report chain_id hash = views.get_flashloan_transaction chain_id hash >>= λ found.
      elim found [ none ↦ ok none | some tx ↦ report_of chain_id tx ]
