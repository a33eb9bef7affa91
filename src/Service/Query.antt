-- ===== src/Service/Query.antt =====
-- query_service.go: GetTransactionDetail. json.Unmarshal, the trace providers and the text of an
-- address are parameters, as the tables are.
pub mod Shown
use flashloan_scanner.Base.{
  ℕ, ◌*◌, ◌^◌, String, Bool, true, false, not, ◌&&◌, Option, none, some, List, [], ◌∷◌, map, ltb,
  ◌==◌, str_eq, if◌then◌else◌, Outcome, ok, err, ◌>>=◌,
}
use flashloan_scanner.Base.Decimal.{decimal, parse_decimal, hex_digits}
use flashloan_scanner.Base.Text.{trim_space, text_length, drop_text, has_prefix}
use flashloan_scanner.Rows.{
  Address, Hash, Uuid, Conversions, FlashloanTransaction, ProtocolInteraction, InteractionAssetLeg,
  ObservedTransactionRow,
}
use flashloan_scanner.Trace.Frames.{CallFrame}
use flashloan_scanner.Verifier.Convert.{big_int_string, address_string}
use flashloan_scanner.Service.Details.{InteractionLegDto, InteractionDetailResult}
use flashloan_scanner.Service.Summary.{TransactionTraceSummary}
use flashloan_scanner.Service.Summary.Build.{
  build_transaction_trace_summary, build_transaction_trace_summary_from_json,
}
use flashloan_scanner.Service.Flows.Order.{slice_stable}
use flashloan_scanner.Service.Flows.Graph.{build_fund_flow_graph}
use flashloan_scanner.Service.Conclusion.{
  Verdicts, split_protocols, build_transaction_detail_summary,
}
use flashloan_scanner.Service.Response.{TransactionDetailResponse}
use flashloan_scanner.Service.Reports.{
  InteractionReport, TransactionReport, QueryViews, map_interaction_detail, load_report,
}

unfoldable pub multiply_big_ints_to_string : Option ℕ → Option ℕ → String
unfolding decimal
multiply_big_ints_to_string (some left) (some right) = decimal (left * right)
multiply_big_ints_to_string _ _ = ""

unfoldable pub is_hex_hash : String → Bool
unfolding text_length has_prefix drop_text hex_digits
is_hex_hash value =
    text_length value == 66
    && has_prefix value "0x"
    && elim (hex_digits 0 (drop_text 2 value)) [ none ↦ false | some n ↦ true ]

-- sort.Slice may leave interactions of one ordinal in any order; the model keeps that of the rows,
-- as Go does up to twelve elements.
abbrev before_ordinal : InteractionReport → InteractionReport → Bool
before_ordinal a b = ltb a.interaction.interaction_ordinal b.interaction.interaction_ordinal

abbrev of_row {ℓ} :
    {A : Type ℓ} → Option ObservedTransactionRow → A → (ObservedTransactionRow → A) → A
of_row none other f = other
of_row (some row) other f = f row

abbrev is_available : TransactionTraceSummary → Bool
is_available summary = str_eq summary.status "available"

module _ (conv : Conversions) (views : QueryViews) where
  unfoldable pub lookup_block_timestamp : ℕ → String → Outcome ℕ
  unfolding trim_space parse_decimal decimal
  lookup_block_timestamp chain_id block_number =
      if str_eq (trim_space block_number) "" then ok 0 else elim (parse_decimal block_number) [
        | none ↦ ok 0
        | some parsed ↦
            if ltb parsed (2 ^ 64)
            then (views.block_time_stamp_by_num (decimal chain_id) parsed >>= λ found. elim found [
              | none ↦ ok 0
              | some timestamp ↦ ok timestamp
            ])
            else ok 0
      ]

  unfoldable pub timestamp_of : ℕ → FlashloanTransaction → Outcome ℕ
  unfolding lookup_block_timestamp decimal
  timestamp_of chain_id tx =
      if tx.timestamp == 0
      then lookup_block_timestamp chain_id (decimal tx.block_number)
      else ok tx.timestamp

  unfoldable pub trace_summary_of :
      ℕ → String → Option String → List InteractionDetailResult → TransactionTraceSummary
  unfolding build_transaction_trace_summary build_transaction_trace_summary_from_json
  trace_summary_of chain_id tx_hash stored interactions =
      let fetched =
        build_transaction_trace_summary views.checksum views.trace_provider_source chain_id tx_hash
          interactions in
      elim stored [
        | none ↦ fetched
        | some raw ↦
            let read =
              build_transaction_trace_summary_from_json views.checksum views.unmarshal raw
                interactions in
            if is_available read then read else fetched
      ]

  -- The response without its graph.
  unfoldable pub response_of :
      TransactionReport
      → Option ObservedTransactionRow
      → ℕ
      → (List InteractionDetailResult → TransactionTraceSummary)
      → TransactionDetailResponse
  unfolding decimal big_int_string address_string multiply_big_ints_to_string split_protocols
      map_interaction_detail slice_stable build_transaction_detail_summary
  response_of report observed timestamp summarize_trace =
      let tx = report.tx in
      let protocols = split_protocols tx.protocols in
      let interactions =
        map (map_interaction_detail conv) (slice_stable before_ordinal report.interactions) in
      record {
        tx_hash = conv.hash_hex tx.tx_hash;
        chain_id = tx.chain_id;
        block_number = decimal tx.block_number;
        timestamp = timestamp;
        tx_index = of_row observed 0 (λ o. o.tx_index);
        from_address = of_row observed "" (λ o. conv.address_hex o.from_address);
        to_address = of_row observed "" (λ o. address_string conv o.to_address);
        status = of_row observed 0 (λ o. o.status);
        value = of_row observed "" (λ o. big_int_string o.value);
        input_data = of_row observed "" (λ o. o.input_data);
        method_selector = of_row observed "" (λ o. o.method_selector);
        gas_used = of_row observed "" (λ o. big_int_string o.gas_used);
        effective_gas_price = of_row observed "" (λ o. big_int_string o.effective_gas_price);
        transaction_fee =
            of_row observed "" (λ o. multiply_big_ints_to_string o.gas_used o.effective_gas_price);
        candidate = tx.contains_candidate_interaction;
        verified = tx.contains_verified_interaction;
        strict = tx.contains_verified_strict_interaction;
        interaction_count = tx.interaction_count;
        strict_interaction_count = tx.strict_interaction_count;
        protocol_count = tx.protocol_count;
        protocols = protocols;
        summary =
            build_transaction_detail_summary
              (record {
                verified = tx.contains_verified_interaction;
                strict = tx.contains_verified_strict_interaction;
                interaction_count = tx.interaction_count;
                strict_interaction_count = tx.strict_interaction_count;
                protocols = protocols;
              })
              interactions;
        trace_summary = some (summarize_trace interactions);
        fund_flow_graph = none;
        interactions = interactions;
      }

  abbrev pub with_graph : TransactionDetailResponse → TransactionDetailResponse
  with_graph response = record response {
    fund_flow_graph = some (build_fund_flow_graph (some response));
  }

  -- What follows a report that is found.
  unfoldable pub answer_report : ℕ → String → TransactionReport → Outcome TransactionDetailResponse
  unfolding timestamp_of trace_summary_of response_of build_fund_flow_graph
  answer_report chain_id tx_hash report =
      let hash = conv.hex_to_hash tx_hash in
      views.get_observed_transaction chain_id hash >>= λ observed.
      timestamp_of chain_id report.tx >>= λ timestamp.
      views.get_transaction_trace chain_id hash >>= λ stored. ok (
        with_graph
          (response_of report observed timestamp (trace_summary_of chain_id tx_hash stored)))

  unfoldable pub get_transaction_detail : ℕ → String → Outcome (Option TransactionDetailResponse)
  unfolding is_hex_hash load_report answer_report
  get_transaction_detail chain_id tx_hash =
      if chain_id == 0
      then err "chain id is required"
      else (if not (is_hex_hash tx_hash)
          then err "invalid tx hash"
          else (load_report views chain_id (conv.hex_to_hash tx_hash) >>= λ found. elim found [
            | none ↦ ok none
            | some report ↦ answer_report chain_id tx_hash report >>= λ response. ok (some response)
          ]))
