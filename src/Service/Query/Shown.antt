-- ===== src/Service/Query/Shown.antt =====
-- What the answer for a transaction shows of the summary that the aggregator stored.
use mathlib.Core.Path.{subst}
use flashloan_scanner.Base.{
  ℕ, ◌≡◌, refl, String, not, Option, none, some, List, [], ◌∷◌, All, ◌==◌, if◌then◌else◌, Outcome,
  ok, err, >>=-eq-ok, ap, sym, ◌∙◌, Outcome-cases, Option-cases, Bool-cases, inl, inr,
}
use flashloan_scanner.Rows.{Conversions, FlashloanTransaction, ObservedTransactionRow}
use flashloan_scanner.Types.{TxSummary}
use flashloan_scanner.Aggregator.{tx_summary_to_db}
use flashloan_scanner.Service.Details.{InteractionDetailResult, DetectionConclusion}
use flashloan_scanner.Service.Summary.{TransactionTraceSummary}
use flashloan_scanner.Service.Response.{TransactionDetailResponse}
use flashloan_scanner.Service.Conclusion.{
  conclude, split_protocols, build_detection_conclusion, build_transaction_detail_summary,
}
use flashloan_scanner.Service.Conclusion.Protocols.{IsName, split_protocols-tx_summary_to_db}
use flashloan_scanner.Service.Reports.{
  QueryViews, TransactionReport, load_interactions, report_of, load_report,
}
use flashloan_scanner.Service.Query.{
  timestamp_of, with_graph, response_of, answer_report, get_transaction_detail, is_hex_hash,
  trace_summary_of,
}

abbrev verdict_of : TxSummary → String
verdict_of summary =
    if summary.contains_verified_strict_interaction
    then "strict"
    else if summary.contains_verified_interaction
    then "verified"
    else "candidate"

pub record Shows (summary : TxSummary) (response : TransactionDetailResponse) : Type 0 where
  pub its_protocols : response.protocols ≡ summary.protocols
  pub its_verdict : response.summary.conclusion.verdict ≡ verdict_of summary
  pub concluded_protocols : response.summary.conclusion.protocols ≡ summary.protocols
  pub its_count : response.summary.conclusion.interaction_count ≡ summary.interaction_count
  pub its_strict_count :
      response.summary.conclusion.strict_interaction_count ≡ summary.strict_interaction_count

-- The loop over the interactions leaves what it does not count.
abbrev SameHead : DetectionConclusion → DetectionConclusion → Type 0
SameHead c d =
    (d.verdict ≡ c.verdict)
    × (d.protocols ≡ c.protocols)
    × (d.interaction_count ≡ c.interaction_count)
    × (d.strict_interaction_count ≡ c.strict_interaction_count)

conclude-SameHead :
    (interactions : List InteractionDetailResult) (c : DetectionConclusion)
    → SameHead c (conclude c interactions)
unfolding conclude
conclude-SameHead [] c = (refl, refl, refl, refl)
conclude-SameHead (i ∷ interactions) c = conclude-SameHead interactions _

abbrev row_verdict : FlashloanTransaction → String
row_verdict tx =
    if tx.contains_verified_strict_interaction
    then "strict"
    else if tx.contains_verified_interaction
    then "verified"
    else "candidate"

abbrev tx_of : FlashloanTransaction → Outcome (Option TransactionReport) → FlashloanTransaction
tx_of tx (err e) = tx
tx_of tx (ok none) = tx
tx_of tx (ok (some report)) = report.tx

module _ (conv : Conversions) (views : QueryViews) (summary : TxSummary)
    (names : All IsName summary.protocols) where
  abbrev IsShown : Outcome TransactionDetailResponse → Type 0
  IsShown (err e) = Unit
  IsShown (ok response) = Shows summary response

  abbrev AnswerShows : Outcome (Option TransactionDetailResponse) → Type 0
  AnswerShows (err e) = Unit
  AnswerShows (ok none) = Unit
  AnswerShows (ok (some response)) = Shows summary response

  response_of-Shows :
      (report : TransactionReport) (observed : Option ObservedTransactionRow) (timestamp : ℕ)
      (summarize_trace : List InteractionDetailResult → TransactionTraceSummary)
      → report.tx ≡ tx_summary_to_db conv summary
      → Shows summary (response_of conv views report observed timestamp summarize_trace)
  unfolding response_of build_transaction_detail_summary build_detection_conclusion tx_summary_to_db
  response_of-Shows report observed timestamp summarize_trace its_row =
      let protocols =
        ap (λ t. split_protocols t.protocols) its_row
        ∙ split_protocols-tx_summary_to_db conv summary names in
      let (verdict, concluded, count, strict_count) =
        conclude-SameHead
          (response_of conv views report observed timestamp summarize_trace).interactions _ in
      record {
        its_protocols = protocols;
        its_verdict = verdict ∙ ap row_verdict its_row;
        concluded_protocols = concluded ∙ protocols;
        its_count = count ∙ ap (λ t. t.interaction_count) its_row;
        its_strict_count = strict_count ∙ ap (λ t. t.strict_interaction_count) its_row;
      }

  with_graph-Shows :
      (response : TransactionDetailResponse)
      → Shows summary response
      → Shows summary (with_graph conv views response)
  with_graph-Shows response h = record {
    its_protocols = h.its_protocols;
    its_verdict = h.its_verdict;
    concluded_protocols = h.concluded_protocols;
    its_count = h.its_count;
    its_strict_count = h.its_strict_count;
  }

  report_of-tx :
      (chain_id : ℕ) (tx : FlashloanTransaction) {report : TransactionReport}
      → report_of views chain_id tx ≡ ok (some report)
      → report.tx ≡ tx
  unfolding report_of
  report_of-tx chain_id tx h =
      let (items, listed, more) =
        >>=-eq-ok (views.list_protocol_interactions_by_tx chain_id tx.tx_hash) _ h in
      let (reports, loaded, same) = >>=-eq-ok (load_interactions views items) _ more in
      sym (ap (tx_of tx) same)

  answer_report-Shows :
      (chain_id : ℕ) (tx_hash : String) (report : TransactionReport)
      {response : TransactionDetailResponse}
      → report.tx ≡ tx_summary_to_db conv summary
      → answer_report conv views chain_id tx_hash report ≡ ok response
      → Shows summary response
  unfolding answer_report
  answer_report-Shows chain_id tx_hash report its_row answers =
      let (observed, seen, more) =
        >>=-eq-ok (views.get_observed_transaction chain_id (conv.hex_to_hash tx_hash)) _ answers in
      let (timestamp, known, last) =
        >>=-eq-ok (timestamp_of conv views chain_id report.tx) _ more in
      let (stored, traced, same) =
        >>=-eq-ok (views.get_transaction_trace chain_id (conv.hex_to_hash tx_hash)) _ last in
      subst IsShown same (
        with_graph-Shows _ (
          response_of-Shows report observed timestamp
            (trace_summary_of conv views chain_id tx_hash stored) its_row))

  -- If the row of a transaction is the one that the aggregator stores for a summary, whose protocols
  -- are texts that are not empty, of visible ASCII characters without a comma, then a response of
  -- GetTransactionDetail lists the summary's protocols, and its conclusion has them too, the
  -- summary's numbers of interactions and of strict ones, and the verdict "strict", "verified" or
  -- "candidate" by the summary's flags.
  pub get_transaction_detail-Shows :
      (chain_id : ℕ) (tx_hash : String) {response : TransactionDetailResponse}
      → views.get_flashloan_transaction chain_id (conv.hex_to_hash tx_hash)
        ≡ ok (some (tx_summary_to_db conv summary))
      → get_transaction_detail conv views chain_id tx_hash ≡ ok (some response)
      → Shows summary response
  unfolding get_transaction_detail
  get_transaction_detail-Shows chain_id tx_hash stored answers = elim (Bool-cases (chain_id == 0)) [
    | inl missing ↦ cc (rw (missing, get_transaction_detail) at answers)
    | inr given ↦ elim (Bool-cases (not (is_hex_hash tx_hash))) [
      | inl invalid ↦ cc (rw (given, invalid, get_transaction_detail) at answers)
      | inr valid ↦
          let row = tx_summary_to_db conv summary in
          elim (Outcome-cases (report_of views chain_id row)) [
            | inr (e, failed) ↦
                cc (
                  rw (given, valid, stored, failed, get_transaction_detail, load_report) at answers)
            | inl (none_or_report, loaded) ↦ elim (Option-cases none_or_report) [
              | inl missing ↦ cc (
                  rw (given, valid, stored, loaded, missing, get_transaction_detail, load_report) at
                    answers)
              | inr (report, found) ↦
                  let rest =
                    rw (given, valid, stored, loaded, found, get_transaction_detail, load_report) at
                      answers in
                  let (answer, answered, same) =
                    >>=-eq-ok (answer_report conv views chain_id tx_hash report) _ rest in
                  subst AnswerShows same (
                    answer_report-Shows chain_id tx_hash report
                      (report_of-tx chain_id row (rw found at loaded)) answered)
            ]
          ]
    ]
  ]
