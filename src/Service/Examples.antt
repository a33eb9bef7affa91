-- ===== src/Service/Examples.antt =====
-- Scan jobs on small inputs: tests, and the theorems applied.
use flashloan_scanner.Base.Decimal.{decimal}
use flashloan_scanner.Base.{All, ◌-◌, arith}
use flashloan_scanner.Types.{TxSummary}
use flashloan_scanner.Rows.{Conversions, FlashloanTransaction}
use flashloan_scanner.Aggregator.{tx_summary_to_db}
use flashloan_scanner.Service.Response.{TransactionDetailResponse}
use flashloan_scanner.Service.Conclusion.Protocols.{IsName}
use flashloan_scanner.Service.Reports.{QueryViews}
use flashloan_scanner.Service.Query.{
  response_of, with_graph, trace_summary_of, get_transaction_detail,
}
use flashloan_scanner.Service.Query.Shown.{Shows, get_transaction_detail-Shows}
use flashloan_scanner.Base.{
  ℕ, arith, String, true, false, none, some, List, [], ◌∷◌, ◌≡◌, ◌+◌, refl, ok, err, count_if,
  length,
}
use flashloan_scanner.Base.Dict.{lookup, put, string_eq, nat_eq}
use flashloan_scanner.Types.{aave_v3, balancer_v2}
use flashloan_scanner.Orchestrator.Runner.{run_once}
use flashloan_scanner.Orchestrator.Runner.Counters.{
  is_finding, is_verified_finding, is_strict_finding,
}
use flashloan_scanner.Orchestrator.Samples.{runner, summary}
use flashloan_scanner.Base.Decimal.{parse_decimal}
use flashloan_scanner.Trace.Frames.{CallFrame, frame, nil, cons}
use flashloan_scanner.Service.Summary.Flatten.{flatten_trace_frames, walk}
use flashloan_scanner.Service.Summary.Evidence.{frame_ids, collect_subtree_frame_ids}
use flashloan_scanner.Service.Summary.Subtrees.{
  frame_at, path_id, collect_subtree_frame_ids-Subtree,
}
use flashloan_scanner.Service.Flows.Amounts.{normalize_amount, sum_raw_amounts}
use flashloan_scanner.Service.Flows.Amounts.Sums.{total, sum_raw_amounts-total}
use flashloan_scanner.Service.Flows.Branches.{Flow, Walk, walk_branch}
use flashloan_scanner.Service.Flows.Branches.Fuel.{walk_levels, walk_branch-walk_levels}
use flashloan_scanner.Service.Jobs.{ScanJobParams, JobEvent, JobOverview, of_log}
use flashloan_scanner.Service.Jobs.Manager.{Jobs, create_job, new_job, new_protocols, pending_state}
use flashloan_scanner.Service.Jobs.Channels.{
  JobManager, new_job_manager, unsubscribe, send_all, close_channel, with_channel, new_channel,
}
use flashloan_scanner.Service.Jobs.Updates.{Clock}
use flashloan_scanner.Service.Jobs.Calls.{
  Call, creates, subscribes, unsubscribes, receives, changes, starts, run,
}
use flashloan_scanner.Service.Jobs.Creation.{Created, accepts, create_job-Creates}
use flashloan_scanner.Service.Jobs.Runs.{Inv, run-Inv}
use flashloan_scanner.Service.Jobs.Observer.{Notes, observe_notes}
use flashloan_scanner.Service.Jobs.Displays.{own}
use flashloan_scanner.Orchestrator.Events.{RunEvent, on_finding, finding_of}
use flashloan_scanner.Service.Jobs.Recording.{Shown}
use flashloan_scanner.Service.Jobs.Following.{final_status, run_once-Showing}
use flashloan_scanner.Service.Jobs.Race.{late_sends_panic}

-- The first protocol twice.
abbrev params : ScanJobParams
params = record {
  chain_id = 1;
  start_block = 10;
  end_block = 20;
  trace_enabled = true;
  protocols = aave_v3 ∷ balancer_v2 ∷ aave_v3 ∷ [];
}

abbrev noon : Clock
noon n = 12

create_job-Creates_example :
    (accepts params [] ≡ true
      → (overview : JobOverview) × (after : Jobs) × (create_job "j" params []
          ≡ ok (overview, after))
        × Created "j" params [] after overview)
    × (accepts params [] ≡ false → (e : String) × (create_job "j" params [] ≡ err e))
create_job-Creates_example = create_job-Creates "j" params []

-- A job with a subscriber that reads one event, leaves, and misses the rest.
abbrev session : List Call
session =
    creates "j" params
    ∷ subscribes "j" 1
    ∷ changes (starts "j") noon
    ∷ receives 0
    ∷ unsubscribes "j" 0
    ∷ changes (starts "j") noon
    ∷ []

run-Inv_example : (after : JobManager) × (run session new_job_manager ≡ some after) × Inv after
run-Inv_example = run-Inv session

-- A job for the protocol of the runner.
abbrev jobs : Jobs
jobs = ("j", new_job "j" params (aave_v3 ∷ [])) ∷ []

jobs-Shown : Shown "j" aave_v3 "pending" 0 0 0 0 jobs
unfolding lookup new_job new_protocols
jobs-Shown = record {
  job = new_job "j" params (aave_v3 ∷ []);
  state = pending_state params aave_v3;
  has_job = refl;
  has_state = refl;
  in_status = refl;
  candidates = refl;
  verified = refl;
  strict = refl;
  all_findings = refl;
}

-- The run's notifications, each between one of another protocol of the job and one of another job.
abbrev mixed : List RunEvent → Notes
mixed [] = []
mixed (event ∷ earlier) =
    ("j", on_finding (finding_of "other" balancer_v2 1 summary))
    ∷ ("j", event)
    ∷ ("k", event)
    ∷ mixed earlier

abbrev notes : Notes
notes = mixed (run_once runner 1 10 20 0 []).1.events

own-notes : own "j" aave_v3 notes ≡ (run_once runner 1 10 20 0 []).1.events
unfolding run_once
own-notes = refl

run_once-Showing_example :
    let (answer, t) = run_once runner 1 10 20 0 [] in
    Shown "j" aave_v3
      (final_status answer)
      (count_if is_finding t.events)
      (count_if is_verified_finding t.events)
      (count_if is_strict_finding t.events)
      (0 + count_if is_finding t.events)
      (observe_notes (λ k n. 12) notes jobs)
run_once-Showing_example =
    run_once-Showing runner 1 10 20 refl 0 0 "j" (λ k n. 12) jobs notes jobs-Shown own-notes

-- The manager once `session` has subscribed.
abbrev subscribed : JobManager
subscribed = with_channel "j" (new_channel "j" 1) (record new_job_manager { jobs = jobs })

abbrev event : JobEvent
event = record {
  kind = "log";
  job_id = "j";
  payload = of_log (record {
    level = "info";
    message = "scan job started";
    protocol = "";
    block_number = 0;
    timestamp = 12;
  });
  timestamp = 12;
}

abbrev unsubscribed : JobManager
unsubscribed = record subscribed {
  subscribers = put ⦃e = string_eq⦄ "j" none subscribed.subscribers;
  channels =
      put ⦃e = nat_eq⦄ 0 (some (record (new_channel "j" 1) { closed = true })) subscribed.channels;
}

late_sends_panic_example : send_all event (0 ∷ []) unsubscribed.channels ≡ none
unfolding new_job_manager unsubscribe close_channel put
late_sends_panic_example =
    late_sends_panic "j" 0 event (0 ∷ []) subscribed unsubscribed refl refl refl

-- A call with one child of its own below each of two children; the second one is a transfer.
abbrev leaf : String → CallFrame
leaf input = frame "CALL" "0x1" "0x2" input "" "" "" nil

abbrev tree : CallFrame
tree = frame "CALL" "0x0" "0x1" "" "" "" "" (
    cons (frame "CALL" "0x1" "0x2" "" "" "" "" (cons (leaf "") nil))
      (cons (frame "CALL" "0x1" "0x3" "" "" "" "" (cons (leaf "0xa9059cbb") nil)) nil))

ids_of_tree :
    frame_ids (flatten_trace_frames (λ a. a) tree)
    ≡ "trace-root" ∷ "trace-root.0" ∷ "trace-root.0.0" ∷ "trace-root.1" ∷ "trace-root.1.0" ∷ []
unfolding flatten_trace_frames
ids_of_tree = refl

collect_subtree_frame_ids-Subtree_example :
    collect_subtree_frame_ids (flatten_trace_frames (λ a. a) tree) (path_id "trace-root" (1 ∷ []))
    ≡ frame_ids (
        walk
          (λ a. a)
          (frame "CALL" "0x1" "0x3" "" "" "" "" (cons (leaf "0xa9059cbb") nil))
          (path_id "trace-root" (1 ∷ []))
          ""
          0
          [])
unfolding frame_at
collect_subtree_frame_ids-Subtree_example =
    collect_subtree_frame_ids-Subtree (λ a. a) tree
      (frame "CALL" "0x1" "0x3" "" "" "" "" (cons (leaf "0xa9059cbb") nil)) (1 ∷ []) "" 0 refl

sum_raw_amounts-total_example :
    parse_decimal (sum_raw_amounts ("999" ∷ "" ∷ "01" ∷ [])) ≡ some (total (999 ∷ 0 ∷ 1 ∷ []))
unfolding normalize_amount parse_decimal
sum_raw_amounts-total_example =
    sum_raw_amounts-total ("999" ∷ "" ∷ "01" ∷ []) (999 ∷ 0 ∷ 1 ∷ []) (refl, (refl, (refl, tt)))

one_thousand : sum_raw_amounts ("999" ∷ "" ∷ "1" ∷ []) ≡ "1000"
unfolding sum_raw_amounts
one_thousand = refl

abbrev flow_of : String → String → String → ℕ → Flow
flow_of id source target order = record {
  frame_id = id;
  action = "transfer";
  asset_address = "0xa";
  source = source;
  target = target;
  amount = "1";
  order = order;
}

-- Two flows that lead back to each other.
abbrev circling : Walk
circling = record {
  adjacency =
      ("0x1", flow_of "a" "0x1" "0x2" 1 ∷ []) ∷ ("0x2", flow_of "b" "0x2" "0x1" 2 ∷ []) ∷ [];
  seen = [];
  segments = [];
}

walk_branch-walk_levels_example :
    walk_branch "0x9" "0x8" "0x7" 5 (flow_of "a" "0x1" "0x2" 1) 0 circling
    ≡ walk_levels "0x9" "0x8" "0x7" (4 - 0) (flow_of "a" "0x1" "0x2" 1) circling
walk_branch-walk_levels_example =
    walk_branch-walk_levels "0x9" "0x8" "0x7" 5 0 (flow_of "a" "0x1" "0x2" 1) circling (omega arith)

both_flows :
    length (walk_branch "0x9" "0x8" "0x7" 5 (flow_of "a" "0x1" "0x2" 1) 0 circling).segments ≡ 2
unfolding walk_branch
both_flows = refl

abbrev query_conv : Conversions
query_conv = record {
  address_hex = decimal;
  hex_to_address = λ s. 0;
  hash_hex = decimal;
  hex_to_hash = λ s. 50;
  topic_address = λ t. t;
  uuid_string = decimal;
}

abbrev stored_summary : TxSummary
stored_summary = record {
  chain_id = 1;
  tx_hash = "50";
  block_number = "12";
  contains_candidate_interaction = true;
  contains_verified_interaction = true;
  contains_verified_strict_interaction = false;
  interaction_count = 2;
  strict_interaction_count = 0;
  protocol_count = 2;
  protocols = "aave_v3" ∷ "uniswap_v2" ∷ [];
}

abbrev stored_row : FlashloanTransaction
stored_row = tx_summary_to_db query_conv stored_summary

abbrev query_views : QueryViews
query_views = record {
  get_flashloan_transaction = λ _ _. ok (some stored_row);
  list_protocol_interactions_by_tx = λ _ _. ok [];
  list_interaction_legs = λ _. ok [];
  get_observed_transaction = λ _ _. ok none;
  block_time_stamp_by_num = λ _ _. ok (some 1700000000);
  get_transaction_trace = λ _ _. ok none;
  checksum = λ s. s;
  unmarshal = λ _. err "no trace";
  trace_provider_source = none;
}

abbrev some_hash : String
some_hash = "0x0123456789abcdef0123456789abcdef0123456789abcdef0123456789abcdef"

abbrev shown : TransactionDetailResponse
shown = with_graph query_conv query_views (
    response_of query_conv query_views (record { tx = stored_row; interactions = [] }) none
      1700000000 (trace_summary_of query_conv query_views 1 some_hash none))

shown_answer : get_transaction_detail query_conv query_views 1 some_hash ≡ ok (some shown)
unfolding get_transaction_detail tx_summary_to_db
shown_answer = refl

summary_names : All IsName stored_summary.protocols
summary_names = ((λ e. cc, ground arith, ground arith), ((λ e. cc, ground arith, ground arith), tt))

get_transaction_detail-Shows_example : Shows stored_summary shown
get_transaction_detail-Shows_example =
    get_transaction_detail-Shows query_conv query_views stored_summary summary_names 1 some_hash
      refl shown_answer
