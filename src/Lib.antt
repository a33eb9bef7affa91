-- ===== src/Lib.antt =====
-- The flash-loan scanner (flashloan-scanner/) reads the transactions of a chain, takes the calls
-- that look like flash loans for candidates, verifies each candidate against the logs and the call
-- tree of its transaction, and sums the results up for each transaction. This library models the
-- part that decides: the extractors of candidates, the verifiers, the trace providers, the
-- registry of official contracts, the aggregator, the cursor, the runner that drives them, the
-- retry helper, and behind the API the scan jobs and the answer for one transaction, with the
-- summary of its call tree and the graph of its fund flows.
--
-- How the parts interact. RunLoop of a protocol runner reads the cursor, takes the next batch of
-- blocks and calls RunOnce, which lists the batch's transactions, extracts candidates, has the
-- verifier judge each one, stores the verdicts, has the aggregator sum up each transaction, and
-- notifies an observer. A trace verifier asks an event-based verifier first and then a trace
-- provider, which may cache or persist traces. The job manager of the API keeps the state of scan
-- jobs; its observer records there what a run notifies it of, and subscribers receive events over
-- channels. The trace summary flattens a call tree into frames with ids, and the fund-flow graph
-- is built from the frames and flows of a summary. The query service reads the rows that the
-- runner and the aggregator stored, and puts details, conclusion, trace summary and graph
-- together.
--
-- Files, and the sources they model (paths from the repository's root):
--
-- - Types: flashloan-scanner/scanner/types.go. Rows: the rows of
--   flashloan-scanner/database/scanner and database/event, with the columns that the modelled
--   parts use.
-- - Trace.Frames: CallFrame of flashloan-scanner/scanner/trace/trace.go and cloneCallFrame of
--   cached.go. Trace.Providers: TraceTransaction of cached.go (trace_cached) and of persisting.go
--   (trace_persisting).
-- - Verifier.Convert, Verifier.Logs: what the verifiers of flashloan-scanner/scanner/verifier
--   share, convertLeg and the loops matchFlashLoanEvents and matchSwapEvents. Verifier.Aave,
--   Verifier.Balancer and Verifier.Uniswap: Verify of aave_v3.go, balancer_v2.go and uniswap_v2.go
--   (verify), with their search for a matching event. Their child modules say what the picked
--   events say of the logs (Emitted), what a match is (Matching), what verdicts rest on (Sound)
--   and that they are consistent (Consistent).
-- - Verifier.TracePath: hasSuccessfulDirectCall, hasRepaymentCall and the has...Path functions of
--   the _trace.go files. Verifier.Traced: Verify of the three trace verifiers (verify_aave,
--   verify_balancer, verify_uniswap) and trace_fallback.go.
-- - Aggregator: flashloan-scanner/scanner/aggregator/simple.go (aggregate_by_tx, aggregate_range).
-- - Registry: flashloan-scanner/scanner/registry, memory.go and loader.go.
-- - Cursor: flashloan-scanner/scanner/cursor/gorm.go.
-- - Orchestrator.Events, Orchestrator.Runner and Orchestrator.Loop:
--   flashloan-scanner/scanner/orchestrator, observer.go and RunOnce (run_once) and RunLoop
--   (run_loop) of protocol_runner.go.
-- - Extractor.Aave: Extract (extract) of flashloan-scanner/scanner/extractor/aave_v3.go.
--   Extractor.Uniswap and Extractor.Balancer: Extract (extract_swaps, extract_loans) of
--   uniswap_v2.go and balancer_v2.go there, with Extractor.Shared for what they share.
--   Extractor.Balancer.Numbering and Groups are on the interactions that its events are grouped
--   in.
-- - Service.Jobs, under flashloan-scanner/api/service: job_state.go (Jobs), and of job_manager.go
--   the jobs (Manager), Mark... and Record... (Updates), subscribers and broadcasts (Channels) and
--   sequences of calls (Calls); observer.go (Observer). The other child modules say what they
--   prove: Sound, Kept, Safety, Subscriptions and Runs an invariant of all calls, Creation what
--   CreateJob makes, Recording, Others, Displays and Following what a run leaves in its job while
--   other runs go on, Race a panic.
-- - Service.Summary: trace_summary.go there, with its inputs (Input), the flattened tree
--   (Flatten), evidence and tags (Evidence) and the summary (Build); Paths and Subtrees relate ids
--   and tree. Service.Flows: fund_flow_graph.go, with amounts (Amounts), labels (Labels), the
--   order of flows (Order), the branches behind the receiver (Branches), nodes and segments
--   (Nodes), lanes (Lanes) and the graph (Graph). Service.Details and Service.Response: types of
--   query_service.go; Service.Conclusion: its roles, timeline, conclusion and splitProtocols;
--   Service.Reports: LoadReports of flashloan-scanner/scanner/report/report.go for one transaction
--   (load_report) and mapInteractionDetail; Service.Query: GetTransactionDetail
--   (get_transaction_detail), and Service.Query.Shown: what it shows of what the aggregator
--   stored.
-- - Retry: Do (do_retry) of flashloan-scanner/common/retry/operation.go.
-- - Base: tests on numbers, lists, maps, texts and decimal numbers.
--
-- Conventions. A function that may fail returns an Outcome; a pointer that may be nil is an
-- Option. The database, the node, the ABI decoder, the conversions of go-ethereum and uuid.Parse
-- are parameters: records of functions, which take and return a World where they may change it. A
-- big.Int of the modelled code is a uint256 or a block number, hence a natural number; block
-- numbers of the runner are uint64 and wrap around where the code adds. Text is lowered by ASCII
-- letters, which is all that addresses, hashes and the tested messages have. A Go map is an
-- association list; where the code ranges over one, the order is a parameter or is sorted away.
-- The channels and subscribers of the job manager are functions on channel numbers and job ids. An
-- operation of the job manager is two steps, the change under the lock and the broadcasts after
-- it; a sequence of calls takes them one after the other, and Race splits one of them. The
-- readings of time.Now in an operation are a function on their numbers.
--
-- Bounds and fuel. All functions are structurally recursive. RunLoop never returns without an
-- error; run_loop makes the number of rounds that it is given, and the theorems on it hold for any
-- number or say how many are enough. The digits of a number are computed with the number itself as
-- fuel, and reading them back shows that it is enough. The recursion of walkBranch has fuel 5: for
-- the four levels that it notes flows at, and for the calls one level deeper that return at once.
--
-- Not modelled: the HTTP API, the other queries of query_service.go, reports as text, JSON and
-- CSV, the SQL queries, the RPC clients, start-up and configuration, and the front end.
-- Overlapping calls of one provider or registry are taken one after the other, as their locks make
-- them, save that two overlapping first requests for one trace may both reach the node.
pub mod Base
pub mod Types
pub mod Rows
pub mod Trace
pub mod Verifier
pub mod Aggregator
pub mod Registry
pub mod Cursor
pub mod Orchestrator
pub mod Retry
pub mod Extractor
pub mod Service
