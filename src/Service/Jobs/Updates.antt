-- ===== src/Service/Jobs/Updates.antt =====
-- job_manager.go, Mark... and Record...: what such an operation does to the jobs while it holds the
-- lock, and the events that it broadcasts once it has released it, the first one first. A job and
-- the state of a protocol are shared by pointers: a change of them is stored where they were found.
use flashloan_scanner.Base.{ℕ, String, some, List, [], ◌∷◌, text_append, Outcome, ok, ◌>>=◌}
use flashloan_scanner.Base.Dict.{insert, string_eq}
use flashloan_scanner.Types.{Protocol}
use flashloan_scanner.Service.Jobs.{
  status_running, status_completed, status_failed, Time, JobFinding, ProtocolJobState, ScanJobState,
  Payload, of_overview, of_log, of_snapshot, of_finding, JobEvent,
}
use flashloan_scanner.Service.Jobs.Manager.{
  append_log_locked, recalculate_job_totals_locked, clone_protocol_snapshot, clone_job_overview,
  Jobs, get_job_locked, get_protocol_locked,
}

-- The readings of time.Now in an operation, by their order.
abbrev pub Clock : Type 0
Clock = ℕ → Time

pub record ProtocolProgressInput : Type 0 where
  pub protocol : Protocol
  pub current_block : ℕ
  pub found_candidates : ℕ
  pub found_verified : ℕ
  pub found_strict : ℕ

abbrev event_of : String → String → Payload → Time → JobEvent
event_of kind job_id payload now = record {
  kind = kind;
  job_id = job_id;
  payload = payload;
  timestamp = now;
}

abbrev Update : Type 0
Update = Outcome (Jobs × List JobEvent)

abbrev save_job : String → ScanJobState → Jobs → Jobs
save_job job_id job jobs = insert ⦃e = string_eq⦄ job_id job jobs

abbrev pub save_protocol : Protocol → ProtocolJobState → ScanJobState → ScanJobState
save_protocol protocol state job = record job {
  protocols = insert ⦃e = string_eq⦄ protocol state job.protocols;
}

-- The end of an operation on a job: its log line, its snapshot and two events.
unfoldable pub tell_job : String → String → String → String → Clock → ScanJobState → Jobs → Update
unfolding append_log_locked clone_job_overview insert
tell_job job_id kind level message clock job jobs =
    let (entry, logged) = append_log_locked level "" 0 message (clock 1) job in
    ok (
      save_job job_id logged jobs,
      event_of kind job_id (of_overview (clone_job_overview logged)) (clock 2)
          ∷ event_of "log" job_id (of_log entry) (clock 3)
          ∷ [],
    )

unfoldable pub mark_job_started : String → Clock → Jobs → Update
unfolding get_job_locked tell_job
mark_job_started job_id clock jobs = get_job_locked job_id jobs >>= λ job.
    tell_job job_id "job_started" "info" "scan job started" clock
      (record job { status = status_running; started_at = clock 0 }) jobs

unfoldable pub mark_job_completed : String → Clock → Jobs → Update
unfolding get_job_locked tell_job
mark_job_completed job_id clock jobs = get_job_locked job_id jobs >>= λ job.
    tell_job job_id "job_completed" "info" "scan job completed" clock
      (record job { status = status_completed; finished_at = some (clock 0) }) jobs

unfoldable pub mark_job_failed : String → String → Clock → Jobs → Update
unfolding get_job_locked tell_job
mark_job_failed job_id message clock jobs = get_job_locked job_id jobs >>= λ job.
    tell_job job_id "job_failed" "error" (text_append "scan job failed: " message) clock
      (record job { status = status_failed; error = message; finished_at = some (clock 0) }) jobs

-- The end of an operation on a protocol: its log line, two snapshots and three events.
unfoldable pub tell_protocol :
    String
    → String
    → String
    → ProtocolJobState
    → Protocol
    → ℕ
    → String
    → Clock
    → ScanJobState
    → Jobs
    → Update
unfolding append_log_locked clone_job_overview clone_protocol_snapshot insert
tell_protocol job_id kind level state protocol block message clock job jobs =
    let (entry, logged) = append_log_locked level protocol block message (clock 1) job in
    ok (
      save_job job_id logged jobs,
      event_of kind job_id (of_snapshot (clone_protocol_snapshot state)) (clock 2)
          ∷ event_of "job_progress" job_id (of_overview (clone_job_overview logged)) (clock 3)
          ∷ event_of "log" job_id (of_log entry) (clock 4)
          ∷ [],
    )

unfoldable pub record_protocol_started : String → Protocol → ℕ → ℕ → Clock → Jobs → Update
unfolding get_protocol_locked tell_protocol insert
record_protocol_started job_id protocol start_block end_block clock jobs =
    get_protocol_locked job_id protocol jobs >>= λ (job, old).
    let state : ProtocolJobState = record old {
      status = status_running;
      start_block = start_block;
      end_block = end_block;
      current_block = start_block;
      started_at = some (clock 0);
    } in
    tell_protocol job_id "protocol_progress" "info" state protocol start_block
      (text_append protocol " scan started") clock (save_protocol protocol state job) jobs

abbrev pub with_counts : ProtocolProgressInput → ProtocolJobState → ProtocolJobState
with_counts event state = record state {
  current_block = event.current_block;
  found_candidates = event.found_candidates;
  found_verified = event.found_verified;
  found_strict = event.found_strict;
}

unfoldable pub record_protocol_progress : String → ProtocolProgressInput → Clock → Jobs → Update
unfolding get_protocol_locked recalculate_job_totals_locked clone_job_overview
    clone_protocol_snapshot insert
record_protocol_progress job_id event clock jobs =
    get_protocol_locked job_id event.protocol jobs >>= λ (job, old).
    let state = with_counts event (record old { status = status_running }) in
    let counted = recalculate_job_totals_locked (save_protocol event.protocol state job) in
    ok (
      save_job job_id counted jobs,
      event_of "protocol_progress" job_id (of_snapshot (clone_protocol_snapshot state)) (clock 0)
          ∷ event_of "job_progress" job_id (of_overview (clone_job_overview counted)) (clock 1)
          ∷ [],
    )

unfoldable pub record_finding : String → JobFinding → Clock → Jobs → Update
unfolding get_protocol_locked append_log_locked insert
record_finding job_id finding clock jobs =
    get_protocol_locked job_id finding.protocol jobs >>= λ (job, old).
    let found : ScanJobState = record job { findings = finding ∷ job.findings } in
    let (entry, logged) =
      append_log_locked "info" finding.protocol finding.block_number
        (text_append finding.protocol (text_append " found tx " finding.tx_hash)) (clock 0)
        (save_protocol finding.protocol (record old { latest_finding = some finding }) found) in
    ok (
      save_job job_id logged jobs,
      event_of "finding" job_id (of_finding finding) (clock 1)
          ∷ event_of "log" job_id (of_log entry) (clock 2)
          ∷ [],
    )

unfoldable pub record_protocol_completed : String → ProtocolProgressInput → Clock → Jobs → Update
unfolding get_protocol_locked recalculate_job_totals_locked tell_protocol insert
record_protocol_completed job_id event clock jobs =
    get_protocol_locked job_id event.protocol jobs >>= λ (job, old).
    let state =
      with_counts event (record old { status = status_completed; finished_at = some (clock 0) }) in
    tell_protocol job_id "protocol_completed" "info" state event.protocol event.current_block
      (text_append event.protocol " scan completed") clock
      (recalculate_job_totals_locked (save_protocol event.protocol state job)) jobs

unfoldable pub record_protocol_failed : String → Protocol → ℕ → String → Clock → Jobs → Update
unfolding get_protocol_locked recalculate_job_totals_locked tell_protocol insert
record_protocol_failed job_id protocol current_block message clock jobs =
    get_protocol_locked job_id protocol jobs >>= λ (job, old).
    let state : ProtocolJobState = record old {
      status = status_failed;
      current_block = current_block;
      error = message;
      finished_at = some (clock 0);
    } in
    tell_protocol job_id "protocol_failed" "error" state protocol current_block
      (text_append protocol (text_append " scan failed: " message)) clock
      (recalculate_job_totals_locked (save_protocol protocol state job)) jobs
