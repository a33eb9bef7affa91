-- ===== src/Service/Jobs/Manager.antt =====
-- job_manager.go: the jobs, how they are created, looked up and copied. A value of the model is never shared, so that the
-- copies of cloneFinding and cloneTimePtr are the values themselves.
use flashloan_scanner.Base.{
  ℕ, suc, ◌+◌, String, Bool, true, false, ◌||◌, Option, none, some, List, [], ◌∷◌, map, str_eq, any,
  take, ltb, ◌==◌, if◌then◌else◌, text_append, Outcome, ok, err, ◌>>=◌,
}
use flashloan_scanner.Base.Dict.{Dict, lookup, insert, string_eq}
use flashloan_scanner.Base.Decimal.{decimal}
use flashloan_scanner.Types.{Protocol, aave_v3, balancer_v2, uniswap_v2}
use flashloan_scanner.Service.Jobs.{
  status_pending, status_running, status_completed, Time, ScanJobParams, JobFinding, JobLogEntry,
  ProtocolJobState, ScanJobState, ProtocolJobSnapshot, JobOverview,
}

abbrev pub max_job_logs : ℕ
max_job_logs = 200

unfoldable pub append_log_locked :
    String → Protocol → ℕ → String → Time → ScanJobState → JobLogEntry × ScanJobState
append_log_locked level protocol block_number message now job =
    let entry : JobLogEntry = record {
      level = level;
      message = message;
      protocol = protocol;
      block_number = block_number;
      timestamp = now;
    } in
    (entry, record job { logs = take max_job_logs (entry ∷ job.logs) })

-- A sum over the protocols of a job.
abbrev pub sum_of : (ProtocolJobState → ℕ) → Dict Protocol ProtocolJobState → ℕ
sum_of f [] = 0
sum_of f ((protocol, state) ∷ rest) = f state + sum_of f rest

unfoldable pub recalculate_job_totals_locked : ScanJobState → ScanJobState
recalculate_job_totals_locked job = record job {
  total_candidates = sum_of (λ s. s.found_candidates) job.protocols;
  total_verified = sum_of (λ s. s.found_verified) job.protocols;
  total_strict = sum_of (λ s. s.found_strict) job.protocols;
}

unfoldable pub clone_protocol_snapshot : ProtocolJobState → ProtocolJobSnapshot
clone_protocol_snapshot state = record {
  protocol = state.protocol;
  status = state.status;
  start_block = state.start_block;
  end_block = state.end_block;
  current_block = state.current_block;
  found_candidates = state.found_candidates;
  found_verified = state.found_verified;
  found_strict = state.found_strict;
  latest_finding = state.latest_finding;
  error = state.error;
  started_at = state.started_at;
  finished_at = state.finished_at;
}

unfoldable pub completed_protocols : Dict Protocol ProtocolJobState → ℕ
completed_protocols [] = 0
completed_protocols ((protocol, state) ∷ rest) =
    if str_eq state.status status_completed
    then suc (completed_protocols rest)
    else completed_protocols rest

unfoldable pub clone_job_overview : ScanJobState → JobOverview
unfolding clone_protocol_snapshot completed_protocols
clone_job_overview job = record {
  job_id = job.job_id;
  status = job.status;
  chain_id = job.chain_id;
  start_block = job.start_block;
  end_block = job.end_block;
  trace_enabled = job.trace_enabled;
  total_candidates = job.total_candidates;
  total_verified = job.total_verified;
  total_strict = job.total_strict;
  completed_protocols = completed_protocols job.protocols;
  protocols = map (λ e. (e.0, clone_protocol_snapshot e.1)) job.protocols;
  started_at = job.started_at;
  finished_at = job.finished_at;
  error = job.error;
}

unfoldable pub is_supported : Protocol → Bool
is_supported protocol =
    str_eq protocol aave_v3 || str_eq protocol balancer_v2 || str_eq protocol uniswap_v2

-- The loop of normalizeProtocols, with the keys of `seen`.
unfoldable pub normalize_all : List Protocol → List Protocol → Outcome (List Protocol)
unfolding is_supported
normalize_all seen [] = ok []
normalize_all seen (protocol ∷ rest) = elim (is_supported protocol) [
  | false ↦ err (text_append "unsupported protocol " protocol)
  | true ↦ elim (any (str_eq protocol) seen) [
    | true ↦ normalize_all seen rest
    | false ↦ normalize_all (protocol ∷ seen) rest >>= λ out. ok (protocol ∷ out)
  ]
]

unfoldable pub normalize_protocols : List Protocol → Outcome (List Protocol)
unfolding normalize_all
normalize_protocols [] = err "at least one protocol is required"
normalize_protocols (protocol ∷ rest) = normalize_all [] (protocol ∷ rest)

abbrev pub is_active : ScanJobState → Bool
is_active job = str_eq job.status status_pending || str_eq job.status status_running

abbrev pub pending_state : ScanJobParams → Protocol → ProtocolJobState
pending_state params protocol = record {
  protocol = protocol;
  status = status_pending;
  start_block = params.start_block;
  end_block = params.end_block;
  current_block = 0;
  found_candidates = 0;
  found_verified = 0;
  found_strict = 0;
  latest_finding = none;
  error = "";
  started_at = none;
  finished_at = none;
}

unfoldable pub new_protocols :
    ScanJobParams → List Protocol → Dict Protocol ProtocolJobState → Dict Protocol ProtocolJobState
unfolding insert
new_protocols params [] states = states
new_protocols params (protocol ∷ rest) states =
    new_protocols params rest
      (insert ⦃e = string_eq⦄ protocol (pending_state params protocol) states)

unfoldable pub new_job : String → ScanJobParams → List Protocol → ScanJobState
unfolding new_protocols
new_job job_id params protocols = record {
  job_id = job_id;
  status = status_pending;
  chain_id = params.chain_id;
  start_block = params.start_block;
  end_block = params.end_block;
  trace_enabled = params.trace_enabled;
  protocols = new_protocols params protocols [];
  findings = [];
  logs = [];
  total_candidates = 0;
  total_verified = 0;
  total_strict = 0;
  started_at = 0;
  finished_at = none;
  error = "";
}

abbrev pub Jobs : Type 0
Jobs = Dict String ScanJobState

-- CreateJob; `job_id` is the answer of uuid.NewString.
unfoldable pub create_job : String → ScanJobParams → Jobs → Outcome (JobOverview × Jobs)
unfolding normalize_protocols new_job clone_job_overview insert decimal
create_job job_id params jobs = elim (params.chain_id == 0) [
  | true ↦ err "chain id is required"
  | false ↦ elim (ltb params.end_block params.start_block) [
    | true ↦ err (
        text_append "end block (" (
          text_append (decimal params.end_block) (
            text_append ") is less than start block ("
              (text_append (decimal params.start_block) ")"))))
    | false ↦ normalize_protocols params.protocols >>= λ protocols.
        elim (any (λ e. is_active e.1) jobs) [
          | true ↦ err "a scan job is already active"
          | false ↦
              let job = new_job job_id params protocols in
              ok (clone_job_overview job, insert ⦃e = string_eq⦄ job_id job jobs)
        ]
  ]
]

unfoldable pub get_job : String → Jobs → Option JobOverview
unfolding lookup clone_job_overview
get_job job_id jobs = elim (lookup ⦃e = string_eq⦄ job_id jobs) [
  | none ↦ none
  | some job ↦ some (clone_job_overview job)
]

unfoldable pub get_job_findings : String → Jobs → Option (List JobFinding)
unfolding lookup
get_job_findings job_id jobs = elim (lookup ⦃e = string_eq⦄ job_id jobs) [
  | none ↦ none
  | some job ↦ some job.findings
]

unfoldable pub get_job_locked : String → Jobs → Outcome ScanJobState
unfolding lookup
get_job_locked job_id jobs = elim (lookup ⦃e = string_eq⦄ job_id jobs) [
  | none ↦ err (text_append "job " (text_append job_id " not found"))
  | some job ↦ ok job
]

unfoldable pub get_protocol_locked :
    String → Protocol → Jobs → Outcome (ScanJobState × ProtocolJobState)
unfolding get_job_locked lookup
get_protocol_locked job_id protocol jobs = get_job_locked job_id jobs >>= λ job.
    elim (lookup ⦃e = string_eq⦄ protocol job.protocols) [
      | none ↦ err (
          text_append "protocol "
            (text_append protocol (text_append " not configured for job " job_id)))
      | some state ↦ ok (job, state)
    ]
