-- ===== src/Orchestrator/Events.antt =====
-- observer.go, and the counters and notifications of protocol_runner.go.
use flashloan_scanner.Base.{ℕ, ◌^◌, String, Bool, none, some, List, str_eq, ltb, if◌then◌else◌}
use flashloan_scanner.Base.Decimal.{parse_decimal}
use flashloan_scanner.Types.{Protocol, TxSummary}

pub record ProtocolRunStarted : Type 0 where
  pub scanner_name : String
  pub protocol : Protocol
  pub chain_id : ℕ
  pub start_block : ℕ
  pub end_block : ℕ

pub record ProtocolRunProgress : Type 0 where
  pub scanner_name : String
  pub protocol : Protocol
  pub chain_id : ℕ
  pub start_block : ℕ
  pub end_block : ℕ
  pub current_block : ℕ
  pub observed_transactions : ℕ
  pub candidate_interactions : ℕ
  pub verified_interactions : ℕ
  pub strict_interactions : ℕ
  pub findings : ℕ
  pub verified_findings : ℕ
  pub strict_findings : ℕ

pub record ProtocolFinding : Type 0 where
  pub scanner_name : String
  pub protocol : Protocol
  pub chain_id : ℕ
  pub tx_hash : String
  pub block_number : ℕ
  pub candidate : Bool
  pub verified : Bool
  pub strict : Bool
  pub interaction_count : ℕ
  pub strict_interaction_count : ℕ
  pub protocol_count : ℕ
  pub protocols : List Protocol

pub record ProtocolRunCompleted : Type 0 where
  pub scanner_name : String
  pub protocol : Protocol
  pub chain_id : ℕ
  pub start_block : ℕ
  pub end_block : ℕ
  pub current_block : ℕ
  pub observed_transactions : ℕ
  pub candidate_interactions : ℕ
  pub verified_interactions : ℕ
  pub strict_interactions : ℕ
  pub findings : ℕ
  pub verified_findings : ℕ
  pub strict_findings : ℕ

pub record ProtocolRunFailed : Type 0 where
  pub scanner_name : String
  pub protocol : Protocol
  pub chain_id : ℕ
  pub start_block : ℕ
  pub end_block : ℕ
  pub current_block : ℕ
  pub error : String

-- A call of a method of the observer.
pub data RunEvent : Type 0 where
  on_protocol_started : ProtocolRunStarted → RunEvent
  on_protocol_progress : ProtocolRunProgress → RunEvent
  on_finding : ProtocolFinding → RunEvent
  on_protocol_completed : ProtocolRunCompleted → RunEvent
  on_protocol_failed : ProtocolRunFailed → RunEvent

pub record ProtocolRunStats : Type 0 where
  pub current_block : ℕ
  pub observed_transactions : ℕ
  pub candidate_interactions : ℕ
  pub verified_interactions : ℕ
  pub strict_interactions : ℕ
  pub findings : ℕ
  pub verified_findings : ℕ
  pub strict_findings : ℕ

abbrev pub no_stats : ProtocolRunStats
no_stats = record {
  current_block = 0;
  observed_transactions = 0;
  candidate_interactions = 0;
  verified_interactions = 0;
  strict_interactions = 0;
  findings = 0;
  verified_findings = 0;
  strict_findings = 0;
}

abbrev pub advance_current_block : ℕ → ProtocolRunStats → ProtocolRunStats
advance_current_block block s =
    if ltb s.current_block block then record s { current_block = block } else s

-- `IsUint64` and `Uint64` of the number that the text spells.
unfoldable pub parse_uint64 : String → ℕ
unfolding parse_decimal
parse_uint64 raw = if str_eq raw "" then 0 else elim (parse_decimal raw) [
  | none ↦ 0
  | some value ↦ if ltb value (2 ^ 64) then value else 0
]

module _ (scanner_name : String) (protocol : Protocol) (chain_id from_block to_block : ℕ) where
  abbrev pub started_of : ProtocolRunStarted
  started_of = record {
    scanner_name = scanner_name;
    protocol = protocol;
    chain_id = chain_id;
    start_block = from_block;
    end_block = to_block;
  }

  abbrev pub started_event : RunEvent
  started_event = on_protocol_started (started_of)

  abbrev pub progress_of : ProtocolRunStats → ProtocolRunProgress
  progress_of stats = record {
    scanner_name = scanner_name;
    protocol = protocol;
    chain_id = chain_id;
    start_block = from_block;
    end_block = to_block;
    current_block = stats.current_block;
    observed_transactions = stats.observed_transactions;
    candidate_interactions = stats.candidate_interactions;
    verified_interactions = stats.verified_interactions;
    strict_interactions = stats.strict_interactions;
    findings = stats.findings;
    verified_findings = stats.verified_findings;
    strict_findings = stats.strict_findings;
  }

  abbrev pub progress_event : ProtocolRunStats → RunEvent
  progress_event stats = on_protocol_progress (progress_of stats)

  abbrev pub completed_of : ProtocolRunStats → ProtocolRunCompleted
  completed_of stats = record {
    scanner_name = scanner_name;
    protocol = protocol;
    chain_id = chain_id;
    start_block = from_block;
    end_block = to_block;
    current_block = stats.current_block;
    observed_transactions = stats.observed_transactions;
    candidate_interactions = stats.candidate_interactions;
    verified_interactions = stats.verified_interactions;
    strict_interactions = stats.strict_interactions;
    findings = stats.findings;
    verified_findings = stats.verified_findings;
    strict_findings = stats.strict_findings;
  }

  abbrev pub completed_event : ProtocolRunStats → RunEvent
  completed_event stats = on_protocol_completed (completed_of stats)

  abbrev pub failed_of : ℕ → String → ProtocolRunFailed
  failed_of current_block error = record {
    scanner_name = scanner_name;
    protocol = protocol;
    chain_id = chain_id;
    start_block = from_block;
    end_block = to_block;
    current_block = current_block;
    error = error;
  }

  abbrev pub failed_event : ℕ → String → RunEvent
  failed_event current_block error = on_protocol_failed (failed_of current_block error)

abbrev pub finding_of : String → Protocol → ℕ → TxSummary → ProtocolFinding
finding_of scanner_name protocol chain_id summary = record {
  scanner_name = scanner_name;
  protocol = protocol;
  chain_id = chain_id;
  tx_hash = summary.tx_hash;
  block_number = parse_uint64 summary.block_number;
  candidate = summary.contains_candidate_interaction;
  verified = summary.contains_verified_interaction;
  strict = summary.contains_verified_strict_interaction;
  interaction_count = summary.interaction_count;
  strict_interaction_count = summary.strict_interaction_count;
  protocol_count = summary.protocol_count;
  protocols = summary.protocols;
}

unfoldable pub finding_event : String → Protocol → ℕ → TxSummary → RunEvent
finding_event scanner_name protocol chain_id summary =
    on_finding (finding_of scanner_name protocol chain_id summary)
