-- ===== src/Service/Jobs.antt =====
-- api/service/job_state.go: the states of the scan jobs. A `time.Time` is a number, and 0 is the
-- zero time.
pub mod Manager
pub mod Updates
pub mod Channels
pub mod Calls
pub mod Sound
pub mod Kept
pub mod Creation
pub mod Safety
pub mod Subscriptions
pub mod Runs
pub mod Observer
pub mod Race
pub mod Recording
pub mod Others
pub mod Displays
pub mod Following
use flashloan_scanner.Base.{ℕ, String, Bool, Option, List}
use flashloan_scanner.Base.Dict.{Dict}
use flashloan_scanner.Types.{Protocol}

-- type JobStatus string
abbrev pub JobStatus : Type 0
JobStatus = String

abbrev pub status_pending : JobStatus
status_pending = "pending"

abbrev pub status_running : JobStatus
status_running = "running"

abbrev pub status_completed : JobStatus
status_completed = "completed"

abbrev pub status_failed : JobStatus
status_failed = "failed"

abbrev pub Time : Type 0
Time = ℕ

pub record ScanJobParams : Type 0 where
  pub chain_id : ℕ
  pub start_block : ℕ
  pub end_block : ℕ
  pub trace_enabled : Bool
  pub protocols : List Protocol

pub record JobFinding : Type 0 where
  pub tx_hash : String
  pub protocol : Protocol
  pub block_number : ℕ
  pub candidate : Bool
  pub verified : Bool
  pub strict : Bool
  pub interaction_count : ℕ
  pub strict_interaction_count : ℕ
  pub protocol_count : ℕ
  pub protocols : List Protocol
  pub created_at : Time

pub record JobLogEntry : Type 0 where
  pub level : String
  pub message : String
  pub protocol : Protocol
  pub block_number : ℕ
  pub timestamp : Time

pub record ProtocolJobState : Type 0 where
  pub protocol : Protocol
  pub status : JobStatus
  pub start_block : ℕ
  pub end_block : ℕ
  pub current_block : ℕ
  pub found_candidates : ℕ
  pub found_verified : ℕ
  pub found_strict : ℕ
  pub latest_finding : Option JobFinding
  pub error : String
  pub started_at : Option Time
  pub finished_at : Option Time

pub record ScanJobState : Type 0 where
  pub job_id : String
  pub status : JobStatus
  pub chain_id : ℕ
  pub start_block : ℕ
  pub end_block : ℕ
  pub trace_enabled : Bool
  pub protocols : Dict Protocol ProtocolJobState
  pub findings : List JobFinding
  pub logs : List JobLogEntry
  pub total_candidates : ℕ
  pub total_verified : ℕ
  pub total_strict : ℕ
  pub started_at : Time
  pub finished_at : Option Time
  pub error : String

pub record ProtocolJobSnapshot : Type 0 where
  pub protocol : Protocol
  pub status : JobStatus
  pub start_block : ℕ
  pub end_block : ℕ
  pub current_block : ℕ
  pub found_candidates : ℕ
  pub found_verified : ℕ
  pub found_strict : ℕ
  pub latest_finding : Option JobFinding
  pub error : String
  pub started_at : Option Time
  pub finished_at : Option Time

pub record JobOverview : Type 0 where
  pub job_id : String
  pub status : JobStatus
  pub chain_id : ℕ
  pub start_block : ℕ
  pub end_block : ℕ
  pub trace_enabled : Bool
  pub total_candidates : ℕ
  pub total_verified : ℕ
  pub total_strict : ℕ
  pub completed_protocols : ℕ
  pub protocols : Dict String ProtocolJobSnapshot
  pub started_at : Time
  pub finished_at : Option Time
  pub error : String

-- What the code puts into the payload of an event.
pub data Payload : Type 0 where
  of_overview : JobOverview → Payload
  of_log : JobLogEntry → Payload
  of_snapshot : ProtocolJobSnapshot → Payload
  of_finding : JobFinding → Payload

pub record JobEvent : Type 0 where
  pub kind : String
  pub job_id : String
  pub payload : Payload
  pub timestamp : Time
