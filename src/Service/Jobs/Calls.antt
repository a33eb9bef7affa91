-- ===== src/Service/Jobs/Calls.antt =====
-- The calls of a JobManager, each with its error or its answer left out, and a sequence of calls.
use flashloan_scanner.Base.{ℕ, String, Option, none, some, List, [], ◌∷◌, Outcome, ok, err}
use flashloan_scanner.Types.{Protocol}
use flashloan_scanner.Service.Jobs.{ScanJobParams, JobFinding, JobEvent}
use flashloan_scanner.Service.Jobs.Manager.{Jobs, create_job}
use flashloan_scanner.Service.Jobs.Updates.{
  Clock, ProtocolProgressInput, mark_job_started, mark_job_completed, mark_job_failed,
  record_protocol_started, record_protocol_progress, record_finding, record_protocol_completed,
  record_protocol_failed,
}
use flashloan_scanner.Service.Jobs.Channels.{JobManager, subscribe, unsubscribe, broadcast, receive}

-- The calls that change a job and broadcast.
pub data Change : Type 0 where
  starts completes : String → Change
  fails : String → String → Change
  protocol_starts : String → Protocol → ℕ → ℕ → Change
  protocol_goes protocol_completes : String → ProtocolProgressInput → Change
  finds : String → JobFinding → Change
  protocol_fails : String → Protocol → ℕ → String → Change

unfoldable pub change : Change → Clock → Jobs → Outcome (Jobs × List JobEvent)
unfolding mark_job_started mark_job_completed mark_job_failed record_protocol_started
    record_protocol_progress record_finding record_protocol_completed record_protocol_failed
change (starts job_id) = mark_job_started job_id
change (completes job_id) = mark_job_completed job_id
change (fails job_id message) = mark_job_failed job_id message
change (protocol_starts job_id protocol first last) =
    record_protocol_started job_id protocol first last
change (protocol_goes job_id event) = record_protocol_progress job_id event
change (protocol_completes job_id event) = record_protocol_completed job_id event
change (finds job_id finding) = record_finding job_id finding
change (protocol_fails job_id protocol block message) =
    record_protocol_failed job_id protocol block message

pub data Call : Type 0 where
  creates : String → ScanJobParams → Call
  subscribes : String → ℕ → Call
  unsubscribes : String → ℕ → Call
  receives : ℕ → Call
  changes : Change → Clock → Call

-- The broadcasts at the end of an operation.
unfoldable pub broadcast_all : List JobEvent → JobManager → Option JobManager
unfolding broadcast
broadcast_all [] m = some m
broadcast_all (event ∷ rest) m = elim (broadcast event m) [
  | none ↦ none
  | some told ↦ broadcast_all rest told
]

-- One call; `none` is a panic, and an error leaves everything as it was.
unfoldable pub step : Call → JobManager → Option JobManager
unfolding create_job subscribe unsubscribe receive change broadcast_all
step (creates job_id params) m = elim (create_job job_id params m.jobs) [
  | err e ↦ some m
  | ok (overview, jobs) ↦ some (record m { jobs = jobs })
]
step (subscribes job_id buffer) m = elim (subscribe job_id buffer m) [
  | err e ↦ some m
  | ok (ch, subscribed) ↦ some subscribed
]
step (unsubscribes job_id ch) m = unsubscribe job_id ch m
step (receives ch) m = some (receive ch m).1
step (changes c clock) m = elim (change c clock m.jobs) [
  | err e ↦ some m
  | ok (jobs, events) ↦ broadcast_all events (record m { jobs = jobs })
]

unfoldable pub run : List Call → JobManager → Option JobManager
unfolding step
run [] m = some m
run (call ∷ rest) m = elim (step call m) [ none ↦ none | some next ↦ run rest next ]
