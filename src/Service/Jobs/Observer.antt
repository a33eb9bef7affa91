-- ===== src/Service/Jobs/Observer.antt =====
-- observer.go: the observer of a run that records what it is told in a job. An error of the job
-- manager is dropped there.
use flashloan_scanner.Base.{ℕ, suc, length, String, List, [], ◌∷◌, ok, err}
use flashloan_scanner.Types.{Protocol}
use flashloan_scanner.Orchestrator.Events.{
  RunEvent, on_protocol_started, on_protocol_progress, on_finding, on_protocol_completed,
  on_protocol_failed,
}
use flashloan_scanner.Service.Jobs.{Time}
use flashloan_scanner.Service.Jobs.Manager.{Jobs}
use flashloan_scanner.Service.Jobs.Updates.{Clock}
use flashloan_scanner.Service.Jobs.Calls.{
  Change, change, protocol_starts, protocol_goes, protocol_completes, finds, protocol_fails,
}

-- The call of the manager that a notification becomes; `now` is the time of a finding.
unfoldable pub recorded : String → Time → RunEvent → Change
recorded job_id now (on_protocol_started event) =
    protocol_starts job_id event.protocol event.start_block event.end_block
recorded job_id now (on_protocol_progress event) = protocol_goes job_id (record {
  protocol = event.protocol;
  current_block = event.current_block;
  found_candidates = event.findings;
  found_verified = event.verified_findings;
  found_strict = event.strict_findings;
})
recorded job_id now (on_finding event) = finds job_id (record {
  tx_hash = event.tx_hash;
  protocol = event.protocol;
  block_number = event.block_number;
  candidate = event.candidate;
  verified = event.verified;
  strict = event.strict;
  interaction_count = event.interaction_count;
  strict_interaction_count = event.strict_interaction_count;
  protocol_count = event.protocol_count;
  protocols = event.protocols;
  created_at = now;
})
recorded job_id now (on_protocol_completed event) = protocol_completes job_id (record {
  protocol = event.protocol;
  current_block = event.current_block;
  found_candidates = event.findings;
  found_verified = event.verified_findings;
  found_strict = event.strict_findings;
})
recorded job_id now (on_protocol_failed event) =
    protocol_fails job_id event.protocol event.current_block event.error

-- What a notification does to the jobs; the first reading of the clock is the time of a finding.
unfoldable pub observe : String → Clock → RunEvent → Jobs → Jobs
unfolding recorded change
observe job_id clock event jobs =
    elim (change (recorded job_id (clock 0) event) (λ n. clock (suc n)) jobs) [
      | err e ↦ jobs
      | ok (after, events) ↦ after
    ]

abbrev pub protocol_of : RunEvent → Protocol
protocol_of (on_protocol_started e) = e.protocol
protocol_of (on_protocol_progress e) = e.protocol
protocol_of (on_finding e) = e.protocol
protocol_of (on_protocol_completed e) = e.protocol
protocol_of (on_protocol_failed e) = e.protocol

-- Notifications of any runs, each with the job of its observer, the newest first.
abbrev pub Notes : Type 0
Notes = List (String × RunEvent)

-- The notifications one after the other, as the lock of the manager orders them; each has its own
-- clock.
unfoldable pub observe_notes : (ℕ → Clock) → Notes → Jobs → Jobs
unfolding observe
observe_notes clocks [] jobs = jobs
observe_notes clocks ((job_id, event) ∷ earlier) jobs =
    observe job_id (clocks (length earlier)) event (observe_notes clocks earlier jobs)
