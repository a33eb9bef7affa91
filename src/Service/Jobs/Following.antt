-- ===== src/Service/Jobs/Following.antt =====
-- A run of the protocol runner whose observer records it in a job.
use mathlib.Core.Path.{subst}
use flashloan_scanner.Base.{
  sym, ap, ◌∙◌, ℕ, suc, ◌+◌, String, true, Option, none, some, [], ◌≡◌, refl, arith, Outcome, ok,
  err, count_if,
}
use flashloan_scanner.Types.{TxSummary, VerifiedInteraction}
use flashloan_scanner.Orchestrator.Events.{
  started_event, finding_event, advance_current_block, ProtocolRunStats,
}
use flashloan_scanner.Orchestrator.Runner.{
  ProtocolRunner, Run, notify, notify_progress, count, count_finding, count_result, report,
  run_stages, finish, run_once, start_run,
}
use flashloan_scanner.Orchestrator.Runner.Invariants.{Preserves, run_stages-Preserves}
use flashloan_scanner.Orchestrator.Runner.Reports.{report_stats, report_events}
use flashloan_scanner.Orchestrator.Runner.Counters.{
  is_finding, is_verified_finding, is_strict_finding, run_once-Agree,
}
use flashloan_scanner.Service.Jobs.{
  JobStatus, status_pending, status_running, status_completed, status_failed,
}
use flashloan_scanner.Service.Jobs.Manager.{Jobs}
use flashloan_scanner.Service.Jobs.Updates.{Clock}
use flashloan_scanner.Service.Jobs.Observer.{Notes, observe_notes}
use flashloan_scanner.Service.Jobs.Recording.{Shown}
use flashloan_scanner.Service.Jobs.Displays.{
  Display, Displays, after_all, own, observe_notes-Displays,
}

counted_findings :
    (summary : TxSummary) (stats : ProtocolRunStats)
    → (count_finding summary stats).findings ≡ suc stats.findings
unfolding count_finding
counted_findings summary stats = ground arith

-- The status of the protocol once the run has returned.
abbrev pub final_status : Outcome (Unit {0}) → JobStatus
final_status (err e) = status_failed
final_status (ok u) = status_completed

module _ {World : Type 0} (r : ProtocolRunner World) (chain_id from_block to_block : ℕ)
    (watched : r.observed ≡ true) (base : ℕ) where
  abbrev display : JobStatus → ProtocolRunStats → Display
  display status stats = record {
    status = status;
    candidates = stats.findings;
    verified = stats.verified_findings;
    strict = stats.strict_findings;
    findings = base + stats.findings;
  }

  abbrev pub pending : Display
  pending = record {
    status = status_pending;
    candidates = 0;
    verified = 0;
    strict = 0;
    findings = base;
  }

  -- The notifications so far make a job show the counters of findings of the run.
  record Showing (status : JobStatus) (s : Run World) : Type 0 where
    shown : after_all pending s.events ≡ display status s.stats

  report-Showing-some :
      (summary : TxSummary) (s : Run World)
      → Showing status_running s
      → Showing status_running (report r chain_id from_block to_block (some summary) s).1
  unfolding finding_event
  report-Showing-some summary s h = record {
    shown =
        let stats = report_stats r chain_id from_block to_block summary s in
        let events = report_events r chain_id from_block to_block summary s in
        rw (stats, events, watched) (ground (arith, h.shown, counted_findings summary s.stats));
  }

  report-Showing :
      (summary : Option TxSummary)
      → Preserves (Showing status_running) (report r chain_id from_block to_block summary)
  unfolding report
  report-Showing none = record { keeps = λ s h. h }
  report-Showing (some summary) = record { keeps = report-Showing-some summary }

  same_findings :
      (s t : Run World)
      → t.events ≡ s.events
      → t.stats.findings ≡ s.stats.findings
      → t.stats.verified_findings ≡ s.stats.verified_findings
      → t.stats.strict_findings ≡ s.stats.strict_findings
      → Showing status_running s
      → Showing status_running t
  same_findings s t e f v x h = record { shown = rw (e, f, v, x) h.shown }

  advance-Showing :
      (block : ℕ)
      → Preserves (Showing status_running) (count {World = World} (advance_current_block block))
  unfolding count
  advance-Showing block = record {
    keeps = λ s h. same_findings s _ refl (ground arith) (ground arith) (ground arith) h;
  }

  result-Showing :
      (result : Option VerifiedInteraction)
      → Preserves (Showing status_running) (count {World = World} (count_result result))
  unfolding count count_result
  result-Showing none = record { keeps = λ s h. h }
  result-Showing (some v) = record { keeps = λ s h. same_findings s _ refl refl refl refl h }

  run_stages-Showing :
      Preserves (Showing status_running) (run_stages r chain_id from_block to_block)
  unfolding count
  run_stages-Showing =
      run_stages-Preserves (Showing status_running) r chain_id from_block to_block
        (λ s w h. same_findings s _ refl refl refl refl h)
        (λ n. record { keeps = λ s h. same_findings s _ refl refl refl refl h })
        (λ n. record { keeps = λ s h. same_findings s _ refl refl refl refl h }) advance-Showing
        result-Showing report-Showing

  started-Showing :
      (w : World)
      → Showing status_running
          (notify r chain_id
            (started_event r.scanner_name r.protocol chain_id from_block to_block)
            (start_run r chain_id from_block to_block w [])).1
  unfolding notify
  started-Showing w = record { shown = ground (arith, watched) }

  finish-Showing :
      (answer : Outcome (Unit {0})) (s : Run World)
      → Showing status_running s
      → Showing (final_status answer) (finish r chain_id from_block to_block answer s)
  unfolding finish notify notify_progress
  finish-Showing (err e) s h = record { shown = ground (arith, watched, h.shown) }
  finish-Showing (ok u) s h = record { shown = ground (arith, watched, h.shown) }

  -- When a run with an observer for a job returns, then the job shows the run's protocol as
  -- completed or, on an error, as failed, with the run's counters of findings, of verified and of
  -- strict ones, also after a failure; the job's findings of the protocol have grown by that many,
  -- and the counters are the numbers of findings notified. The job had the protocol pending with no
  -- finding counted, and the run's notifications may be interleaved in any way with notifications
  -- of other runs, for the other protocols of the job or for other jobs; no other call changes the
  -- jobs in between.
  pub run_once-Showing :
      (w : World) (id : String) (clocks : ℕ → Clock) (jobs : Jobs) (notes : Notes)
      → Shown id r.protocol "pending" 0 0 0 base jobs
      → own id r.protocol notes ≡ (run_once r chain_id from_block to_block w []).1.events
      → let (answer, t) = run_once r chain_id from_block to_block w [] in
        Shown id r.protocol
          (final_status answer)
          (count_if is_finding t.events)
          (count_if is_verified_finding t.events)
          (count_if is_strict_finding t.events)
          (base + count_if is_finding t.events)
          (observe_notes clocks notes jobs)
  unfolding run_once
  run_once-Showing w id clocks jobs notes h same =
      let s =
        (notify r chain_id (started_event r.scanner_name r.protocol chain_id from_block to_block)
          (start_run r chain_id from_block to_block w [])).1 in
      let (answer, t) = run_stages r chain_id from_block to_block s in
      let agree = run_once-Agree r chain_id from_block to_block watched w in
      let shows = finish-Showing answer t (run_stages-Showing.keeps s (started-Showing w)) in
      let end = observe_notes-Displays id r.protocol clocks notes pending jobs h in
      rw (sym agree.all_findings, sym agree.verified_ones, sym agree.strict_ones)
        (subst (λ d. Displays id r.protocol d (observe_notes clocks notes jobs))
          (ap (after_all pending) same ∙ shows.shown) end)
