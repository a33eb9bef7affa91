-- ===== src/Orchestrator/Runner/Counters.antt =====
-- The counters of a run against the findings that its observer was told of.
use flashloan_scanner.Base.{
  ℕ, ◌≡◌, refl, Bool, true, false, Option, none, some, [], arith, count_if, Outcome, ok, err,
}
use flashloan_scanner.Types.{TxSummary, VerifiedInteraction}
use flashloan_scanner.Orchestrator.Events.{
  RunEvent, on_protocol_started, on_protocol_progress, on_finding, on_protocol_completed,
  on_protocol_failed, started_event, finding_event, advance_current_block,
}
use flashloan_scanner.Orchestrator.Runner.{
  ProtocolRunner, Run, notify, notify_progress, count, count_finding, count_result, report,
  run_stages, finish, run_once, start_run,
}
use flashloan_scanner.Orchestrator.Runner.Invariants.{Preserves, run_stages-Preserves}
use flashloan_scanner.Orchestrator.Runner.Reports.{report_stats, report_events}

abbrev pub is_finding : RunEvent → Bool
is_finding (on_finding f) = true
is_finding (on_protocol_started _) = false
is_finding (on_protocol_progress _) = false
is_finding (on_protocol_completed _) = false
is_finding (on_protocol_failed _) = false

abbrev pub is_verified_finding : RunEvent → Bool
is_verified_finding (on_finding f) = f.verified
is_verified_finding (on_protocol_started _) = false
is_verified_finding (on_protocol_progress _) = false
is_verified_finding (on_protocol_completed _) = false
is_verified_finding (on_protocol_failed _) = false

abbrev pub is_strict_finding : RunEvent → Bool
is_strict_finding (on_finding f) = f.strict
is_strict_finding (on_protocol_started _) = false
is_strict_finding (on_protocol_progress _) = false
is_strict_finding (on_protocol_completed _) = false
is_strict_finding (on_protocol_failed _) = false

-- The counters of findings agree with the notifications.
pub record Agree {World : Type 0} (s : Run World) : Type 0 where
  pub all_findings : s.stats.findings ≡ count_if is_finding s.events
  pub verified_ones : s.stats.verified_findings ≡ count_if is_verified_finding s.events
  pub strict_ones : s.stats.strict_findings ≡ count_if is_strict_finding s.events

module _ {World : Type 0} (r : ProtocolRunner World) (chain_id from_block to_block : ℕ)
    (watched : r.observed ≡ true) where
  report-Agree-some :
      (summary : TxSummary) (s : Run World)
      → Agree s
      → Agree (report r chain_id from_block to_block (some summary) s).1
  unfolding finding_event count_finding
  report-Agree-some summary s h =
      let stats = report_stats r chain_id from_block to_block summary s in
      let events = report_events r chain_id from_block to_block summary s in
      record {
        all_findings = ground (arith, stats, events, watched, h.all_findings);
        verified_ones = ground (arith, stats, events, watched, h.verified_ones);
        strict_ones = ground (arith, stats, events, watched, h.strict_ones);
      }

  report-Agree :
      (summary : Option TxSummary) → Preserves Agree (report r chain_id from_block to_block summary)
  unfolding report
  report-Agree none = record { keeps = λ s h. h }
  report-Agree (some summary) = record { keeps = report-Agree-some summary }

  advance-Agree :
      (block : ℕ) → Preserves Agree (count {World = World} (advance_current_block block))
  unfolding count
  advance-Agree block = record {
    keeps = λ s h. record {
      all_findings = ground (arith, h.all_findings);
      verified_ones = ground (arith, h.verified_ones);
      strict_ones = ground (arith, h.strict_ones);
    };
  }

  result-Agree :
      (result : Option VerifiedInteraction)
      → Preserves Agree (count {World = World} (count_result result))
  unfolding count count_result
  result-Agree none = record { keeps = λ s h. h }
  result-Agree (some v) = record {
    keeps = λ s h. record {
      all_findings = h.all_findings;
      verified_ones = h.verified_ones;
      strict_ones = h.strict_ones;
    };
  }

  same_counters :
      (s t : Run World)
      → t.events ≡ s.events
      → t.stats.findings ≡ s.stats.findings
      → t.stats.verified_findings ≡ s.stats.verified_findings
      → t.stats.strict_findings ≡ s.stats.strict_findings
      → Agree s
      → Agree t
  same_counters s t e f v x h = record {
    all_findings = ground (arith, h.all_findings);
    verified_ones = ground (arith, h.verified_ones);
    strict_ones = ground (arith, h.strict_ones);
  }

  run_stages-Agree : Preserves Agree (run_stages r chain_id from_block to_block)
  unfolding count
  run_stages-Agree =
      run_stages-Preserves Agree r chain_id from_block to_block
        (λ s w h. same_counters s _ refl refl refl refl h)
        (λ n. record { keeps = λ s h. same_counters s _ refl refl refl refl h })
        (λ n. record { keeps = λ s h. same_counters s _ refl refl refl refl h }) advance-Agree
        result-Agree report-Agree

  started-Agree :
      (w : World)
      → Agree
          (notify r chain_id
            (started_event r.scanner_name r.protocol chain_id from_block to_block)
            (start_run r chain_id from_block to_block w [])).1
  unfolding notify
  started-Agree w = record {
    all_findings = ground (arith, watched);
    verified_ones = ground (arith, watched);
    strict_ones = ground (arith, watched);
  }

  finish-Agree :
      (answer : Outcome (Unit {0})) (s : Run World)
      → Agree s
      → Agree (finish r chain_id from_block to_block answer s)
  unfolding finish notify notify_progress
  finish-Agree (err e) s h = record {
    all_findings = ground (arith, watched, h.all_findings);
    verified_ones = ground (arith, watched, h.verified_ones);
    strict_ones = ground (arith, watched, h.strict_ones);
  }
  finish-Agree (ok u) s h = record {
    all_findings = ground (arith, watched, h.all_findings);
    verified_ones = ground (arith, watched, h.verified_ones);
    strict_ones = ground (arith, watched, h.strict_ones);
  }

  -- At the end of a run with an observer, the counters of findings, of verified and of strict ones
  -- are the numbers of such findings that the observer was notified of.
  pub run_once-Agree :
      (w : World) → let (answer, t) = run_once r chain_id from_block to_block w [] in Agree t
  unfolding run_once
  run_once-Agree w =
      let s =
        (notify r chain_id (started_event r.scanner_name r.protocol chain_id from_block to_block)
          (start_run r chain_id from_block to_block w [])).1 in
      let (answer, t) = run_stages r chain_id from_block to_block s in
      finish-Agree answer t (run_stages-Agree.keeps s (started-Agree w))
