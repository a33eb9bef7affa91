-- ===== src/Service/Jobs/Recording.antt =====
-- What a job shows of a protocol when its observer is notified.
use text.Mathlib.TextPositions.{eq_refl}
use flashloan_scanner.Base.{ℕ, suc, String, some, ◌≡◌, refl, arith, count_if, str_eq, ok, ◌>>=◌}
use flashloan_scanner.Base.Dict.{Dict, lookup, insert, string_eq, lookup-insert_self}
use flashloan_scanner.Types.{Protocol}
use flashloan_scanner.Orchestrator.Events.{
  ProtocolRunStarted, ProtocolRunProgress, ProtocolFinding, ProtocolRunCompleted, ProtocolRunFailed,
  on_protocol_started, on_protocol_progress, on_finding, on_protocol_completed, on_protocol_failed,
}
use flashloan_scanner.Service.Jobs.{
  JobStatus, ScanJobState, ProtocolJobState, status_running, status_completed, status_failed,
}
use flashloan_scanner.Service.Jobs.Manager.{
  Jobs, get_job_locked, get_protocol_locked, append_log_locked, recalculate_job_totals_locked,
}
use flashloan_scanner.Service.Jobs.Updates.{
  Clock, record_protocol_started, record_protocol_progress, record_finding,
  record_protocol_completed, record_protocol_failed, tell_protocol,
}
use flashloan_scanner.Service.Jobs.Calls.{change}
use flashloan_scanner.Service.Jobs.Observer.{recorded, observe}

-- The job has the protocol with that status and those counters, and that many findings of the
-- protocol.
pub record Shown (id : String) (protocol : Protocol) (status : JobStatus) (c v s findings : ℕ)
    (jobs : Jobs) : Type 0 where
  pub job : ScanJobState
  pub state : ProtocolJobState
  pub has_job : lookup ⦃e = string_eq⦄ id jobs ≡ some job
  pub has_state : lookup ⦃e = string_eq⦄ protocol job.protocols ≡ some state
  pub in_status : state.status ≡ status
  pub candidates : state.found_candidates ≡ c
  pub verified : state.found_verified ≡ v
  pub strict : state.found_strict ≡ s
  pub all_findings : count_if (λ f. str_eq f.protocol protocol) job.findings ≡ findings

-- A job and the state of a protocol that are stored are shown.
stored :
    (id : String) (protocol : Protocol) (job : ScanJobState) (state : ProtocolJobState)
    (states : Dict Protocol ProtocolJobState) (jobs : Jobs) {status : JobStatus} {c v s n : ℕ}
    → job.protocols ≡ insert ⦃e = string_eq⦄ protocol state states
    → state.status ≡ status
    → state.found_candidates ≡ c
    → state.found_verified ≡ v
    → state.found_strict ≡ s
    → count_if (λ f. str_eq f.protocol protocol) job.findings ≡ n
    → Shown id protocol status c v s n (insert ⦃e = string_eq⦄ id job jobs)
stored id protocol job state states jobs same status_same c_same v_same s_same n_same = record {
  job = job;
  state = state;
  has_job = lookup-insert_self ⦃e = string_eq⦄ id job jobs;
  has_state = rw same (lookup-insert_self ⦃e = string_eq⦄ protocol state states);
  in_status = status_same;
  candidates = c_same;
  verified = v_same;
  strict = s_same;
  all_findings = n_same;
}

get_protocol_locked-found :
    (id : String) (protocol : Protocol) (job : ScanJobState) (state : ProtocolJobState)
    (jobs : Jobs)
    → lookup ⦃e = string_eq⦄ id jobs ≡ some job
    → lookup ⦃e = string_eq⦄ protocol job.protocols ≡ some state
    → get_protocol_locked id protocol jobs ≡ ok (job, state)
unfolding get_protocol_locked get_job_locked
get_protocol_locked-found id protocol job state jobs e f =
    rw (get_protocol_locked, get_job_locked, e, ◌>>=◌, f) refl

module _ (id : String) (clock : Clock) (jobs : Jobs) {status : JobStatus} {c v s n : ℕ} where
  pub started-Shown :
      (e : ProtocolRunStarted)
      → Shown id e.protocol status c v s n jobs
      → Shown id e.protocol status_running c v s n (observe id clock (on_protocol_started e) jobs)
  unfolding observe recorded change record_protocol_started tell_protocol append_log_locked
  started-Shown e h =
      let found =
        get_protocol_locked-found id e.protocol h.job h.state jobs h.has_job h.has_state in
      rw (observe, found)
        (stored id e.protocol _ _ h.job.protocols jobs refl refl h.candidates h.verified h.strict
          h.all_findings)

  pub progress-Shown :
      (e : ProtocolRunProgress)
      → Shown id e.protocol status c v s n jobs
      → Shown id e.protocol status_running e.findings e.verified_findings e.strict_findings n
          (observe id clock (on_protocol_progress e) jobs)
  unfolding observe recorded change record_protocol_progress recalculate_job_totals_locked
  progress-Shown e h =
      let found =
        get_protocol_locked-found id e.protocol h.job h.state jobs h.has_job h.has_state in
      rw (observe, found)
        (stored id e.protocol _ _ h.job.protocols jobs refl refl refl refl refl h.all_findings)

  pub finding-Shown :
      (e : ProtocolFinding)
      → Shown id e.protocol status c v s n jobs
      → Shown id e.protocol status c v s (suc n) (observe id clock (on_finding e) jobs)
  unfolding observe recorded change record_finding append_log_locked
  finding-Shown e h =
      let found =
        get_protocol_locked-found id e.protocol h.job h.state jobs h.has_job h.has_state in
      rw (observe, found)
        (stored id e.protocol _ _ h.job.protocols jobs refl h.in_status h.candidates h.verified
          h.strict (ground (arith, eq_refl e.protocol, h.all_findings)))

  pub completed-Shown :
      (e : ProtocolRunCompleted)
      → Shown id e.protocol status c v s n jobs
      → Shown id e.protocol status_completed e.findings e.verified_findings e.strict_findings n
          (observe id clock (on_protocol_completed e) jobs)
  unfolding observe recorded change record_protocol_completed tell_protocol append_log_locked
      recalculate_job_totals_locked
  completed-Shown e h =
      let found =
        get_protocol_locked-found id e.protocol h.job h.state jobs h.has_job h.has_state in
      rw (observe, found)
        (stored id e.protocol _ _ h.job.protocols jobs refl refl refl refl refl h.all_findings)

  pub failed-Shown :
      (e : ProtocolRunFailed)
      → Shown id e.protocol status c v s n jobs
      → Shown id e.protocol status_failed c v s n (observe id clock (on_protocol_failed e) jobs)
  unfolding observe recorded change record_protocol_failed tell_protocol append_log_locked
      recalculate_job_totals_locked
  failed-Shown e h =
      let found =
        get_protocol_locked-found id e.protocol h.job h.state jobs h.has_job h.has_state in
      rw (observe, found)
        (stored id e.protocol _ _ h.job.protocols jobs refl refl h.candidates h.verified h.strict
          h.all_findings)
