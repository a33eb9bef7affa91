-- ===== src/Service/Jobs/Others.antt =====
-- What a notification leaves alone: other jobs, and the other protocols of its job.
use mathlib.Core.Path.{subst}
use flashloan_scanner.Base.{
  ℕ, String, false, some, ◌≡◌, ◌⊎◌, inl, inr, refl, sym, ◌∙◌, arith, ok, ◌&&◌, ◌>>=◌, count_if,
  str_eq, str_eq→eq, Bool-cases, Option-cases, Outcome-cases,
}
use flashloan_scanner.Base.Dict.{lookup, insert, string_eq, lookup-insert, lookup-insert_self}
use flashloan_scanner.Types.{Protocol}
use flashloan_scanner.Orchestrator.Events.{
  RunEvent, ProtocolRunStarted, ProtocolRunProgress, ProtocolFinding, ProtocolRunCompleted,
  ProtocolRunFailed, on_protocol_started, on_protocol_progress, on_finding, on_protocol_completed,
  on_protocol_failed,
}
use flashloan_scanner.Service.Jobs.{JobStatus, ScanJobState, ProtocolJobState}
use flashloan_scanner.Service.Jobs.Manager.{
  Jobs, get_job_locked, get_protocol_locked, append_log_locked, recalculate_job_totals_locked,
}
use flashloan_scanner.Service.Jobs.Updates.{
  Clock, record_protocol_started, record_protocol_progress, record_finding,
  record_protocol_completed, record_protocol_failed, tell_protocol,
}
use flashloan_scanner.Service.Jobs.Calls.{change}
use flashloan_scanner.Service.Jobs.Observer.{recorded, observe, protocol_of}
use flashloan_scanner.Service.Jobs.Recording.{Shown}

get_protocol_locked-job :
    (id : String) (protocol : Protocol) (jobs : Jobs) {job : ScanJobState}
    {state : ProtocolJobState}
    → get_protocol_locked id protocol jobs ≡ ok (job, state)
    → lookup ⦃e = string_eq⦄ id jobs ≡ some job
unfolding get_protocol_locked get_job_locked
get_protocol_locked-job id protocol jobs {job} h =
    elim (Option-cases (lookup ⦃e = string_eq⦄ id jobs)) [
      | inl missing ↦
          absurd (ground (arith, rw (get_protocol_locked, get_job_locked, missing, ◌>>=◌) at h))
      | inr (found, there) ↦ elim (Option-cases (lookup ⦃e = string_eq⦄ protocol found.protocols)) [
        | inl unknown ↦ cc (rw (get_protocol_locked, get_job_locked, there, ◌>>=◌, unknown) at h)
        | inr (state, known) ↦
            let same = rw (get_protocol_locked, get_job_locked, there, ◌>>=◌, known) at h in
            cc (there, same)
      ]
    ]

some_inj : {A : Type 0} (a b : A) → some a ≡ some b → a ≡ b
some_inj a b e = cc

-- The jobs with one of them stored anew, with one protocol changed and findings of no other
-- protocol added.
pub record Touches (id : String) (protocol : Protocol) (before after : Jobs) : Type 0 where
  pub job : ScanJobState
  pub changed : ScanJobState
  pub state : ProtocolJobState
  pub has_job : lookup ⦃e = string_eq⦄ id before ≡ some job
  pub stored : after ≡ insert ⦃e = string_eq⦄ id changed before
  pub its_protocols : changed.protocols ≡ insert ⦃e = string_eq⦄ protocol state job.protocols
  pub its_findings :
      (other : Protocol)
      → str_eq protocol other ≡ false
      → count_if (λ f. str_eq f.protocol other) changed.findings
        ≡ count_if (λ f. str_eq f.protocol other) job.findings

module _ (id : String) (clock : Clock) (jobs : Jobs) where
  protocol_started-Touches :
      (e : ProtocolRunStarted)
      → (observe id clock (on_protocol_started e) jobs ≡ jobs)
        ⊎ Touches id e.protocol jobs (observe id clock (on_protocol_started e) jobs)
  unfolding observe recorded change record_protocol_started tell_protocol append_log_locked
  protocol_started-Touches e = elim (Outcome-cases (get_protocol_locked id e.protocol jobs)) [
    | inr (message, missing) ↦ inl (rw (observe, missing) refl)
    | inl ((job, state), found) ↦ inr (
        rw (observe, found)
          (record {
            job = job;
            changed = _;
            state = _;
            has_job = get_protocol_locked-job id e.protocol jobs found;
            stored = refl;
            its_protocols = refl;
            its_findings = λ other different. refl;
          }))
  ]

  protocol_progress-Touches :
      (e : ProtocolRunProgress)
      → (observe id clock (on_protocol_progress e) jobs ≡ jobs)
        ⊎ Touches id e.protocol jobs (observe id clock (on_protocol_progress e) jobs)
  unfolding observe recorded change record_protocol_progress recalculate_job_totals_locked
  protocol_progress-Touches e = elim (Outcome-cases (get_protocol_locked id e.protocol jobs)) [
    | inr (message, missing) ↦ inl (rw (observe, missing) refl)
    | inl ((job, state), found) ↦ inr (
        rw (observe, found)
          (record {
            job = job;
            changed = _;
            state = _;
            has_job = get_protocol_locked-job id e.protocol jobs found;
            stored = refl;
            its_protocols = refl;
            its_findings = λ other different. refl;
          }))
  ]

  finding-Touches :
      (e : ProtocolFinding)
      → (observe id clock (on_finding e) jobs ≡ jobs)
        ⊎ Touches id e.protocol jobs (observe id clock (on_finding e) jobs)
  unfolding observe recorded change record_finding append_log_locked
  finding-Touches e = elim (Outcome-cases (get_protocol_locked id e.protocol jobs)) [
    | inr (message, missing) ↦ inl (rw (observe, missing) refl)
    | inl ((job, state), found) ↦ inr (
        rw (observe, found)
          (record {
            job = job;
            changed = _;
            state = _;
            has_job = get_protocol_locked-job id e.protocol jobs found;
            stored = refl;
            its_protocols = refl;
            its_findings = λ other different. ground (arith, different);
          }))
  ]

  protocol_completed-Touches :
      (e : ProtocolRunCompleted)
      → (observe id clock (on_protocol_completed e) jobs ≡ jobs)
        ⊎ Touches id e.protocol jobs (observe id clock (on_protocol_completed e) jobs)
  unfolding observe recorded change record_protocol_completed tell_protocol append_log_locked
      recalculate_job_totals_locked
  protocol_completed-Touches e = elim (Outcome-cases (get_protocol_locked id e.protocol jobs)) [
    | inr (message, missing) ↦ inl (rw (observe, missing) refl)
    | inl ((job, state), found) ↦ inr (
        rw (observe, found)
          (record {
            job = job;
            changed = _;
            state = _;
            has_job = get_protocol_locked-job id e.protocol jobs found;
            stored = refl;
            its_protocols = refl;
            its_findings = λ other different. refl;
          }))
  ]

  protocol_failed-Touches :
      (e : ProtocolRunFailed)
      → (observe id clock (on_protocol_failed e) jobs ≡ jobs)
        ⊎ Touches id e.protocol jobs (observe id clock (on_protocol_failed e) jobs)
  unfolding observe recorded change record_protocol_failed tell_protocol append_log_locked
      recalculate_job_totals_locked
  protocol_failed-Touches e = elim (Outcome-cases (get_protocol_locked id e.protocol jobs)) [
    | inr (message, missing) ↦ inl (rw (observe, missing) refl)
    | inl ((job, state), found) ↦ inr (
        rw (observe, found)
          (record {
            job = job;
            changed = _;
            state = _;
            has_job = get_protocol_locked-job id e.protocol jobs found;
            stored = refl;
            its_protocols = refl;
            its_findings = λ other different. refl;
          }))
  ]

  observe-Touches :
      (event : RunEvent)
      → (observe id clock event jobs ≡ jobs)
        ⊎ Touches id (protocol_of event) jobs (observe id clock event jobs)
  observe-Touches (on_protocol_started e) = protocol_started-Touches e
  observe-Touches (on_protocol_progress e) = protocol_progress-Touches e
  observe-Touches (on_finding e) = finding-Touches e
  observe-Touches (on_protocol_completed e) = protocol_completed-Touches e
  observe-Touches (on_protocol_failed e) = protocol_failed-Touches e

module _ (id protocol : String) {status : JobStatus} {c v s n : ℕ} {before after : Jobs} where
  -- A change of another job.
  Shown-other_job :
      (job_id other : String)
      → str_eq job_id id ≡ false
      → Touches job_id other before after
      → Shown id protocol status c v s n before
      → Shown id protocol status c v s n after
  Shown-other_job job_id other different t h = record {
    job = h.job;
    state = h.state;
    has_job =
        rw (t.stored, lookup-insert ⦃e = string_eq⦄ job_id id t.changed before, different)
          h.has_job;
    has_state = h.has_state;
    in_status = h.in_status;
    candidates = h.candidates;
    verified = h.verified;
    strict = h.strict;
    all_findings = h.all_findings;
  }

  -- A change of another protocol of the job.
  Shown-other_protocol :
      (other : String)
      → str_eq other protocol ≡ false
      → Touches id other before after
      → Shown id protocol status c v s n before
      → Shown id protocol status c v s n after
  Shown-other_protocol other different t h =
      let same : t.job ≡ h.job = some_inj _ _ (sym t.has_job ∙ h.has_job) in
      record {
        job = t.changed;
        state = h.state;
        has_job = rw t.stored (lookup-insert_self ⦃e = string_eq⦄ id t.changed before);
        has_state =
            rw
              (
                t.its_protocols,
                lookup-insert ⦃e = string_eq⦄ other protocol t.state t.job.protocols,
                different,
                same,
              )
              h.has_state;
        in_status = h.in_status;
        candidates = h.candidates;
        verified = h.verified;
        strict = h.strict;
        all_findings = t.its_findings protocol different ∙ rw same h.all_findings;
      }

-- A notification of another run leaves what a job shows of a protocol.
pub other-Shown :
    (id protocol job_id : String) (clock : Clock) (event : RunEvent) (jobs : Jobs)
    {status : JobStatus} {c v s n : ℕ}
    → (str_eq job_id id && str_eq (protocol_of event) protocol) ≡ false
    → Shown id protocol status c v s n jobs
    → Shown id protocol status c v s n (observe job_id clock event jobs)
other-Shown id protocol job_id clock event jobs foreign h =
    elim (observe-Touches job_id clock jobs event) [
      | inl same ↦ rw same h
      | inr t ↦ elim (Bool-cases (str_eq job_id id)) [
        | inr other_job ↦ Shown-other_job id protocol job_id (protocol_of event) other_job t h
        | inl same_job ↦
            Shown-other_protocol id protocol (protocol_of event) (ground (arith, foreign, same_job))
              (subst (λ i. Touches i (protocol_of event) jobs (observe job_id clock event jobs))
                (str_eq→eq job_id id same_job) t)
              h
      ]
    ]
