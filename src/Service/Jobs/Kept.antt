-- ===== src/Service/Jobs/Kept.antt =====
-- Every operation on a job keeps the invariant of the jobs.
use flashloan_scanner.Base.{ℕ, String, some, ◌∷◌, ◌≡◌, refl, All}
use flashloan_scanner.Base.Dict.{lookup, insert, string_eq, All-insert}
use flashloan_scanner.Types.{Protocol}
use flashloan_scanner.Service.Jobs.{
  ScanJobState, ProtocolJobState, status_running, status_completed, status_failed,
}
use flashloan_scanner.Service.Jobs.Manager.{Jobs, sum_of, recalculate_job_totals_locked}
use flashloan_scanner.Service.Jobs.Updates.{
  Clock, mark_job_started, mark_job_completed, mark_job_failed, record_protocol_started,
  record_protocol_progress, record_finding, record_protocol_completed, record_protocol_failed,
  with_counts, save_protocol,
}
use flashloan_scanner.Service.Jobs.Calls.{
  Change, change, starts, completes, fails, protocol_starts, protocol_goes, protocol_completes,
  finds, protocol_fails,
}
use flashloan_scanner.Service.Jobs.Sound.{
  IsSound, Keeps, same_totals, sum_of-insert, append_log-IsSound, recalculate-IsSound,
  tell_job-Keeps, tell_protocol-Keeps, with_job-Keeps, with_protocol-Keeps,
}

-- A change of a protocol's state that keeps its three counters.
update_protocol-IsSound :
    (id : String) (protocol : Protocol) (old new : ProtocolJobState) (job : ScanJobState)
    → lookup ⦃e = string_eq⦄ protocol job.protocols ≡ some old
    → new.found_candidates ≡ old.found_candidates
    → new.found_verified ≡ old.found_verified
    → new.found_strict ≡ old.found_strict
    → IsSound (id, job)
    → IsSound (id, record job { protocols = insert ⦃e = string_eq⦄ protocol new job.protocols })
update_protocol-IsSound id protocol old new job found c v s h =
    let kept : (f : ProtocolJobState → ℕ)
        → f new ≡ f old
        → sum_of f (insert ⦃e = string_eq⦄ protocol new job.protocols) ≡ sum_of f job.protocols =
      λ f same. sum_of-insert f protocol old new job.protocols found same in
    record {
      keyed = h.keyed;
      few_logs = h.few_logs;
      candidates = cc (h.candidates, kept (λ s. s.found_candidates) c);
      verified = cc (h.verified, kept (λ s. s.found_verified) v);
      strict = cc (h.strict, kept (λ s. s.found_strict) s);
    }

-- A change of a protocol's state, and then the totals.
recounted-IsSound :
    (id : String) (protocol : Protocol) (state : ProtocolJobState) (job : ScanJobState)
    → IsSound (id, job)
    → IsSound (id, recalculate_job_totals_locked (save_protocol protocol state job))
recounted-IsSound id protocol state job h =
    recalculate-IsSound id (save_protocol protocol state job) h.keyed h.few_logs

pub change-Keeps :
    (c : Change) (clock : Clock) (jobs : Jobs) → All IsSound jobs → Keeps (change c clock jobs)
unfolding change mark_job_started mark_job_completed mark_job_failed record_protocol_started
    record_protocol_progress record_finding record_protocol_completed record_protocol_failed
change-Keeps (starts id) clock jobs hs = with_job-Keeps id jobs _ hs λ job h.
    tell_job-Keeps id _ _ _ clock _ jobs (same_totals id job _ refl refl refl refl refl refl h) hs
change-Keeps (completes id) clock jobs hs = with_job-Keeps id jobs _ hs λ job h.
    tell_job-Keeps id _ _ _ clock _ jobs (same_totals id job _ refl refl refl refl refl refl h) hs
change-Keeps (fails id message) clock jobs hs = with_job-Keeps id jobs _ hs λ job h.
    tell_job-Keeps id _ _ _ clock _ jobs (same_totals id job _ refl refl refl refl refl refl h) hs
change-Keeps (protocol_starts id protocol first last) clock jobs hs =
    with_protocol-Keeps id protocol jobs _ hs λ job old found h.
      tell_protocol-Keeps id _ _ _ protocol first _ clock _ jobs
        (update_protocol-IsSound id protocol old _ job found refl refl refl h) hs
change-Keeps (protocol_goes id event) clock jobs hs =
    with_protocol-Keeps id event.protocol jobs _ hs λ job old found h. record {
      kept =
          All-insert ⦃e = string_eq⦄ IsSound id _ jobs
            (recounted-IsSound id event.protocol
              (with_counts event (record old { status = status_running })) job h)
            hs;
    }
change-Keeps (protocol_completes id event) clock jobs hs =
    with_protocol-Keeps id event.protocol jobs _ hs λ job old found h.
      tell_protocol-Keeps id _ _ _ event.protocol event.current_block _ clock _ jobs
        (recounted-IsSound id event.protocol
          (with_counts event
            (record old { status = status_completed; finished_at = some (clock 0) }))
          job h)
        hs
change-Keeps (finds id finding) clock jobs hs =
    with_protocol-Keeps id finding.protocol jobs _ hs λ job old found h. record {
      kept =
          All-insert ⦃e = string_eq⦄ IsSound id _ jobs
            (append_log-IsSound "info" finding.protocol _ finding.block_number (clock 0) id _ (
              update_protocol-IsSound id finding.protocol old _
                (record job { findings = finding ∷ job.findings }) found refl refl refl
                (same_totals id job _ refl refl refl refl refl refl h)))
            hs;
    }
change-Keeps (protocol_fails id protocol block message) clock jobs hs =
    with_protocol-Keeps id protocol jobs _ hs λ job old found h.
      tell_protocol-Keeps id _ _ _ protocol block _ clock _ jobs
        (recounted-IsSound id protocol
          (record old {
            status = status_failed;
            current_block = block;
            error = message;
            finished_at = some (clock 0);
          })
          job h)
        hs
