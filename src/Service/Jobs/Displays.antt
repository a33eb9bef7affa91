-- ===== src/Service/Jobs/Displays.antt =====
-- What the notifications of one run make a job show, whatever other runs tell in between.
use mathlib.Core.Path.{subst}
use flashloan_scanner.Base.{
  ℕ, suc, String, ◌&&◌, List, [], ◌∷◌, ◌≡◌, length, str_eq, str_eq→eq, and-eq-true, if◌then◌else◌,
  Bool-cases, inl, inr,
}
use flashloan_scanner.Types.{Protocol}
use flashloan_scanner.Orchestrator.Events.{
  RunEvent, on_protocol_started, on_protocol_progress, on_finding, on_protocol_completed,
  on_protocol_failed,
}
use flashloan_scanner.Service.Jobs.{JobStatus, status_running, status_completed, status_failed}
use flashloan_scanner.Service.Jobs.Manager.{Jobs}
use flashloan_scanner.Service.Jobs.Updates.{Clock}
use flashloan_scanner.Service.Jobs.Observer.{observe, observe_notes, protocol_of, Notes}
use flashloan_scanner.Service.Jobs.Recording.{
  Shown, started-Shown, progress-Shown, finding-Shown, completed-Shown, failed-Shown,
}
use flashloan_scanner.Service.Jobs.Others.{other-Shown}

-- The status and counters of a protocol, and the number of its findings.
pub record Display : Type 0 where
  pub status : JobStatus
  pub candidates : ℕ
  pub verified : ℕ
  pub strict : ℕ
  pub findings : ℕ

abbrev pub after : RunEvent → Display → Display
after (on_protocol_started e) d = record d { status = status_running }
after (on_protocol_progress e) d = record {
  status = status_running;
  candidates = e.findings;
  verified = e.verified_findings;
  strict = e.strict_findings;
  findings = d.findings;
}
after (on_finding e) d = record d { findings = suc d.findings }
after (on_protocol_completed e) d = record {
  status = status_completed;
  candidates = e.findings;
  verified = e.verified_findings;
  strict = e.strict_findings;
  findings = d.findings;
}
after (on_protocol_failed e) d = record d { status = status_failed }

abbrev pub after_all : Display → List RunEvent → Display
after_all d [] = d
after_all d (event ∷ earlier) = after event (after_all d earlier)

-- The notifications for a protocol of a job.
abbrev pub own : String → Protocol → Notes → List RunEvent
own id protocol [] = []
own id protocol ((job_id, event) ∷ earlier) =
    if str_eq job_id id && str_eq (protocol_of event) protocol
    then event ∷ own id protocol earlier
    else own id protocol earlier

abbrev pub Displays : String → Protocol → Display → Jobs → Type 0
Displays id protocol d jobs =
    Shown id protocol d.status d.candidates d.verified d.strict d.findings jobs

own-Displays :
    (id : String) (clock : Clock) (event : RunEvent) (d : Display) (jobs : Jobs)
    → Displays id (protocol_of event) d jobs
    → Displays id (protocol_of event) (after event d) (observe id clock event jobs)
own-Displays id clock (on_protocol_started e) d jobs h = started-Shown id clock jobs e h
own-Displays id clock (on_protocol_progress e) d jobs h = progress-Shown id clock jobs e h
own-Displays id clock (on_finding e) d jobs h = finding-Shown id clock jobs e h
own-Displays id clock (on_protocol_completed e) d jobs h = completed-Shown id clock jobs e h
own-Displays id clock (on_protocol_failed e) d jobs h = failed-Shown id clock jobs e h

module _ (id : String) (protocol : Protocol) (clocks : ℕ → Clock) where
  own_note-Displays :
      (job_id : String) (clock : Clock) (event : RunEvent) (d : Display) (jobs : Jobs)
      → (job_id ≡ id)
      → (protocol_of event ≡ protocol)
      → Displays id protocol d jobs
      → Displays id protocol (after event d) (observe job_id clock event jobs)
  own_note-Displays job_id clock event d jobs same_job same_protocol h = rw same_job (
      subst (λ p. Displays id p (after event d) (observe id clock event jobs)) same_protocol
        (own-Displays id clock event d jobs (rw same_protocol h)))

  pub observe_notes-Displays :
      (notes : Notes) (d : Display) (jobs : Jobs)
      → Displays id protocol d jobs
      → Displays id protocol (after_all d (own id protocol notes)) (observe_notes clocks notes jobs)
  unfolding observe_notes
  observe_notes-Displays [] d jobs h = h
  observe_notes-Displays ((job_id, event) ∷ earlier) d jobs h =
      let before = observe_notes-Displays earlier d jobs h in
      elim (Bool-cases (str_eq job_id id && str_eq (protocol_of event) protocol)) [
        | inl mine ↦
            let (job, its) = and-eq-true _ _ mine in
            rw mine (
              own_note-Displays job_id (clocks (length earlier)) event _ _ (str_eq→eq job_id id job)
                (str_eq→eq (protocol_of event) protocol its) before)
        | inr foreign ↦
            rw foreign
              (other-Shown id protocol job_id (clocks (length earlier)) event _ foreign before)
      ]
