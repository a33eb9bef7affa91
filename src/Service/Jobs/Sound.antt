-- ===== src/Service/Jobs/Sound.antt =====
-- The invariant of the jobs, and that every operation keeps it.
use flashloan_scanner.Base.{
  ℕ, zero, suc, ◌≤◌, String, some, List, [], ◌∷◌, ◌≡◌, refl, arith, length, take, All, Outcome, ok,
  err, inl, inr, Option-cases, ◌>>=◌,
}
use flashloan_scanner.Base.Dict.{Dict, lookup, insert, string_eq, All-insert, All-lookup}
use flashloan_scanner.Types.{Protocol}
use flashloan_scanner.Service.Jobs.{ScanJobState, ProtocolJobState, JobLogEntry, JobEvent}
use flashloan_scanner.Service.Jobs.Manager.{
  Jobs, sum_of, append_log_locked, recalculate_job_totals_locked, get_job_locked,
  get_protocol_locked,
}
use flashloan_scanner.Service.Jobs.Updates.{tell_job, tell_protocol}

pub record IsSound (e : String × ScanJobState) : Type 0 where
  pub keyed : e.1.job_id ≡ e.0
  pub few_logs : length e.1.logs ≤ 200
  pub candidates : e.1.total_candidates ≡ sum_of (λ s. s.found_candidates) e.1.protocols
  pub verified : e.1.total_verified ≡ sum_of (λ s. s.found_verified) e.1.protocols
  pub strict : e.1.total_strict ≡ sum_of (λ s. s.found_strict) e.1.protocols

-- A change of the totals' protocols that keeps one counter keeps its sum.
pub sum_of-insert :
    (f : ProtocolJobState → ℕ) (protocol : Protocol) (old new : ProtocolJobState)
    (states : Dict Protocol ProtocolJobState)
    → lookup ⦃e = string_eq⦄ protocol states ≡ some old
    → f new ≡ f old
    → sum_of f (insert ⦃e = string_eq⦄ protocol new states) ≡ sum_of f states
unfolding lookup insert
sum_of-insert f protocol old new [] found same = cc
sum_of-insert f protocol old new ((p, s) ∷ rest) found same =
    ground (arith, sum_of-insert f protocol old new rest)

length-take : {A : Type 0} (n : ℕ) (xs : List A) → length (take n xs) ≤ n
length-take zero xs = omega arith
length-take (suc n) [] = omega arith
length-take (suc n) (x ∷ xs) = omega (arith, length-take n xs)

pub append_log-IsSound :
    (level protocol message : String) (block now : ℕ) (id : String) (job : ScanJobState)
    → IsSound (id, job)
    → IsSound (id, (append_log_locked level protocol block message now job).1)
unfolding append_log_locked
append_log-IsSound level protocol message block now id job h =
    let entry : JobLogEntry = record {
      level = level;
      message = message;
      protocol = protocol;
      block_number = block;
      timestamp = now;
    } in
    record {
      keyed = h.keyed;
      few_logs = length-take {A = JobLogEntry} 200 (entry ∷ job.logs);
      candidates = h.candidates;
      verified = h.verified;
      strict = h.strict;
    }

-- A change outside the logs, the protocols and the totals.
pub same_totals :
    (id : String) (job new : ScanJobState)
    → new.job_id ≡ job.job_id
    → new.logs ≡ job.logs
    → new.protocols ≡ job.protocols
    → new.total_candidates ≡ job.total_candidates
    → new.total_verified ≡ job.total_verified
    → new.total_strict ≡ job.total_strict
    → IsSound (id, job)
    → IsSound (id, new)
same_totals id job new i l p c v s h = record {
  keyed = cc (i, h.keyed);
  few_logs = rw l h.few_logs;
  candidates = rw (c, p) h.candidates;
  verified = rw (v, p) h.verified;
  strict = rw (s, p) h.strict;
}

pub recalculate-IsSound :
    (id : String) (job : ScanJobState)
    → job.job_id ≡ id
    → length job.logs ≤ 200
    → IsSound (id, recalculate_job_totals_locked job)
unfolding recalculate_job_totals_locked
recalculate-IsSound id job keyed few = record {
  keyed = keyed;
  few_logs = few;
  candidates = refl;
  verified = refl;
  strict = refl;
}

-- An operation either fails or leaves all jobs sound.
abbrev jobs_of : Outcome (Jobs × List JobEvent) → Jobs
jobs_of (err e) = []
jobs_of (ok (jobs, events)) = jobs

pub record Keeps (update : Outcome (Jobs × List JobEvent)) : Type 0 where
  pub kept : All IsSound (jobs_of update)

pub tell_job-Keeps :
    (id kind level message : String) (clock : ℕ → ℕ) (job : ScanJobState) (jobs : Jobs)
    → IsSound (id, job)
    → All IsSound jobs
    → Keeps (tell_job id kind level message clock job jobs)
unfolding tell_job
tell_job-Keeps id kind level message clock job jobs h hs = record {
  kept =
      All-insert ⦃e = string_eq⦄ IsSound id _ jobs
        (append_log-IsSound level "" message 0 (clock 1) id job h) hs;
}

pub tell_protocol-Keeps :
    (id kind level : String) (state : ProtocolJobState) (protocol : Protocol) (block : ℕ)
    (message : String) (clock : ℕ → ℕ) (job : ScanJobState) (jobs : Jobs)
    → IsSound (id, job)
    → All IsSound jobs
    → Keeps (tell_protocol id kind level state protocol block message clock job jobs)
unfolding tell_protocol
tell_protocol-Keeps id kind level state protocol block message clock job jobs h hs = record {
  kept =
      All-insert ⦃e = string_eq⦄ IsSound id _ jobs
        (append_log-IsSound level protocol message block (clock 1) id job h) hs;
}

-- The lookup of a job in an operation on it.
pub with_job-Keeps :
    (id : String) (jobs : Jobs) (next : ScanJobState → Outcome (Jobs × List JobEvent))
    → All IsSound jobs
    → ((job : ScanJobState) → IsSound (id, job) → Keeps (next job))
    → Keeps (get_job_locked id jobs >>= next)
unfolding get_job_locked
with_job-Keeps id jobs next hs f = elim (Option-cases (lookup ⦃e = string_eq⦄ id jobs)) [
  | inl e ↦ rw (e, get_job_locked, ◌>>=◌) (record { kept = tt })
  | inr (job, e) ↦
      rw (e, get_job_locked, ◌>>=◌) (f job (All-lookup ⦃e = string_eq⦄ IsSound id job jobs e hs))
]

pub with_protocol-Keeps :
    (id : String) (protocol : Protocol) (jobs : Jobs)
    (next : ScanJobState × ProtocolJobState → Outcome (Jobs × List JobEvent))
    → All IsSound jobs
    → ((job : ScanJobState) (state : ProtocolJobState)
        → lookup ⦃e = string_eq⦄ protocol job.protocols ≡ some state
        → IsSound (id, job)
        → Keeps (next (job, state)))
    → Keeps (get_protocol_locked id protocol jobs >>= next)
unfolding get_protocol_locked get_job_locked
with_protocol-Keeps id protocol jobs next hs f =
    elim (Option-cases (lookup ⦃e = string_eq⦄ id jobs)) [
      | inl e ↦ rw (e, get_protocol_locked, get_job_locked, ◌>>=◌) (record { kept = tt })
      | inr (job, e) ↦ elim (Option-cases (lookup ⦃e = string_eq⦄ protocol job.protocols)) [
        | inl missing ↦ rw (e, missing, ◌>>=◌) (record { kept = tt })
        | inr (state, held) ↦
            rw (e, held, ◌>>=◌)
              (f job state held (All-lookup ⦃e = string_eq⦄ IsSound id job jobs e hs))
      ]
    ]
