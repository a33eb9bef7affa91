-- ===== src/Service/Jobs/Runs.antt =====
-- Any sequence of calls of a job manager.
use flashloan_scanner.Base.{
  sym, ℕ, String, some, List, [], ◌∷◌, ◌≡◌, refl, arith, All, ok, inl, inr, Outcome-cases,
  Bool-cases,
}
use flashloan_scanner.Base.Dict.{insert, string_eq, All-insert}
use flashloan_scanner.Service.Jobs.{JobEvent, ScanJobParams}
use flashloan_scanner.Service.Jobs.Manager.{Jobs, new_job, get_job_locked}
use flashloan_scanner.Service.Jobs.Channels.{JobManager, new_job_manager, subscribe, receive}
use flashloan_scanner.Service.Jobs.Calls.{
  Change, change, Call, creates, subscribes, unsubscribes, receives, changes, broadcast_all, step,
  run,
}
use flashloan_scanner.Service.Jobs.Sound.{IsSound, Keeps}
use flashloan_scanner.Service.Jobs.Kept.{change-Keeps}
use flashloan_scanner.Service.Jobs.Creation.{
  sum_of-new_protocols, create_job-Creates, create_job-accepted, accepts,
}
use flashloan_scanner.Base.Distinct.{unseen}
use flashloan_scanner.Service.Jobs.Safety.{IsSafe, broadcast-IsSafe, receive-IsSafe}
use flashloan_scanner.Service.Jobs.Subscriptions.{with_channel-IsSafe, unsubscribe-IsSafe}

pub record Inv (m : JobManager) : Type 0 where
  pub jobs : All IsSound m.jobs
  pub channels : IsSafe m

new_job-IsSound :
    (id : String) (params : ScanJobParams) (ps : List String) → IsSound (id, new_job id params ps)
unfolding new_job
new_job-IsSound id params ps = record {
  keyed = refl;
  few_logs = omega arith;
  candidates = sym (sum_of-new_protocols _ params ps [] (λ s c v t. c) refl);
  verified = sym (sum_of-new_protocols _ params ps [] (λ s c v t. v) refl);
  strict = sym (sum_of-new_protocols _ params ps [] (λ s c v t. t) refl);
}

broadcast_all-Inv :
    (events : List JobEvent) (m : JobManager)
    → Inv m
    → (after : JobManager) × (broadcast_all events m ≡ some after) × Inv after
unfolding broadcast_all
broadcast_all-Inv [] m h = (m, refl, h)
broadcast_all-Inv (event ∷ events) m h =
    let (sent, one, safe) = broadcast-IsSafe event m h.channels in
    let told : JobManager = record m { channels = sent } in
    let (after, rest, inv) =
      broadcast_all-Inv events told (record { jobs = h.jobs; channels = safe }) in
    (after, rw (broadcast_all, one) rest, inv)

other_jobs-IsSafe : (m : JobManager) (jobs : Jobs) → IsSafe m → IsSafe (record m { jobs = jobs })
other_jobs-IsSafe m jobs s = record {
  registered = s.registered;
  bounded = s.bounded;
  fresh = s.fresh;
}

changes-Inv :
    (c : Change) (clock : ℕ → ℕ) (m : JobManager)
    → Inv m
    → (after : JobManager) × (step (changes c clock) m ≡ some after) × Inv after
unfolding step
changes-Inv c clock m h = elim (Outcome-cases (change c clock m.jobs)) [
  | inr (e, failed) ↦ (m, rw (step, failed) refl, h)
  | inl ((jobs, events), done) ↦
      let sound : Keeps (ok (jobs, events)) = rw done at (change-Keeps c clock m.jobs h.jobs) in
      let (after, told, inv) =
        broadcast_all-Inv events (record m { jobs = jobs })
          (record { jobs = sound.kept; channels = other_jobs-IsSafe m jobs h.channels }) in
      (after, rw (step, done) told, inv)
]

subscribes-Inv :
    (id : String) (buffer : ℕ) (m : JobManager)
    → Inv m
    → (after : JobManager) × (step (subscribes id buffer) m ≡ some after) × Inv after
unfolding step subscribe
subscribes-Inv id buffer m h = elim (Outcome-cases (get_job_locked id m.jobs)) [
  | inr (e, missing) ↦ (m, rw (step, subscribe, missing) refl, h)
  | inl (job, found) ↦ (
    _,
    rw (step, subscribe, found) refl,
    record { jobs = h.jobs; channels = with_channel-IsSafe m id buffer h.channels },
  )
]

creates-Inv :
    (id : String) (params : ScanJobParams) (m : JobManager)
    → Inv m
    → (after : JobManager) × (step (creates id params) m ≡ some after) × Inv after
unfolding step
creates-Inv id params m h = elim (Bool-cases (accepts params m.jobs)) [
  | inl good ↦
      let job = new_job id params (unseen [] params.protocols) in
      (
        record m { jobs = insert ⦃e = string_eq⦄ id job m.jobs },
        rw (step, create_job-accepted id params m.jobs good) refl,
        record {
          jobs =
              All-insert ⦃e = string_eq⦄ IsSound id job m.jobs
                (new_job-IsSound id params (unseen [] params.protocols)) h.jobs;
          channels = other_jobs-IsSafe m _ h.channels;
        },
      )
  | inr bad ↦
      let (e, failed) = (create_job-Creates id params m.jobs).1 bad in
      (m, rw (step, failed) refl, h)
]

receive-jobs : (ch : ℕ) (m : JobManager) → (receive ch m).1.jobs ≡ m.jobs
unfolding receive
receive-jobs ch m = ground arith

step-Inv :
    (call : Call) (m : JobManager)
    → Inv m
    → (after : JobManager) × (step call m ≡ some after) × Inv after
unfolding step
step-Inv (creates id params) m h = creates-Inv id params m h
step-Inv (subscribes id buffer) m h = subscribes-Inv id buffer m h
step-Inv (unsubscribes id ch) m h =
    let (after, done, safe, same) = unsubscribe-IsSafe m id ch h.channels in
    (after, done, record { jobs = rw same h.jobs; channels = safe })
step-Inv (receives ch) m h = (
  _,
  refl,
  record { jobs = rw (receive-jobs ch m) h.jobs; channels = receive-IsSafe ch m h.channels },
)
step-Inv (changes c clock) m h = changes-Inv c clock m h

run_from-Inv :
    (calls : List Call) (m : JobManager)
    → Inv m
    → (after : JobManager) × (run calls m ≡ some after) × Inv after
unfolding run
run_from-Inv [] m h = (m, refl, h)
run_from-Inv (call ∷ calls) m h =
    let (next, one, inv) = step-Inv call m h in
    let (after, rest, end) = run_from-Inv calls next inv in (after, rw (run, one) rest, end)

new_job_manager-Inv : Inv new_job_manager
unfolding new_job_manager
new_job_manager-Inv = record {
  jobs = tt;
  channels = record { registered = λ job. tt; bounded = λ ch. tt; fresh = λ ch h. refl };
}

-- Any sequence of calls on a new JobManager, each of which runs to its end before the next, ends
-- without a panic. Then each job stands under its own id, has at most 200 log lines, and its three
-- totals are the sums over its protocols; each channel that is registered for a job is open and
-- made for it, no buffer holds more than its capacity, and the next channel is new.
pub run-Inv :
    (calls : List Call)
    → (after : JobManager) × (run calls new_job_manager ≡ some after) × Inv after
run-Inv calls = run_from-Inv calls new_job_manager new_job_manager-Inv
