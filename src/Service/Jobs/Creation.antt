-- ===== src/Service/Jobs/Creation.antt =====
-- CreateJob: which parameters it accepts, and the job that it then makes.
use mathlib.Core.List.{append-nil, append_assoc}
use flashloan_scanner.Base.{
  eq_iff, ◌∙◌, ap, any-append, ℕ, String, Bool, true, false, not, ◌&&◌, some, List, [], ◌∷◌, ◌++◌,
  map, ◌≡◌, refl, sym, arith, All, all, any, ltb, ◌==◌, str_eq, ok, err, inl, inr, Bool-cases,
  ◌>>=◌, and-eq-true,
}
use flashloan_scanner.Base.Dict.{
  Dict, lookup, insert, string_eq, All-insert, lookup-insert, lookup-insert_self,
}
use flashloan_scanner.Base.Distinct.{unseen}
use flashloan_scanner.Types.{Protocol}
use flashloan_scanner.Service.Jobs.{ScanJobState, ProtocolJobState, ScanJobParams, JobOverview}
use flashloan_scanner.Service.Jobs.Manager.{
  Jobs, sum_of, new_protocols, new_job, create_job, normalize_all, normalize_protocols, is_active,
  pending_state, is_supported, clone_protocol_snapshot, get_job, clone_job_overview,
}

normalize_all-unseen :
    (seen ps : List Protocol)
    → all is_supported ps ≡ true
    → normalize_all seen ps ≡ ok (unseen seen ps)
unfolding normalize_all unseen
normalize_all-unseen seen [] h = refl
normalize_all-unseen seen (p ∷ ps) h =
    let (supported, rest) = and-eq-true (is_supported p) (all is_supported ps) h in
    elim (Bool-cases (any (str_eq p) seen)) [
      | inl old ↦ rw (supported, old, normalize_all, unseen) (normalize_all-unseen seen ps rest)
      | inr new ↦
          rw (supported, new, normalize_all, unseen, normalize_all-unseen (p ∷ seen) ps rest) refl
    ]

normalize_all-unsupported :
    (seen ps : List Protocol)
    → all is_supported ps ≡ false
    → (e : String) × (normalize_all seen ps ≡ err e)
unfolding normalize_all
normalize_all-unsupported seen [] h = cc
normalize_all-unsupported seen (p ∷ ps) h = elim (Bool-cases (is_supported p)) [
  | inr foreign ↦ rw (foreign, normalize_all) (_, refl)
  | inl supported ↦
      let rest : all is_supported ps ≡ false = ground arith in
      elim (Bool-cases (any (str_eq p) seen)) [
        | inl old ↦ rw (supported, old, normalize_all) (normalize_all-unsupported seen ps rest)
        | inr new ↦
            let (e, failed) = normalize_all-unsupported (p ∷ seen) ps rest in
            rw (supported, new, normalize_all, failed) (e, refl)
      ]
]

abbrev is_empty : List Protocol → Bool
is_empty [] = true
is_empty (p ∷ ps) = false

-- The parameters that CreateJob accepts while the jobs are as they are.
abbrev pub accepts : ScanJobParams → Jobs → Bool
accepts params jobs =
    not (params.chain_id == 0)
    && not (ltb params.end_block params.start_block)
    && not (is_empty params.protocols)
    && all is_supported params.protocols
    && not (any (λ e. is_active e.1) jobs)

-- What a job that has been created is like.
pub record Created (id : String) (params : ScanJobParams) (jobs after : Jobs)
    (overview : JobOverview) : Type 0 where
  pub found : get_job id after ≡ some overview
  pub protocols : map (λ e. e.0) overview.protocols ≡ unseen [] params.protocols
  pub only_active : All (λ e. is_active e.1 ≡ true → e.0 ≡ id) after
  pub others :
      (j : String)
      → str_eq id j ≡ false
      → lookup ⦃e = string_eq⦄ j after ≡ lookup ⦃e = string_eq⦄ j jobs

module _ (f : ProtocolJobState → ℕ) where
  sum_of-insert_zero :
      (p : Protocol) (state : ProtocolJobState) (states : Dict Protocol ProtocolJobState)
      → f state ≡ 0
      → sum_of f states ≡ 0
      → sum_of f (insert ⦃e = string_eq⦄ p state states) ≡ 0
  unfolding insert
  sum_of-insert_zero p state [] z h = omega arith
  sum_of-insert_zero p state ((q, old) ∷ rest) z h =
      ground (arith, sum_of-insert_zero p state rest z)

  pub sum_of-new_protocols :
      (params : ScanJobParams) (ps : List Protocol) (states : Dict Protocol ProtocolJobState)
      → ((state : ProtocolJobState)
          → state.found_candidates ≡ 0
          → state.found_verified ≡ 0
          → state.found_strict ≡ 0
          → f state ≡ 0)
      → sum_of f states ≡ 0
      → sum_of f (new_protocols params ps states) ≡ 0
  unfolding new_protocols
  sum_of-new_protocols params [] states z h = h
  sum_of-new_protocols params (p ∷ ps) states z h =
      sum_of-new_protocols params ps _ z (sum_of-insert_zero p _ states (z _ refl refl refl) h)

module _ {V : Type 0} where
  abbrev keys : Dict String V → List String
  keys states = map (λ e. e.0) states

  keys-insert :
      (k : String) (v : V) (m : Dict String V)
      → any (str_eq k) (keys m) ≡ false
      → keys (insert ⦃e = string_eq⦄ k v m) ≡ keys m ++ k ∷ []
  unfolding insert
  keys-insert k v [] h = refl
  keys-insert k v ((j, w) ∷ m) h = ground (arith, eq_iff j k, eq_iff k j, keys-insert k v m)

keys-new_protocols :
    (params : ScanJobParams) (seen ps : List Protocol) (states : Dict Protocol ProtocolJobState)
    → ((q : String) → any (str_eq q) (keys states) ≡ true → any (str_eq q) seen ≡ true)
    → keys (new_protocols params (unseen seen ps) states) ≡ keys states ++ unseen seen ps
unfolding new_protocols unseen
keys-new_protocols params seen [] states sub = sym (append-nil (keys states))
keys-new_protocols params seen (p ∷ ps) states sub = elim (Bool-cases (any (str_eq p) seen)) [
  | inl old ↦ rw (old, unseen) (keys-new_protocols params seen ps states sub)
  | inr new ↦
      let p_new : any (str_eq p) (keys states) ≡ false = ground (arith, sub p) in
      let added = keys-insert p (pending_state params p) states p_new in
      rw (new, unseen, new_protocols)
        (keys-new_protocols params (p ∷ seen) ps _ (λ q held.
            ground (arith, sub q, any-append (str_eq q) (keys states) (p ∷ []), rw added at held))
          ∙ ap (λ k. k ++ unseen (p ∷ seen) ps) added
          ∙ append_assoc (keys states) (p ∷ []) (unseen (p ∷ seen) ps))
]

map-snapshots :
    {A B : Type 0} (f : A → B) (m : Dict String A)
    → map (λ (e : String × B). e.0) (map (λ (e : String × A). (e.0, f e.1)) m) ≡ keys m
map-snapshots f [] = refl
map-snapshots f (x ∷ m) = cc (map-snapshots f m)

overview-protocols :
    (id : String) (params : ScanJobParams)
    → map (λ e. e.0) (clone_job_overview (new_job id params (unseen [] params.protocols))).protocols
      ≡ unseen [] params.protocols
unfolding clone_job_overview new_job
overview-protocols id params =
    map-snapshots clone_protocol_snapshot (new_protocols params (unseen [] params.protocols) [])
    ∙ keys-new_protocols params [] params.protocols [] (λ q held. held)

inactive-All :
    (id : String) (jobs : Jobs)
    → any (λ e. is_active e.1) jobs ≡ false
    → All (λ e. is_active e.1 ≡ true → e.0 ≡ id) jobs
inactive-All id [] h = tt
inactive-All id (e ∷ jobs) h =
    ((λ on. absurd (ground (arith, on))), inactive-All id jobs (ground arith))

normalize-supported :
    (ps : List Protocol)
    → is_empty ps ≡ false
    → all is_supported ps ≡ true
    → normalize_protocols ps ≡ ok (unseen [] ps)
unfolding normalize_protocols
normalize-supported [] some_one h = cc
normalize-supported (p ∷ ps) some_one h = normalize_all-unseen [] (p ∷ ps) h

pub create_job-accepted :
    (id : String) (params : ScanJobParams) (jobs : Jobs)
    → accepts params jobs ≡ true
    → let job = new_job id params (unseen [] params.protocols) in
      create_job id params jobs ≡ ok (clone_job_overview job, insert ⦃e = string_eq⦄ id job jobs)
unfolding create_job
create_job-accepted id params jobs h =
    let p : is_empty params.protocols ≡ false = ground (arith, h) in
    let s : all is_supported params.protocols ≡ true = ground (arith, h) in
    let c : (params.chain_id == 0) ≡ false = ground (arith, h) in
    let b : ltb params.end_block params.start_block ≡ false = ground (arith, h) in
    let a : any (λ e. is_active e.1) jobs ≡ false = ground (arith, h) in
    rw (create_job, c, b, normalize-supported params.protocols p s, ◌>>=◌, a) refl

normalize-unsupported :
    (ps : List Protocol)
    → (not (is_empty ps) && all is_supported ps) ≡ false
    → (e : String) × (normalize_protocols ps ≡ err e)
unfolding normalize_protocols
normalize-unsupported [] h = (_, refl)
normalize-unsupported (p ∷ ps) h = normalize_all-unsupported [] (p ∷ ps) (ground (arith, h))

create_job-refused :
    (id : String) (params : ScanJobParams) (jobs : Jobs)
    → accepts params jobs ≡ false
    → (e : String) × (create_job id params jobs ≡ err e)
unfolding create_job
create_job-refused id params jobs h = elim (Bool-cases (params.chain_id == 0)) [
  | inl no_chain ↦ rw (create_job, no_chain) (_, refl)
  | inr chain ↦ elim (Bool-cases (ltb params.end_block params.start_block)) [
    | inl empty ↦ rw (create_job, chain, empty) (_, refl)
    | inr blocks ↦
        elim (Bool-cases (not (is_empty params.protocols) && all is_supported params.protocols)) [
          | inr bad ↦
              let (e, failed) = normalize-unsupported params.protocols bad in
              rw (create_job, chain, blocks, failed, ◌>>=◌) (e, refl)
          | inl good ↦
              let p : is_empty params.protocols ≡ false = ground (arith, good) in
              let s : all is_supported params.protocols ≡ true = ground (arith, good) in
              let a : any (λ e. is_active e.1) jobs ≡ true = ground (arith, h) in
              rw (create_job, chain, blocks, normalize-supported params.protocols p s, ◌>>=◌, a)
                (_, refl)
        ]
  ]
]

get_job-insert :
    (id : String) (job : ScanJobState) (jobs : Jobs)
    → get_job id (insert ⦃e = string_eq⦄ id job jobs) ≡ some (clone_job_overview job)
unfolding get_job
get_job-insert id job jobs = rw (get_job, lookup-insert_self ⦃e = string_eq⦄ id job jobs) refl

-- CreateJob on parameters that it accepts: it makes a job for the distinct protocols, and no other
-- job is active then; on other parameters it fails.
pub create_job-Creates :
    (id : String) (params : ScanJobParams) (jobs : Jobs)
    → (accepts params jobs ≡ true
        → (overview : JobOverview) × (after : Jobs) × (create_job id params jobs
            ≡ ok (overview, after))
          × Created id params jobs after overview)
      × (accepts params jobs ≡ false → (e : String) × (create_job id params jobs ≡ err e))
unfolding create_job
create_job-Creates id params jobs = (
  λ h.
      let job = new_job id params (unseen [] params.protocols) in
      (
        clone_job_overview job,
        insert ⦃e = string_eq⦄ id job jobs,
        create_job-accepted id params jobs h,
        record {
          found = get_job-insert id job jobs;
          protocols = overview-protocols id params;
          only_active =
              All-insert ⦃e = string_eq⦄ _ id job jobs (λ on. refl)
                (inactive-All id jobs (ground (arith, h)));
          others = λ j other. rw (lookup-insert ⦃e = string_eq⦄ id j job jobs, other) refl;
        },
      ),
  create_job-refused id params jobs,
)
