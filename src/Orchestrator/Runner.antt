-- ===== src/Orchestrator/Runner.antt =====
-- `RunOnce` of protocol_runner.go. The stages that a runner is built from are functions on a `World`;
-- the calls of the observer are recorded, the newest first.
pub mod Invariants
pub mod Reports
pub mod Progress
pub mod Counters
pub mod Order
use flashloan_scanner.Base.{
  ℕ, suc, ◌+◌, String, Bool, true, false, not, ◌||◌, Option, none, some, List, [], ◌∷◌, ◌++◌,
  length, str_eq, any, ltb, if◌then◌else◌, Outcome, ok, err,
}
use flashloan_scanner.Base.Dict.{Dict, lookup, insert, string_eq}
use flashloan_scanner.Types.{
  Protocol, ObservedTransaction, CandidateInteraction, InteractionLeg, VerifiedInteraction,
  TxSummary,
}
use flashloan_scanner.Verifier.Convert.{Verdict}
use flashloan_scanner.Orchestrator.Events.{
  RunEvent, ProtocolRunStats, no_stats, advance_current_block, parse_uint64, started_event,
  progress_event, completed_event, failed_event, finding_event,
}

-- groupLegsByInteractionID
unfoldable pub group_legs_by_interaction_id :
    Dict String (List InteractionLeg) → List InteractionLeg → Dict String (List InteractionLeg)
unfolding lookup insert
group_legs_by_interaction_id grouped [] = grouped
group_legs_by_interaction_id grouped (leg ∷ legs) =
    let old : List InteractionLeg = elim (lookup ⦃e = string_eq⦄ leg.interaction_id grouped) [
      | none ↦ []
      | some l ↦ l
    ] in
    group_legs_by_interaction_id
      (insert ⦃e = string_eq⦄ leg.interaction_id (old ++ leg ∷ []) grouped) legs

module _ (World : Type 0) where
  pub record ProtocolRunner : Type 0 where
    pub scanner_name : String
    pub protocol : Protocol
    pub fetch_range : ℕ → ℕ → ℕ → World → Outcome (Unit {0}) × World
    pub list_observed_transactions_by_block_range :
        ℕ → ℕ → ℕ → World → Outcome (List ObservedTransaction) × World
    pub extract :
        ℕ
        → List ObservedTransaction
        → World
        → Outcome (List CandidateInteraction × List InteractionLeg) × World
    pub upsert_interactions : List CandidateInteraction → World → Outcome (Unit {0}) × World
    pub update_verification_result : VerifiedInteraction → World → Outcome (Unit {0}) × World
    pub replace_interaction_legs : String → List InteractionLeg → World → Outcome (Unit {0}) × World
    pub verify : ℕ → CandidateInteraction → World → Outcome Verdict × World
    pub aggregate_by_tx : ℕ → String → World → Outcome (Option TxSummary) × World
    -- Whether the observer is not nil.
    pub observed : Bool
    pub skip_tx_fetch : Bool
    -- The order in which Go ranges over a map, which the language leaves open.
    pub map_order : Dict String (List InteractionLeg) → Dict String (List InteractionLeg)

  -- The world, the observer's calls, and the variables of `RunOnce`.
  pub record Run : Type 0 where
    pub world : World
    pub events : List RunEvent
    pub stats : ProtocolRunStats
    pub progress_emitted : Bool
    pub last_progress_block : ℕ

  -- A piece of `RunOnce` that returns a value or an error.
  abbrev pub Step : Type 0 → Type 0
  Step A = Run → Outcome A × Run

module _ {World : Type 0} where
  abbrev pub return : {A : Type 0} → A → Step World A
  return a s = (ok a, s)

  infixl 5 ◌>>=◌ ◌>>◌
  unfoldable pub ◌>>=◌ : {A B : Type 0} → Step World A → (A → Step World B) → Step World B
  (m >>= f) s = elim (m s).0 [ err e ↦ (err e, (m s).1) | ok a ↦ f a (m s).1 ]

  unfoldable pub ◌>>◌ : {A B : Type 0} → Step World A → Step World B → Step World B
  unfolding ◌>>=◌
  m >> k = m >>= λ _. k

  -- A call of a stage.
  unfoldable pub call : {A : Type 0} → (World → Outcome A × World) → Step World A
  call f s = ((f s.world).0, record s { world = (f s.world).1 })

  unfoldable pub count : (ProtocolRunStats → ProtocolRunStats) → Step World (Unit {0})
  count f s = (ok tt, record s { stats = f s.stats })

unfoldable pub count_result : Option VerifiedInteraction → ProtocolRunStats → ProtocolRunStats
count_result none s = s
count_result (some result) s = record s {
  verified_interactions =
      if result.verified then suc s.verified_interactions else s.verified_interactions;
  strict_interactions = if result.strict then suc s.strict_interactions else s.strict_interactions;
}

unfoldable pub count_finding : TxSummary → ProtocolRunStats → ProtocolRunStats
unfolding parse_uint64
count_finding summary s = advance_current_block (parse_uint64 summary.block_number) (record s {
  findings = suc s.findings;
  verified_findings =
      if summary.contains_verified_interaction
      then suc s.verified_findings
      else s.verified_findings;
  strict_findings =
      if summary.contains_verified_strict_interaction
      then suc s.strict_findings
      else s.strict_findings;
})

module _ {World : Type 0} (r : ProtocolRunner World) (chain_id : ℕ) where
  unfoldable pub notify : RunEvent → Step World (Unit {0})
  notify event s = (ok tt, if r.observed then record s { events = event ∷ s.events } else s)

  unfoldable pub replace_groups : Dict String (List InteractionLeg) → Step World (Unit {0})
  unfolding ◌>>◌ call
  replace_groups [] = return tt
  replace_groups ((id, legs) ∷ groups) = do
    call (r.replace_interaction_legs id legs)
    replace_groups groups

  unfoldable pub store_result : Option VerifiedInteraction → Step World (Unit {0})
  unfolding call
  store_result none = return tt
  store_result (some result) = call (r.update_verification_result result)

  -- Behind the test of `verifiedLegs` against nil.
  unfoldable pub store_legs : String → Option (List InteractionLeg) → Step World (Unit {0})
  unfolding call
  store_legs id none = return tt
  store_legs id (some legs) = call (r.replace_interaction_legs id legs)

  -- A round of the loop over the interactions, before the test of `seenTxs`.
  unfoldable pub verify_one : CandidateInteraction → Step World (Unit {0})
  unfolding ◌>>=◌ ◌>>◌ call count store_result store_legs count_result parse_uint64
  verify_one interaction = do
    count (advance_current_block (parse_uint64 interaction.block_number))
    (result, legs) ← call (r.verify chain_id interaction)
    store_result result
    store_legs interaction.interaction_id legs
    count (count_result result)

  -- The loop over the interactions, with the keys of `seenTxs`; it returns what it appends to
  -- `orderedTxHashes`.
  unfoldable pub verify_all : List String → List CandidateInteraction → Step World (List String)
  unfolding ◌>>=◌ ◌>>◌ verify_one
  verify_all seen [] = return []
  verify_all seen (interaction ∷ rest) = do
    verify_one interaction
    elim (any (str_eq interaction.tx_hash) seen) [
      | true ↦ verify_all seen rest
      | false ↦ verify_all (interaction.tx_hash ∷ seen) rest >>= λ hashes.
          return (interaction.tx_hash ∷ hashes)
    ]

  module _ (from_block to_block : ℕ) where
    -- The notification with the counters as they are.
    unfoldable pub notify_progress : Step World (Unit {0})
    unfolding notify
    notify_progress s =
        notify (progress_event r.scanner_name r.protocol chain_id from_block to_block s.stats) s

    unfoldable pub mark_progress : Step World (Unit {0})
    mark_progress s =
        (ok tt, record s { progress_emitted = true; last_progress_block = s.stats.current_block })

    unfoldable pub report : Option TxSummary → Step World (Unit {0})
    unfolding ◌>>◌ count count_finding notify notify_progress mark_progress finding_event
    report none = return tt
    report (some summary) = do
      count (count_finding summary)
      notify (finding_event r.scanner_name r.protocol chain_id summary)
      notify_progress
      mark_progress

    unfoldable pub aggregate_all : List String → Step World (Unit {0})
    unfolding ◌>>=◌ ◌>>◌ call report
    aggregate_all [] = return tt
    aggregate_all (tx_hash ∷ rest) = do
      summary ← call (r.aggregate_by_tx chain_id tx_hash)
      report summary
      aggregate_all rest

    unfoldable pub process : List CandidateInteraction → List InteractionLeg → Step World (Unit {0})
    unfolding ◌>>=◌ ◌>>◌ call replace_groups verify_all aggregate_all group_legs_by_interaction_id
    process [] legs = return tt
    process (first ∷ rest) legs = do
      call (r.upsert_interactions (first ∷ rest))
      replace_groups (r.map_order (group_legs_by_interaction_id [] legs))
      hashes ← verify_all [] (first ∷ rest)
      aggregate_all hashes

    unfoldable pub scan : List ObservedTransaction → Step World (Unit {0})
    unfolding ◌>>=◌ ◌>>◌ call count process
    scan [] = return tt
    scan (first ∷ rest) = do
      (interactions, legs) ← call (r.extract chain_id (first ∷ rest))
      count (λ s. record s { candidate_interactions = length interactions })
      process interactions legs

    unfoldable pub fetch : Step World (Unit {0})
    unfolding call
    fetch =
        if not r.skip_tx_fetch then call (r.fetch_range chain_id from_block to_block) else return tt

    -- `RunOnce` between the first notification and the deferred function.
    unfoldable pub run_stages : Step World (Unit {0})
    unfolding ◌>>=◌ ◌>>◌ call count fetch scan
    run_stages = do
      fetch
      txs ← call (r.list_observed_transactions_by_block_range chain_id from_block to_block)
      count (λ s. record s { observed_transactions = length txs })
      scan txs

    abbrev pub reach_end : ProtocolRunStats → ProtocolRunStats
    reach_end s = if ltb s.current_block to_block then record s { current_block = to_block } else s

    -- The deferred function.
    unfoldable pub finish : Outcome (Unit {0}) → Run World → Run World
    unfolding notify notify_progress
    finish (err e) s =
        (notify
          (failed_event r.scanner_name r.protocol chain_id from_block to_block s.stats.current_block
            e)
          s).1
    finish (ok _) s =
        let needs_final_progress = not s.progress_emitted || ltb s.last_progress_block to_block in
        let s' = record s { stats = reach_end s.stats } in
        let s'' = if needs_final_progress then (notify_progress s').1 else s' in
        (notify (completed_event r.scanner_name r.protocol chain_id from_block to_block s''.stats)
          s'').1

    abbrev pub start_run : World → List RunEvent → Run World
    start_run w events = record {
      world = w;
      events = events;
      stats = no_stats;
      progress_emitted = false;
      last_progress_block = 0;
    }

    unfoldable pub run_once : World → List RunEvent → Outcome (Unit {0}) × Run World
    unfolding notify run_stages finish
    run_once w events =
        let s =
          (notify (started_event r.scanner_name r.protocol chain_id from_block to_block)
            (start_run w events)).1 in
        let (answer, t) = run_stages s in (answer, finish answer t)
