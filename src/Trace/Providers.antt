-- ===== src/Trace/Providers.antt =====
-- scanner/trace: trace.go, cached.go and persisting.go. A provider answers a transaction's hash with
-- the root of its call tree, with nil, or with an error. The node behind a provider, and the store
-- behind a sink, are a `World` that a call may change.
pub mod Caching
use flashloan_scanner.Base.{
  ℕ, String, Bool, Option, none, some, str_eq, if◌then◌else◌, Outcome, ok, err, List, [], ◌∷◌,
}
use flashloan_scanner.Base.Dict.{Dict, lookup, insert, string_eq}
use flashloan_scanner.Base.Text.{to_lower, trim_space}
use flashloan_scanner.Trace.Frames.{CallFrame, clone_call_frame}

-- A provider as a verifier sees it.
abbrev pub Provider : Type 0
Provider = String → Outcome (Option CallFrame)

module _ (World : Type 0) where
  -- A call of a provider that keeps a state.
  abbrev pub Fetch : Type 0
  Fetch = String → World → Outcome (Option CallFrame) × World

  pub record CachedProvider : Type 0 where
    pub base : Option Fetch
    pub cache : Dict String CallFrame

  -- `PersistTrace` of a sink.
  abbrev pub Persist : Type 0
  Persist = ℕ → String → CallFrame → World → Outcome (Unit {0}) × World

  pub record PersistingProvider : Type 0 where
    pub base : Option Fetch
    pub chain_id : ℕ
    pub sink : Option Persist

abbrev pub cache_key : String → String
cache_key tx_hash = to_lower (trim_space tx_hash)

module _ {World : Type 0} where
  -- What the first request for a transaction does with the base provider's answer.
  unfoldable pub remember :
      CachedProvider World
      → String
      → Outcome (Option CallFrame)
      → World
      → Outcome (Option CallFrame) × CachedProvider World × World
  remember p key (err e) w = (err e, p, w)
  remember p key (ok none) w = (ok none, p, w)
  remember p key (ok (some root)) w =
      let cloned = clone_call_frame root in
      (
        ok (some (clone_call_frame cloned)),
        record p { cache = insert ⦃e = string_eq⦄ key cloned p.cache },
        w,
      )

  pub fetch_through :
      CachedProvider World
      → Option (Fetch World)
      → String
      → World
      → Outcome (Option CallFrame) × CachedProvider World × World
  unfolding remember
  fetch_through p none tx_hash w = (err "trace provider is required", p, w)
  fetch_through p (some base) tx_hash w =
      let key = cache_key tx_hash in
      if str_eq key ""
      then (err "tx hash is required", p, w)
      else (elim (lookup ⦃e = string_eq⦄ key p.cache) [
        | some cached ↦ (ok (some (clone_call_frame cached)), p, w)
        | none ↦ let (answer, w') = base tx_hash w in remember p key answer w'
      ])

  -- `TraceTransaction` of a cached provider that is not nil.
  unfoldable pub trace_cached :
      String
      → CachedProvider World × World
      → Outcome (Option CallFrame) × CachedProvider World × World
  unfolding fetch_through
  trace_cached tx_hash (p, w) = fetch_through p p.base tx_hash w

  -- A sequence of requests, for their effect.
  unfoldable pub trace_all :
      List String → CachedProvider World × World → CachedProvider World × World
  trace_all [] s = s
  trace_all (tx_hash ∷ rest) s =
      let (answer, p, w) = trace_cached tx_hash s in trace_all rest (p, w)

  -- The call of the sink, whose error is dropped.
  persist_to : Option (Persist World) → ℕ → String → CallFrame → World → World
  persist_to none chain_id tx_hash root w = w
  persist_to (some sink) chain_id tx_hash root w =
      (sink chain_id tx_hash (clone_call_frame root) w).1

  persist_answer :
      PersistingProvider World
      → String
      → Outcome (Option CallFrame)
      → World
      → Outcome (Option CallFrame) × World
  unfolding persist_to
  persist_answer p tx_hash (err e) w = (err e, w)
  persist_answer p tx_hash (ok none) w = (ok none, w)
  persist_answer p tx_hash (ok (some root)) w =
      (ok (some root), persist_to p.sink p.chain_id tx_hash root w)

  persist_through :
      PersistingProvider World
      → Option (Fetch World)
      → String
      → World
      → Outcome (Option CallFrame) × World
  unfolding persist_answer
  persist_through p none tx_hash w = (err "trace provider is required", w)
  persist_through p (some base) tx_hash w =
      let (answer, w') = base tx_hash w in persist_answer p tx_hash answer w'

  -- `TraceTransaction` of a persisting provider that is not nil.
  unfoldable pub trace_persisting :
      PersistingProvider World → String → World → Outcome (Option CallFrame) × World
  unfolding persist_through
  trace_persisting p tx_hash w = persist_through p p.base tx_hash w
