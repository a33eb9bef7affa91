-- ===== src/Orchestrator/Runner/Progress.antt =====
-- The current blocks that a run reports.
use flashloan_scanner.Base.{
  ℕ, ◌≤◌, Bool, true, false, not, ◌||◌, Option, none, some, List, [], ◌∷◌, arith, inl, inr,
  Bool-cases, Outcome, ok, err, if◌then◌else◌, ltb,
}
use flashloan_scanner.Types.{TxSummary}
use flashloan_scanner.Orchestrator.Events.{
  RunEvent, on_protocol_started, on_protocol_progress, on_finding, on_protocol_completed,
  on_protocol_failed, started_event, advance_current_block, finding_event,
}
use flashloan_scanner.Orchestrator.Runner.{
  ProtocolRunner, Run, notify, notify_progress, count, count_finding, count_result, report,
  run_stages, finish, run_once, start_run, reach_end,
}
use flashloan_scanner.Orchestrator.Runner.Reports.{counted, reported, report_stats, report_events}
use flashloan_scanner.Orchestrator.Runner.Invariants.{Preserves, run_stages-Preserves}

-- The current block that a notification of progress, of completion or of failure tells.
abbrev pub block_of : RunEvent → Option ℕ
block_of (on_protocol_progress p) = some p.current_block
block_of (on_protocol_completed c) = some c.current_block
block_of (on_protocol_failed f) = some f.current_block
block_of (on_protocol_started _) = none
block_of (on_finding _) = none

-- Notifications, the newest first, whose current blocks never go back in time and end at most at
-- `top`.
abbrev pub Climbing : ℕ → List RunEvent → Type 0
Climbing top [] = Unit
Climbing top (e ∷ es) = elim (block_of e) [
  | none ↦ Climbing top es
  | some block ↦ (block ≤ top) × Climbing block es
]

Climbing-mono : (a b : ℕ) (es : List RunEvent) → a ≤ b → Climbing a es → Climbing b es
Climbing-mono a b [] h c = tt
Climbing-mono a b (on_protocol_progress p ∷ es) h c = (omega (arith, c.0), c.1)
Climbing-mono a b (on_protocol_completed p ∷ es) h c = (omega (arith, c.0), c.1)
Climbing-mono a b (on_protocol_failed p ∷ es) h c = (omega (arith, c.0), c.1)
Climbing-mono a b (on_protocol_started p ∷ es) h c = Climbing-mono a b es h c
Climbing-mono a b (on_finding p ∷ es) h c = Climbing-mono a b es h c

Climbing-if :
    (b : Bool) (top : ℕ) (es fs : List RunEvent)
    → Climbing top es
    → Climbing top fs
    → Climbing top (if b then es else fs)
Climbing-if true top es fs h k = h
Climbing-if false top es fs h k = k

module _ {World : Type 0} (r : ProtocolRunner World) (chain_id from_block to_block : ℕ) where
  counted_block :
      (summary : TxSummary) (s : Run World)
      → s.stats.current_block ≤ (counted r chain_id from_block to_block summary s).current_block
  unfolding count_finding
  counted_block summary s = ground arith

  abbrev Climbs : Run World → Type 0
  Climbs s = Climbing s.stats.current_block s.events

  report-Climbs-some :
      (summary : TxSummary) (s : Run World)
      → Climbs s
      → Climbs (report r chain_id from_block to_block (some summary) s).1
  unfolding finding_event
  report-Climbs-some summary s h =
      let up = Climbing-mono _ _ s.events (counted_block summary s) h in
      rw
        (
          report_stats r chain_id from_block to_block summary s,
          report_events r chain_id from_block to_block summary s,
        )
        (Climbing-if r.observed _ (reported r chain_id from_block to_block summary s) s.events
          (omega arith, up) up)

  report-Climbs :
      (summary : Option TxSummary)
      → Preserves Climbs (report r chain_id from_block to_block summary)
  unfolding report
  report-Climbs none = record { keeps = λ s h. h }
  report-Climbs (some summary) = record { keeps = report-Climbs-some summary }

  advance-Climbs : (block : ℕ) → Preserves Climbs (count (advance_current_block block))
  unfolding count
  advance-Climbs block = record { keeps = λ s h. Climbing-mono _ _ s.events (ground arith) h }

  result-Climbs : (result : Option _) → Preserves Climbs (count (count_result result))
  unfolding count count_result
  result-Climbs none = record { keeps = λ s h. h }
  result-Climbs (some v) = record { keeps = λ s h. h }

  run_stages-Climbs : Preserves Climbs (run_stages r chain_id from_block to_block)
  unfolding count
  run_stages-Climbs =
      run_stages-Preserves Climbs r chain_id from_block to_block (λ s w h. h)
        (λ n. record { keeps = λ s h. h }) (λ n. record { keeps = λ s h. h }) advance-Climbs
        result-Climbs report-Climbs

  started-Climbs :
      (w : World)
      → Climbs
          (notify r chain_id
            (started_event r.scanner_name r.protocol chain_id from_block to_block)
            (start_run r chain_id from_block to_block w [])).1
  unfolding notify
  started-Climbs w = elim (Bool-cases r.observed) [
    | inl watched ↦ ground (arith, watched)
    | inr alone ↦ ground (arith, alone)
  ]

  Climbs-if : (b : Bool) (s t : Run World) → Climbs s → Climbs t → Climbs (if b then s else t)
  Climbs-if true s t h k = h
  Climbs-if false s t h k = k

  reached-Climbs :
      (s : Run World)
      → Climbs s
      → Climbs (record s { stats = reach_end r chain_id from_block to_block s.stats })
  reached-Climbs s h = Climbing-mono _ _ s.events (ground arith) h

  finish-Climbs :
      (answer : Outcome (Unit {0})) (s : Run World)
      → Climbs s
      → Climbs (finish r chain_id from_block to_block answer s)
  unfolding finish notify notify_progress
  finish-Climbs (err e) s h = Climbs-if r.observed _ s (omega arith, h) h
  finish-Climbs (ok u) s h =
      let reached = record s { stats = reach_end r chain_id from_block to_block s.stats } in
      let needed = not s.progress_emitted || ltb s.last_progress_block to_block in
      let shown =
        if needed then (notify_progress r chain_id from_block to_block reached).1 else reached in
      let at = reached-Climbs s h in
      let climbs : Climbs shown =
        Climbs-if needed _ reached (Climbs-if r.observed _ reached (omega arith, at) at) at in
      Climbs-if r.observed _ shown (omega arith, climbs) climbs

  -- In the order of time, the current blocks that a run tells in its notifications of progress, of
  -- completion and of failure do not decrease, and none is above the block that the run reached.
  -- The notifications of the start and of findings are not among them.
  pub run_once-Climbing :
      (w : World)
      → let (answer, t) = run_once r chain_id from_block to_block w [] in
        Climbing t.stats.current_block t.events
  unfolding run_once
  run_once-Climbing w =
      let s =
        (notify r chain_id (started_event r.scanner_name r.protocol chain_id from_block to_block)
          (start_run r chain_id from_block to_block w [])).1 in
      let (answer, t) = run_stages r chain_id from_block to_block s in
      finish-Climbs answer t (run_stages-Climbs.keeps s (started-Climbs w))
