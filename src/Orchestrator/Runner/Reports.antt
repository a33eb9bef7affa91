-- ===== src/Orchestrator/Runner/Reports.antt =====
-- What the observer of a run sees.
use flashloan_scanner.Base.{
  ℕ, ◌≤◌, ◌≡◌, refl, true, not, ◌||◌, Option, none, some, List, [], ◌∷◌, ◌++◌, arith, All, inl, inr,
  Bool-cases, Outcome, ok, err, if◌then◌else◌, ltb,
}
use flashloan_scanner.Types.{TxSummary}
use flashloan_scanner.Orchestrator.Events.{
  RunEvent, on_protocol_started, on_protocol_progress, on_finding, on_protocol_completed,
  on_protocol_failed, ProtocolRunStats, started_event, progress_event, completed_event,
  failed_event, finding_event,
}
use flashloan_scanner.Orchestrator.Runner.{
  ProtocolRunner, Run, notify, notify_progress, mark_progress, count, count_finding, report,
  run_stages, finish, run_once, start_run, ◌>>=◌, ◌>>◌, reach_end,
}
use flashloan_scanner.Orchestrator.Runner.Invariants.{Preserves, run_stages-Preserves}

-- A notification that comes between the first and the last of a run.
abbrev pub IsMiddle : RunEvent → Type 0
IsMiddle (on_protocol_progress p) = Unit
IsMiddle (on_finding f) = Unit
IsMiddle (on_protocol_started _) = ⊥
IsMiddle (on_protocol_completed _) = ⊥
IsMiddle (on_protocol_failed _) = ⊥

module _ {World : Type 0} (r : ProtocolRunner World) (chain_id from_block to_block : ℕ) where
  -- The counters after a finding.
  abbrev pub counted : TxSummary → Run World → ProtocolRunStats
  counted summary s = count_finding summary s.stats

  abbrev pub reported : TxSummary → Run World → List RunEvent
  reported summary s =
      progress_event r.scanner_name r.protocol chain_id from_block to_block (counted summary s)
      ∷ finding_event r.scanner_name r.protocol chain_id summary
      ∷ s.events

  pub report_stats :
      (summary : TxSummary) (s : Run World)
      → (report r chain_id from_block to_block (some summary) s).1.stats ≡ counted summary s
  unfolding report ◌>>◌ ◌>>=◌ count notify notify_progress mark_progress
  report_stats summary s = ground arith

  pub report_events :
      (summary : TxSummary) (s : Run World)
      → (report r chain_id from_block to_block (some summary) s).1.events
        ≡ (if r.observed then reported summary s else s.events)
  unfolding report ◌>>◌ ◌>>=◌ count notify notify_progress mark_progress
  report_events summary s = ground arith

  -- The notifications so far are those of `base` and then middle ones.
  abbrev Grown : List RunEvent → Run World → Type 0
  Grown base s = (new : List RunEvent) × (s.events ≡ new ++ base) × All IsMiddle new

  report-Grown-some :
      (base : List RunEvent) (summary : TxSummary) (s : Run World)
      → Grown base s
      → Grown base (report r chain_id from_block to_block (some summary) s).1
  unfolding finding_event
  report-Grown-some base summary s (new, same, middle) = elim (Bool-cases r.observed) [
    | inl watched ↦ (
      progress_event r.scanner_name r.protocol chain_id from_block to_block (counted summary s)
          ∷ finding_event r.scanner_name r.protocol chain_id summary
          ∷ new,
      ground (arith, report_events summary s, watched, same),
      (tt, (tt, middle)),
    )
    | inr alone ↦ (new, ground (arith, report_events summary s, alone, same), middle)
  ]

  report-Grown :
      (base : List RunEvent) (summary : Option TxSummary)
      → Preserves (Grown base) (report r chain_id from_block to_block summary)
  unfolding report
  report-Grown base none = record { keeps = λ s h. h }
  report-Grown base (some summary) = record { keeps = report-Grown-some base summary }

  run_stages-Grown :
      (base : List RunEvent) → Preserves (Grown base) (run_stages r chain_id from_block to_block)
  unfolding count
  run_stages-Grown base =
      run_stages-Preserves (Grown base) r chain_id from_block to_block (λ s w h. h)
        (λ n. record { keeps = λ s h. h }) (λ n. record { keeps = λ s h. h })
        (λ block. record { keeps = λ s h. h }) (λ result. record { keeps = λ s h. h })
        (report-Grown base)

  -- How a run ends: with the completion at the last block at least, or with the error.
  abbrev pub Ends : Outcome (Unit {0}) → RunEvent → Type 0
  Ends (ok _) (on_protocol_completed c) = to_block ≤ c.current_block
  Ends (err e) (on_protocol_failed f) = f.error ≡ e
  Ends _ _ = ⊥

  -- The notifications of a run behind `before`, the newest first.
  pub record Reported (answer : Outcome (Unit {0})) (before after : List RunEvent) : Type 0 where
    pub last : RunEvent
    pub middle : List RunEvent
    pub its_events :
        after
        ≡ last ∷ middle
          ++ started_event r.scanner_name r.protocol chain_id from_block to_block ∷ before
    pub all_middle : All IsMiddle middle
    pub ends : Ends answer last

  started_run :
      (w : World) (events : List RunEvent)
      → r.observed ≡ true
      → Grown
          (started_event r.scanner_name r.protocol chain_id from_block to_block ∷ events)
          (notify r chain_id
            (started_event r.scanner_name r.protocol chain_id from_block to_block)
            (start_run r chain_id from_block to_block w events)).1
  unfolding notify
  started_run w events watched = ([], ground (arith, watched), tt)

  finish-Reported :
      (answer : Outcome (Unit {0})) (s : Run World) (events : List RunEvent)
      → r.observed ≡ true
      → Grown (started_event r.scanner_name r.protocol chain_id from_block to_block ∷ events) s
      → Reported answer events (finish r chain_id from_block to_block answer s).events
  unfolding finish notify notify_progress
  finish-Reported (err e) s events watched (new, same, middle) = record {
    last =
        failed_event r.scanner_name r.protocol chain_id from_block to_block s.stats.current_block e;
    middle = new;
    its_events = ground (arith, watched, same);
    all_middle = middle;
    ends = refl;
  }
  finish-Reported (ok u) s events watched (new, same, middle) =
      let stats = reach_end r chain_id from_block to_block s.stats in
      let done = completed_event r.scanner_name r.protocol chain_id from_block to_block stats in
      elim (Bool-cases (not s.progress_emitted || ltb s.last_progress_block to_block)) [
        | inl needed ↦ record {
          last = done;
          middle =
              progress_event r.scanner_name r.protocol chain_id from_block to_block stats ∷ new;
          its_events = ground (arith, watched, same, needed);
          all_middle = (tt, middle);
          ends = ground arith;
        }
        | inr enough ↦ record {
          last = done;
          middle = new;
          its_events = ground (arith, watched, same, enough);
          all_middle = middle;
          ends = ground arith;
        }
      ]

  -- A run with an observer notifies it of the start first, then of progress and findings only, and
  -- last either of the completion, if it returns no error, at the last block of the range at
  -- least, or of the failure with the error that it returns.
  pub run_once-Reported :
      (w : World) (events : List RunEvent)
      → r.observed ≡ true
      → let (answer, t) = run_once r chain_id from_block to_block w events in
        Reported answer events t.events
  unfolding run_once
  run_once-Reported w events watched =
      let s =
        (notify r chain_id (started_event r.scanner_name r.protocol chain_id from_block to_block)
          (start_run r chain_id from_block to_block w events)).1 in
      let (answer, t) = run_stages r chain_id from_block to_block s in
      finish-Reported answer t events watched
        ((run_stages-Grown _).keeps s (started_run w events watched))
