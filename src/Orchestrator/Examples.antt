-- ===== src/Orchestrator/Examples.antt =====
-- The runner and its loop on small inputs: tests, and the theorems applied.
use flashloan_scanner.Base.{
  String, any, map, str_eq, ℕ, ◌≡◌, false, none, some, List, [], ◌∷◌, refl, inr, ok, arith, any,
  map, str_eq, Outcome, length,
}
use flashloan_scanner.Orchestrator.Samples.{candidate, runner_over, runner}
use flashloan_scanner.Orchestrator.Events.{finding_event, parse_uint64}
use flashloan_scanner.Orchestrator.Runner.{run_once, verify_all, start_run}
use flashloan_scanner.Base.Distinct.{Once}
use flashloan_scanner.Orchestrator.Runner.Order.{verify_all-Once}
use flashloan_scanner.Orchestrator.Runner.Reports.{Reported, run_once-Reported}
use flashloan_scanner.Orchestrator.Runner.Progress.{Climbing, run_once-Climbing}
use flashloan_scanner.Orchestrator.Runner.Counters.{Agree, run_once-Agree}
use flashloan_scanner.Orchestrator.Loop.{CursorManager, LoopRunner, next_batch, run_loop}
use flashloan_scanner.Orchestrator.Loop.Batches.{Tiles, next_batch-Tiles}
use flashloan_scanner.Orchestrator.Loop.CatchUp.{
  IsSteady, LeavesAt, run_loop_catches_up, run_loop_stuck,
}

two_candidates : (run_once runner 1 10 20 0 []).1.stats.verified_interactions ≡ 2
unfolding run_once parse_uint64
two_candidates = refl

one_finding : (run_once runner 1 10 20 0 []).1.stats.findings ≡ 1
unfolding run_once parse_uint64
one_finding = refl

-- Started, a finding, its progress, the final progress, completed.
five_notifications : length (run_once runner 1 10 20 0 []).1.events ≡ 5
unfolding run_once parse_uint64 finding_event
five_notifications = refl

run_once-Reported_example :
    let (answer, t) = run_once runner 1 10 20 0 [] in Reported runner 1 10 20 answer [] t.events
run_once-Reported_example = run_once-Reported runner 1 10 20 0 [] refl

run_once-Climbing_example :
    let (answer, t) = run_once runner 1 10 20 0 [] in Climbing t.stats.current_block t.events
run_once-Climbing_example = run_once-Climbing runner 1 10 20 0

run_once-Agree_example : let (answer, t) = run_once runner 1 10 20 0 [] in Agree t
run_once-Agree_example = run_once-Agree runner 1 10 20 refl 0

verify_all-Once_example :
    Once ("50" ∷ [])
    × ((h : String)
        → any (str_eq h) ("50" ∷ [])
          ≡ any (str_eq h) (map (λ i. i.tx_hash) (candidate ∷ candidate ∷ [])))
unfolding verify_all
verify_all-Once_example =
    verify_all-Once runner 1 (candidate ∷ candidate ∷ []) (start_run runner 1 10 20 0 []) refl

next_batch-Tiles_example : Tiles 500 10 7 8 10
unfolding next_batch
next_batch-Tiles_example = next_batch-Tiles 500 10 7 8 10 (omega arith) (omega arith) refl

abbrev cursors : CursorManager ℕ
cursors = record { get_cursor = λ _ _ _ w. ok w; save_cursor = λ _ _ _ block w. (ok tt, block) }

abbrev at_ten : ℕ → Outcome ℕ × ℕ
at_ten w = (ok 10, w)

abbrev looping : ℕ → LoopRunner ℕ
looping batch_size = record {
  runner = runner_over [] false;
  cursor_manager = some cursors;
  block_provider = some at_ten;
  batch_size = batch_size;
  ctx_err = λ w. none;
  sleep = λ w. (ok tt, w);
}

quiet_run :
    (from to w : ℕ) (events : List _)
    → let (answer, t) = run_once (runner_over [] false) 1 from to w events in
      (answer ≡ ok tt) × (t.world ≡ w)
unfolding run_once
quiet_run from to w events = ground arith

looping-IsSteady : (batch_size : ℕ) → IsSteady (looping batch_size) 1 cursors at_ten 10 (λ w. w)
looping-IsSteady batch_size = record {
  not_cancelled = λ w. refl;
  reads_latest = λ w. (refl, refl);
  reads_cursor = λ w. refl;
  runs = quiet_run;
  saves = λ block w. (refl, refl);
  sleeps = λ w. (refl, refl);
}

run_loop_catches_up_example :
    LeavesAt (looping 4) 1 cursors at_ten 10 (λ w. w) 10 (run_loop (looping 4) 1 10 (0, []))
run_loop_catches_up_example =
    run_loop_catches_up (looping 4) 1 cursors at_ten 10 (λ w. w) (looping-IsSteady 4) 10 0 [] refl
      refl (omega arith) (inr (omega arith)) (omega arith) (omega arith) (omega arith)

run_loop_stuck_example :
    LeavesAt (looping 1) 1 cursors at_ten 10 (λ w. w) 0 (run_loop (looping 1) 1 100 (0, []))
run_loop_stuck_example =
    run_loop_stuck (looping 1) 1 cursors at_ten 10 (λ w. w) (looping-IsSteady 1) 100 0 [] refl refl
      refl refl
