-- ===== src/Orchestrator/Loop.antt =====
-- `RunLoop` of protocol_runner.go: batch after batch, behind a cursor. Go's loop ends only with an
-- error; here it makes as many rounds as it is given.
pub mod Batches
pub mod CatchUp
use flashloan_scanner.Base.{
  ℕ, zero, suc, ◌+◌, ◌-◌, ◌%◌, ◌^◌, String, Bool, true, false, Option, none, some, List, ltb, leb,
  ◌==◌, if◌then◌else◌, Outcome, ok, err,
}
use flashloan_scanner.Orchestrator.Events.{RunEvent}
use flashloan_scanner.Orchestrator.Runner.{ProtocolRunner, Run, run_once}

module _ (World : Type 0) where
  -- scannercursor.Manager
  pub record CursorManager : Type 0 where
    pub get_cursor : String → ℕ → String → World → Outcome ℕ
    pub save_cursor : String → ℕ → String → ℕ → World → Outcome (Unit {0}) × World

  pub record LoopRunner : Type 0 where
    pub runner : ProtocolRunner World
    pub cursor_manager : Option (CursorManager)
    pub block_provider : Option (World → Outcome ℕ × World)
    pub batch_size : ℕ
    -- `ctx.Err()`, and `sleepWithContext` for the loop's interval.
    pub ctx_err : World → Option String
    pub sleep : World → Outcome (Unit {0}) × World

  abbrev pub LoopState : Type 0
  LoopState = World × List RunEvent

-- string(scanner.CursorTypeVerification)
abbrev pub cursor_type : String
cursor_type = "verification"

unfoldable pub next_block : ℕ → ℕ
next_block last_processed =
    if ltb 0 last_processed then (last_processed + 1) % 2 ^ 64 else last_processed

-- The last block of the batch that starts at `from`; uint64 wraps around.
unfoldable pub last_block : ℕ → ℕ → ℕ → ℕ
last_block batch_size latest from =
    let to = (from + batch_size + (2 ^ 64 - 1)) % 2 ^ 64 in if ltb latest to then latest else to

-- The batch of a round, if there are blocks to process.
unfoldable pub next_batch : ℕ → ℕ → ℕ → Option (ℕ × ℕ)
unfolding next_block last_block
next_batch batch_size latest last_processed =
    let from = next_block last_processed in
    if ltb latest from then none else some (from, last_block batch_size latest from)

module _ {World : Type 0} (l : LoopRunner World) (chain_id : ℕ) where
  -- A sleep, and then the next round.
  unfoldable pub rest : LoopState World → Outcome (Unit {0}) × LoopState World
  rest (w, events) = let (answer, w') = l.sleep w in (answer, (w', events))

  -- The saved cursor, and a sleep behind the last block.
  unfoldable pub save_batch :
      CursorManager World → ℕ → ℕ → LoopState World → Outcome (Unit {0}) × LoopState World
  unfolding rest
  save_batch cursors latest to (w, events) =
      let (saved, w') = cursors.save_cursor l.runner.scanner_name chain_id cursor_type to w in
      elim saved [
        | err e ↦ (err e, (w', events))
        | ok _ ↦ elim (leb latest to) [ true ↦ rest (w', events) | false ↦ (ok tt, (w', events)) ]
      ]

  unfoldable pub run_batch :
      CursorManager World → ℕ → ℕ → ℕ → LoopState World → Outcome (Unit {0}) × LoopState World
  unfolding save_batch
  run_batch cursors latest from to (w, events) =
      let (answer, t) = run_once l.runner chain_id from to w events in
      elim answer [
        | err e ↦ (err e, (t.world, t.events))
        | ok _ ↦ save_batch cursors latest to (t.world, t.events)
      ]

  unfoldable pub follow :
      CursorManager World → ℕ → Outcome ℕ → LoopState World → Outcome (Unit {0}) × LoopState World
  unfolding run_batch next_batch rest
  follow cursors latest (err e) s = (err e, s)
  follow cursors latest (ok last_processed) s =
      elim (next_batch l.batch_size latest last_processed) [
        | none ↦ rest s
        | some (from, to) ↦ run_batch cursors latest from to s
      ]

  -- A round of the loop; an error ends the loop.
  unfoldable pub loop_round :
      CursorManager World
      → (World → Outcome ℕ × World)
      → LoopState World
      → Outcome (Unit {0}) × LoopState World
  unfolding follow
  loop_round cursors latest_block_number (w, events) = elim (l.ctx_err w) [
    | some e ↦ (err e, (w, events))
    | none ↦
        let (answer, w') = latest_block_number w in
        elim answer [
          | err e ↦ (err e, (w', events))
          | ok latest ↦
              follow cursors latest
                (cursors.get_cursor l.runner.scanner_name chain_id cursor_type w') (w', events)
        ]
  ]

  unfoldable pub loop_rounds :
      ℕ
      → CursorManager World
      → (World → Outcome ℕ × World)
      → LoopState World
      → Outcome (Unit {0}) × LoopState World
  unfolding loop_round
  loop_rounds zero cursors latest_block_number s = (ok tt, s)
  loop_rounds (suc n) cursors latest_block_number s =
      let (answer, t) = loop_round cursors latest_block_number s in
      elim answer [ err e ↦ (err e, t) | ok _ ↦ loop_rounds n cursors latest_block_number t ]

  abbrev missing : String
  missing = "run loop requires both cursor manager and latest block provider"

  unfoldable pub run_loop : ℕ → LoopState World → Outcome (Unit {0}) × LoopState World
  unfolding loop_rounds
  run_loop rounds s = elim l.cursor_manager [
    | none ↦ (err missing, s)
    | some cursors ↦ elim l.block_provider [
      | none ↦ (err missing, s)
      | some latest_block_number ↦
          if l.batch_size == 0
          then (err "batch size must be greater than zero", s)
          else loop_rounds rounds cursors latest_block_number s
    ]
  ]
