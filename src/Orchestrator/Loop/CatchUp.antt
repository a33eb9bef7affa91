-- ===== src/Orchestrator/Loop/CatchUp.antt =====
-- Where the loop's cursor goes while the chain stands still and nothing fails.
use flashloan_scanner.Base.{
  ℕ, zero, suc, ◌+◌, ◌<◌, ◌≤◌, ◌^◌, ◌≡◌, refl, ap, ◌∙◌, ◌⊎◌, inl, inr, none, some, List, arith,
  Bool-cases, Option-cases, ltb, leb, ◌==◌, false, Outcome, ok,
}
use flashloan_scanner.Orchestrator.Events.{RunEvent}
use flashloan_scanner.Orchestrator.Runner.{run_once}
use flashloan_scanner.Orchestrator.Loop.{
  CursorManager, LoopRunner, LoopState, cursor_type, next_block, last_block, next_batch, rest,
  save_batch, run_batch, follow, loop_round, loop_rounds, run_loop,
}

-- The cursor after a round.
abbrev advance : ℕ → ℕ → ℕ → ℕ
advance batch_size latest c = elim (next_batch batch_size latest c) [
  | none ↦ c
  | some (from, to) ↦ to
]

abbrev advances : ℕ → ℕ → ℕ → ℕ → ℕ
advances batch_size latest zero c = c
advances batch_size latest (suc n) c = advances batch_size latest n (advance batch_size latest c)

advance_up :
    (batch_size latest c : ℕ)
    → 0 < batch_size
    → (0 < c) ⊎ (1 < batch_size)
    → latest + batch_size + 1 < 2 ^ 64
    → c < latest
    → (c < advance batch_size latest c) × (advance batch_size latest c ≤ latest)
unfolding next_batch next_block last_block
advance_up batch_size latest c b (inl positive) small below = ground arith
advance_up batch_size latest c b (inr wide) small below = ground arith

advance_end :
    (batch_size latest : ℕ)
    → 0 < batch_size
    → latest + batch_size + 1 < 2 ^ 64
    → advance batch_size latest latest ≡ latest
unfolding next_batch next_block last_block
advance_end batch_size latest b small = ground arith

advances_end :
    (n batch_size latest : ℕ)
    → 0 < batch_size
    → latest + batch_size + 1 < 2 ^ 64
    → advances batch_size latest n latest ≡ latest
advances_end zero batch_size latest b small = refl
advances_end (suc n) batch_size latest b small =
    ap (advances batch_size latest n) (advance_end batch_size latest b small)
    ∙ advances_end n batch_size latest b small

advances_latest :
    (n batch_size latest c : ℕ)
    → 0 < batch_size
    → (0 < c) ⊎ (1 < batch_size)
    → latest + batch_size + 1 < 2 ^ 64
    → c ≤ latest
    → latest ≤ c + n
    → advances batch_size latest n c ≡ latest
advances_latest zero batch_size latest c b start small below enough = omega arith
advances_latest (suc n) batch_size latest c b start small below enough =
    elim (Bool-cases (ltb c latest)) [
      | inl less ↦
          let up = advance_up batch_size latest c b start small (ground (arith, less)) in
          advances_latest n batch_size latest (advance batch_size latest c) b
            (inl (omega (arith, up.0))) small up.1 (omega (arith, up.0))
      | inr reached ↦
          let e : c ≡ latest = ground (arith, reached) in
          ap (advances batch_size latest (suc n)) e ∙ advances_end (suc n) batch_size latest b small
    ]

advance_stuck : (latest : ℕ) → advance 1 latest 0 ≡ 0
unfolding next_batch next_block last_block
advance_stuck latest = ground arith

advances_stuck : (n latest : ℕ) → advances 1 latest n 0 ≡ 0
advances_stuck zero latest = refl
advances_stuck (suc n) latest =
    ap (advances 1 latest n) (advance_stuck latest) ∙ advances_stuck n latest

module _ {World : Type 0} (l : LoopRunner World) (chain_id : ℕ) (cursors : CursorManager World)
    (latest_block_number : World → Outcome ℕ × World) (latest : ℕ) (cursor_of : World → ℕ) where
  -- Nothing fails or is cancelled, the latest block stays the same, and the stored cursor is
  -- `cursor_of` the world, which only a save changes.
  pub record IsSteady : Type 0 where
    pub not_cancelled : (w : World) → l.ctx_err w ≡ none
    pub reads_latest :
        (w : World)
        → ((latest_block_number w).0 ≡ ok latest)
          × (cursor_of (latest_block_number w).1 ≡ cursor_of w)
    pub reads_cursor :
        (w : World)
        → cursors.get_cursor l.runner.scanner_name chain_id cursor_type w ≡ ok (cursor_of w)
    pub runs :
        (from to : ℕ) (w : World) (events : List RunEvent)
        → let (answer, t) = run_once l.runner chain_id from to w events in
          (answer ≡ ok tt) × (cursor_of t.world ≡ cursor_of w)
    pub saves :
        (block : ℕ) (w : World)
        → let (answer, v) =
            cursors.save_cursor l.runner.scanner_name chain_id cursor_type block w in
          (answer ≡ ok tt) × (cursor_of v ≡ block)
    pub sleeps : (w : World) → ((l.sleep w).0 ≡ ok tt) × (cursor_of (l.sleep w).1 ≡ cursor_of w)

  -- The round or rounds went well, and left the cursor at `c`.
  abbrev pub LeavesAt : ℕ → Outcome (Unit {0}) × LoopState World → Type 0
  LeavesAt c result = (result.0 ≡ ok tt) × (cursor_of result.1.0 ≡ c)

  module _ (steady : IsSteady) where
    rest_lem :
        (w : World) (events : List RunEvent) → LeavesAt (cursor_of w) (rest l chain_id (w, events))
    unfolding rest
    rest_lem w events = steady.sleeps w

    save_batch_lem :
        (to : ℕ) (w : World) (events : List RunEvent)
        → LeavesAt to (save_batch l chain_id cursors latest to (w, events))
    unfolding save_batch
    save_batch_lem to w events =
        let saved = steady.saves to w in
        let v = (cursors.save_cursor l.runner.scanner_name chain_id cursor_type to w).1 in
        elim (Bool-cases (leb latest to)) [
          | inl end ↦
              rw (saved.0, end, save_batch)
                (let slept = rest_lem v events in (slept.0, slept.1 ∙ saved.1))
          | inr more ↦ rw (saved.0, more, save_batch) (refl, saved.1)
        ]

    round_lem :
        (w : World) (events : List RunEvent)
        → LeavesAt
            (advance l.batch_size latest (cursor_of w))
            (loop_round l chain_id cursors latest_block_number (w, events))
    unfolding loop_round follow run_batch
    round_lem w events =
        let read = steady.reads_latest w in
        let v = (latest_block_number w).1 in
        let at = ap (advance l.batch_size latest) read.1 in
        elim (Option-cases (next_batch l.batch_size latest (cursor_of v))) [
          | inl idle ↦
              let slept = rest_lem v events in
              rw (steady.not_cancelled w, read.0, steady.reads_cursor v, idle, loop_round, follow)
                (slept.0, ground (arith, slept.1, idle, at))
          | inr (batch, due) ↦
              let ran = steady.runs batch.0 batch.1 v events in
              let t = (run_once l.runner chain_id batch.0 batch.1 v events).1 in
              let saved = save_batch_lem batch.1 t.world t.events in
              rw
                (
                  steady.not_cancelled w,
                  read.0,
                  steady.reads_cursor v,
                  due,
                  loop_round,
                  follow,
                  run_batch,
                  ran.0,
                )
                (saved.0, ground (arith, saved.1, due, at))
        ]

    rounds_lem :
        (n : ℕ) (w : World) (events : List RunEvent)
        → LeavesAt
            (advances l.batch_size latest n (cursor_of w))
            (loop_rounds l chain_id n cursors latest_block_number (w, events))
    unfolding loop_rounds
    rounds_lem zero w events = (refl, refl)
    rounds_lem (suc n) w events =
        let once = round_lem w events in
        let (v, more) = (loop_round l chain_id cursors latest_block_number (w, events)).1 in
        let rounds = rounds_lem n v more in
        rw (once.0, loop_rounds) (rounds.0, rounds.1 ∙ ap (advances l.batch_size latest n) once.1)

    run_loop_lem :
        (n : ℕ) (w : World) (events : List RunEvent)
        → l.cursor_manager ≡ some cursors
        → l.block_provider ≡ some latest_block_number
        → 0 < l.batch_size
        → LeavesAt
            (advances l.batch_size latest n (cursor_of w))
            (run_loop l chain_id n (w, events))
    unfolding run_loop
    run_loop_lem n w events given given' b =
        let sized : (l.batch_size == 0) ≡ false = ground arith in
        rw (given, given', sized, run_loop) (rounds_lem n w events)

    -- While nothing fails and the chain stands still, the loop brings the cursor to the latest block
    -- within as many rounds as there are blocks between them, provided that the cursor is not 0 or
    -- the batch size is not 1, and that the numbers stay below 2^64.
    pub run_loop_catches_up :
        (n : ℕ) (w : World) (events : List RunEvent)
        → l.cursor_manager ≡ some cursors
        → l.block_provider ≡ some latest_block_number
        → 0 < l.batch_size
        → (0 < cursor_of w) ⊎ (1 < l.batch_size)
        → latest + l.batch_size + 1 < 2 ^ 64
        → cursor_of w ≤ latest
        → latest ≤ cursor_of w + n
        → LeavesAt latest (run_loop l chain_id n (w, events))
    run_loop_catches_up n w events given given' b start small below enough =
        let done = run_loop_lem n w events given given' b in
        (
          done.0,
          done.1 ∙ advances_latest n l.batch_size latest (cursor_of w) b start small below enough,
        )

    -- While nothing fails and the chain stands still, a loop with batch size 1 whose cursor is 0 has
    -- its cursor at 0 after any number of rounds, whatever the latest block is.
    pub run_loop_stuck :
        (n : ℕ) (w : World) (events : List RunEvent)
        → l.cursor_manager ≡ some cursors
        → l.block_provider ≡ some latest_block_number
        → l.batch_size ≡ 1
        → cursor_of w ≡ 0
        → LeavesAt 0 (run_loop l chain_id n (w, events))
    run_loop_stuck n w events given given' one at_start =
        let done = run_loop_lem n w events given given' (omega (arith, one)) in
        (
          done.0,
          done.1
              ∙ ap (λ c. advances l.batch_size latest n c) at_start
              ∙ ap (λ b. advances b latest n 0) one
              ∙ advances_stuck n latest,
        )
