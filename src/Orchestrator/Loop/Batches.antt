-- ===== src/Orchestrator/Loop/Batches.antt =====
-- The batches of the loop.
use flashloan_scanner.Base.{ℕ, ◌+◌, ◌<◌, ◌≤◌, ◌^◌, ◌≡◌, ◌⊎◌, some, none, arith}
use flashloan_scanner.Orchestrator.Loop.{next_block, last_block, next_batch}

-- The blocks `from` to `to` are the next batch behind the last processed block: they start behind
-- it, or at block 0 if it is 0; they are at least one and none is above the latest; and they are
-- `batch_size` ones, or fewer that end at the latest.
abbrev pub Tiles : ℕ → ℕ → ℕ → ℕ → ℕ → Type 0
Tiles batch_size latest last_processed from to =
    (((0 < last_processed) × (from ≡ last_processed + 1)) ⊎ ((last_processed ≡ 0) × (from ≡ 0)))
    × (from ≤ to)
    × (to ≤ latest)
    × ((to + 1 ≡ from + batch_size) ⊎ ((to ≡ latest) × (to < from + batch_size)))

-- If the batch size is not 0 and the numbers stay below 2^64, the batch of a round starts behind the
-- last processed block, or at block 0 if that is 0, has at least one block and none above the latest
-- one, and is either of full size or ends at the latest block.
pub next_batch-Tiles :
    (batch_size latest last_processed from to : ℕ)
    → 0 < batch_size
    → last_processed + batch_size + 1 < 2 ^ 64
    → next_batch batch_size latest last_processed ≡ some (from, to)
    → Tiles batch_size latest last_processed from to
unfolding next_batch next_block last_block
next_batch-Tiles batch_size latest last_processed from to b small h = ground arith

-- There is no batch just when the latest block was processed.
next_batch-none :
    (batch_size latest last_processed : ℕ)
    → last_processed + 1 < 2 ^ 64
    → next_batch batch_size latest last_processed ≡ none
    → latest ≤ last_processed
unfolding next_batch next_block last_block
next_batch-none batch_size latest last_processed small h = ground arith
