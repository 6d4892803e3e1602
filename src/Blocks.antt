-- ===== src/Blocks.antt =====
-- The random blocks of a segment (`generate_blocks` and `random_block` of
-- plans/streaming_test/src/utils.rs). The random generator and the hash are libraries.
pub mod Sizes
pub mod Cases
mod Tests
use live_tests.Base.{
  ℕ, suc, zero, ◌+◌, ◌/◌, ◌%◌, List, [], ◌∷◌, Bool, ◌&&◌, ltb, ◌==◌, if◌then◌else◌, mul64, Outcome,
  ok, panic, out_of_memory,
}
use live_tests.Exchange.{Cid, Block}

abbrev pub max_block_size : ℕ
max_block_size = 524288

abbrev pub standard_block_size : ℕ
standard_block_size = 262144

abbrev pub size_of : Bool → ℕ
size_of max_size = if max_size then max_block_size else standard_block_size

-- `div` of the source.
abbrev pub num_blocks : ℕ → ℕ → ℕ
num_blocks total_bytes block_size =
    let div = total_bytes / block_size in if ltb 0 (total_bytes % block_size) then div + 1 else div

abbrev pub total : ℕ → ℕ → ℕ
total bitrate segment_length = mul64 bitrate segment_length / 8

-- The size of the block that `n` blocks follow.
unfoldable pub size_at : ℕ → ℕ → ℕ → ℕ
size_at block_size remainder_bytes n =
    if n == 0 && ltb 0 remainder_bytes then remainder_bytes else block_size

-- `fill_bytes` gives the generator after it, and as many bytes as it is asked for; `digest` is the
-- CID of some data.
module _ {R : Type 0} (fill_bytes : R → ℕ → R × List ℕ) (digest : List ℕ → Cid) where
  abbrev pub random_block : R → ℕ → R × Block
  random_block rng block_size =
      let filled = fill_bytes rng block_size in
      (filled.0, record { cid = digest filled.1; bytes = filled.1 })

  -- The loop, where `n` is `num_blocks` before it is decremented.
  unfoldable pub blocks_from : ℕ → ℕ → ℕ → R → R × List Block
  blocks_from block_size remainder_bytes zero rng = (rng, [])
  blocks_from block_size remainder_bytes (suc n) rng =
      let block = random_block rng (size_at block_size remainder_bytes n) in
      let rest = blocks_from block_size remainder_bytes n block.0 in (rest.0, block.1 ∷ rest.1)

  -- The loop from its first decrement, for a segment of at least one byte.
  unfoldable pub blocks_made : R → ℕ → ℕ → Bool → R × List Block
  unfolding blocks_from
  blocks_made rng bitrate segment_length max_size =
      let total_bytes = total bitrate segment_length in
      let block_size = size_of max_size in
      blocks_from block_size (total_bytes % block_size) (num_blocks total_bytes block_size) rng

  -- Without a byte `num_blocks` is 0: the first decrement wraps around, and the loop pushes blocks
  -- that do not end before memory does.
  unfoldable pub generate_blocks : R → ℕ → ℕ → Bool → Outcome (R × List Block)
  unfolding blocks_made
  generate_blocks rng bitrate segment_length max_size =
      let n = num_blocks (total bitrate segment_length) (size_of max_size) in
      if n == 0 then panic out_of_memory else ok (blocks_made rng bitrate segment_length max_size)
