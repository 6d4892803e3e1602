-- ===== src/Parallel.antt =====
-- The insertion sort over two vectors in step, which the block exchange runs on its want list
-- (plans/streaming_test/src/ipfs/block_exchange.rs) and the video player on its buffer
-- (plans/streaming_test/src/video_player.rs).
pub mod Insertion
pub mod Laws
mod Tests
use live_tests.Base.{
  ℕ, zero, suc, ◌-◌, List, Outcome, ok, ◌>>=◌, index, swap, length, ltb, if◌then◌else◌,
}

module _ {ℓ} {V : Type ℓ} where
  -- The inner loop, at `j`: while the key before is greater, both vectors exchange the neighbours.
  unfoldable pub sink : ℕ → List ℕ → List V → Outcome (List ℕ × List V)
  sink zero keys values = ok (keys, values)
  sink (suc j) keys values = do
    before ← index keys j
    moving ← index keys (suc j)
    let moved = do
      keys' ← swap keys (suc j) j
      values' ← swap values (suc j) j
      sink j keys' values'
    if ltb moving before then moved else ok (keys, values)

  -- The outer loop, at `i` with `rounds` elements to go.
  unfoldable pub sort_from : ℕ → ℕ → List ℕ → List V → Outcome (List ℕ × List V)
  unfolding sink
  sort_from zero i keys values = ok (keys, values)
  sort_from (suc rounds) i keys values = do
    (keys', values') ← sink i keys values
    sort_from rounds (suc i) keys' values'

  -- `i` runs from 1 to the length, which no exchange changes.
  unfoldable pub sort : List ℕ → List V → Outcome (List ℕ × List V)
  unfolding sort_from
  sort keys values = sort_from (length keys - 1) 1 keys values
