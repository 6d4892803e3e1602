-- ===== src/Blocks/Cases.antt =====
-- The test function block_test of utils.rs, for any generator and hash.
use live_tests.Base.{ℕ, ◌≡◌, List, length, false, arith, ap, Outcome, ok, ◌>>=◌}
use live_tests.Exchange.{Cid}
use live_tests.Blocks.{generate_blocks}
use live_tests.Blocks.Sizes.{generate_blocks-Sized}

module _ {R : Type 0} (fill_bytes : R → ℕ → R × List ℕ) (digest : List ℕ → Cid) where
  unfoldable pub block_test : R → Outcome ℕ
  unfolding generate_blocks
  block_test rng = do
    made ← generate_blocks fill_bytes digest rng 6000000 4 false
    ok (length made.1)

  -- A generator that fills what it is given makes twelve blocks.
  pub block_test-twelve :
      ((r : R) (n : ℕ) → length (fill_bytes r n).1 ≡ n) → (rng : R) → block_test rng ≡ ok 12
  unfolding block_test
  block_test-twelve fills rng =
      let (made, returns, sized) =
        generate_blocks-Sized fill_bytes digest fills rng 6000000 4 false (omega arith)
          (omega arith) in
      rw returns (ap ok sized.2)
