-- ===== src/Blocks/Tests.antt =====
-- The blocks of a small segment, from a generator that repeats one byte.
use live_tests.Base.{ℕ, zero, suc, ◌≡◌, refl, ap, List, [], ◌∷◌, false, length, arith}
use live_tests.Blocks.Sizes.{SizedSegment, generate_blocks-Sized}

abbrev repeated : ℕ → ℕ → List ℕ
repeated r zero = []
repeated r (suc n) = r ∷ repeated r n

abbrev fill : ℕ → ℕ → ℕ × List ℕ
fill r n = (suc r, repeated r n)

fill-length : (r n : ℕ) → length (fill r n).1 ≡ n
fill-length r zero = refl
fill-length r (suc n) = ap suc (fill-length r n)

generate_blocks-Sized_example : SizedSegment fill length 5 24 1 false
generate_blocks-Sized_example =
    generate_blocks-Sized fill length fill-length 5 24 1 false (omega arith) (omega arith)
