-- ===== src/Blocks/Sizes.antt =====
-- How many blocks a segment has, and how large they are.
use live_tests.Base.{
  ℕ, suc, zero, ◌+◌, ◌-◌, ◌*◌, ◌/◌, ◌%◌, ◌≤◌, ◌<◌, ◌≡◌, inl, inr, refl, ap, ◌∙◌, List, [], ◌∷◌,
  Bool, true, false, All, length, ltb, ltb→lt, ltb→le, ◌==◌, if◌then◌else◌, Bool-cases, word, mul64,
  ok, panic, out_of_memory, arith,
}
use live_tests.Exchange.{Cid, Block}
use live_tests.Blocks.{
  Block, size_of, num_blocks, total, size_at, blocks_from, blocks_made, generate_blocks,
}

abbrev pub byte_count : List Block → ℕ
byte_count [] = 0
byte_count (b ∷ bs) = length b.bytes + byte_count bs

-- The last block has the remainder, if there is one.
abbrev last_size : ℕ → ℕ → ℕ
last_size block_size remainder_bytes = if ltb 0 remainder_bytes then remainder_bytes else block_size

size_at-last :
    (block_size remainder_bytes : ℕ)
    → size_at block_size remainder_bytes 0 ≡ last_size block_size remainder_bytes
unfolding size_at
size_at-last block_size remainder_bytes = refl

size_at-full :
    (block_size remainder_bytes n : ℕ) → size_at block_size remainder_bytes (suc n) ≡ block_size
unfolding size_at
size_at-full block_size remainder_bytes n = ground arith

size_at-bounds :
    (block_size remainder_bytes n : ℕ)
    → 0 < block_size
    → remainder_bytes < block_size
    → (0 < size_at block_size remainder_bytes n)
      × (size_at block_size remainder_bytes n ≤ block_size)
unfolding size_at
size_at-bounds block_size remainder_bytes n pos small = ground arith

-- As many full blocks as fit, and one for a remainder, are all of the bytes.
abbrev AllBytes : ℕ → ℕ → Type 0
AllBytes total_bytes block_size =
    (n : ℕ) × (num_blocks total_bytes block_size ≡ suc n)
    × (n * block_size + last_size block_size (total_bytes % block_size) ≡ total_bytes)
    × (suc n ≡ (total_bytes + block_size - 1) / block_size)

num_blocks-AllBytes :
    (max_size : Bool) (total_bytes : ℕ) → 0 < total_bytes → AllBytes total_bytes (size_of max_size)
num_blocks-AllBytes true t some_bytes = elim (Bool-cases (ltb 0 (t % 524288))) [
  | inl rem ↦
      let h = ltb→lt 0 _ rem in
      (t / 524288, rw rem (omega arith), rw rem (omega arith), omega arith)
  | inr none_left ↦
      let h = ltb→le 0 _ none_left in
      (t / 524288 - 1, rw none_left (omega arith), rw none_left (omega arith), omega arith)
]
num_blocks-AllBytes false t some_bytes = elim (Bool-cases (ltb 0 (t % 262144))) [
  | inl rem ↦
      let h = ltb→lt 0 _ rem in
      (t / 262144, rw rem (omega arith), rw rem (omega arith), omega arith)
  | inr none_left ↦
      let h = ltb→le 0 _ none_left in
      (t / 262144 - 1, rw none_left (omega arith), rw none_left (omega arith), omega arith)
]

size_of-pos : (max_size : Bool) → 0 < size_of max_size
size_of-pos true = omega arith
size_of-pos false = omega arith

mod-lt : (max_size : Bool) (t : ℕ) → t % size_of max_size < size_of max_size
mod-lt true t = omega arith
mod-lt false t = omega arith

total-eq :
    (bitrate segment_length : ℕ)
    → bitrate * segment_length < word
    → total bitrate segment_length ≡ bitrate * segment_length / 8
unfolding mul64
total-eq bitrate segment_length fits = omega arith

num_blocks-zero : (max_size : Bool) → num_blocks 0 (size_of max_size) ≡ 0
num_blocks-zero true = refl
num_blocks-zero false = refl

-- A segment with a byte has blocks.
pub generate_blocks_some :
    {R : Type 0} (fill_bytes : R → ℕ → R × List ℕ) (digest : List ℕ → Cid) (rng : R)
    (bitrate segment_length : ℕ) (max_size : Bool)
    → 0 < total bitrate segment_length
    → generate_blocks fill_bytes digest rng bitrate segment_length max_size
      ≡ ok (blocks_made fill_bytes digest rng bitrate segment_length max_size)
unfolding generate_blocks
generate_blocks_some fill_bytes digest rng bitrate segment_length max_size some_bytes =
    let (n, count, _, _) = num_blocks-AllBytes max_size (total bitrate segment_length) some_bytes in
    let made : (num_blocks (total bitrate segment_length) (size_of max_size) == 0) ≡ false =
      rw count (ground arith) in
    rw made refl

-- A segment without one ends the process.
pub generate_blocks_none :
    {R : Type 0} (fill_bytes : R → ℕ → R × List ℕ) (digest : List ℕ → Cid) (rng : R)
    (bitrate segment_length : ℕ) (max_size : Bool)
    → total bitrate segment_length ≡ 0
    → generate_blocks fill_bytes digest rng bitrate segment_length max_size ≡ panic out_of_memory
unfolding generate_blocks
generate_blocks_none fill_bytes digest rng bitrate segment_length max_size none_left =
    let none_made =
      ap (λ t. num_blocks t (size_of max_size)) none_left ∙ num_blocks-zero max_size in
    rw none_made refl

module _ {R : Type 0} (fill_bytes : R → ℕ → R × List ℕ) (digest : List ℕ → Cid) where
  abbrev pub Proper : ℕ → Block → Type 0
  Proper block_size b =
      (0 < length b.bytes) × (length b.bytes ≤ block_size) × (b.cid ≡ digest b.bytes)

  abbrev pub Sized : ℕ → ℕ → List Block → Type 0
  Sized total_bytes block_size bs =
      (byte_count bs ≡ total_bytes)
      × All (Proper block_size) bs
      × (length bs ≡ (total_bytes + block_size - 1) / block_size)

  abbrev pub SizedSegment : R → ℕ → ℕ → Bool → Type 0
  SizedSegment rng bitrate segment_length max_size =
      (made : R × List Block) × (generate_blocks fill_bytes digest rng bitrate segment_length
          max_size
        ≡ ok made)
      × Sized (bitrate * segment_length / 8) (size_of max_size) made.1

  module _ (fills : (r : R) (n : ℕ) → length (fill_bytes r n).1 ≡ n) where
    blocks_from-length :
        (block_size remainder_bytes n : ℕ) (rng : R)
        → length (blocks_from fill_bytes digest block_size remainder_bytes n rng).1 ≡ n
    unfolding blocks_from
    blocks_from-length block_size remainder_bytes zero rng = refl
    blocks_from-length block_size remainder_bytes (suc n) rng =
        ap suc (blocks_from-length block_size remainder_bytes n _)

    blocks_from-bytes :
        (block_size remainder_bytes n : ℕ) (rng : R)
        → byte_count (blocks_from fill_bytes digest block_size remainder_bytes (suc n) rng).1
          ≡ n * block_size + last_size block_size remainder_bytes
    unfolding blocks_from
    blocks_from-bytes block_size remainder_bytes zero rng =
        let h = fills rng (size_at block_size remainder_bytes 0) in
        let l = size_at-last block_size remainder_bytes in omega arith
    blocks_from-bytes block_size remainder_bytes (suc n) rng =
        let h = fills rng (size_at block_size remainder_bytes (suc n)) in
        let l = size_at-full block_size remainder_bytes n in
        let rest =
          blocks_from-bytes block_size remainder_bytes n
            (fill_bytes rng (size_at block_size remainder_bytes (suc n))).0 in
        omega arith

    blocks_from-Proper :
        (block_size remainder_bytes n : ℕ) (rng : R)
        → 0 < block_size
        → remainder_bytes < block_size
        → All (Proper block_size) (blocks_from fill_bytes digest block_size remainder_bytes n rng).1
    unfolding blocks_from
    blocks_from-Proper block_size remainder_bytes zero rng pos small = tt
    blocks_from-Proper block_size remainder_bytes (suc n) rng pos small =
        let h = fills rng (size_at block_size remainder_bytes n) in
        let (low, high) = size_at-bounds block_size remainder_bytes n pos small in
        (
          (omega arith, omega arith, refl),
          blocks_from-Proper block_size remainder_bytes n _ pos small,
        )

    -- If the segment has a byte and its number of bits fits in a word, `generate_blocks` returns
    -- blocks. They have together the
    -- bytes of the segment; each has the CID of its data, is not empty and is at most the block
    -- size; and there are no more blocks than that takes.
    pub generate_blocks-Sized :
        (rng : R) (bitrate segment_length : ℕ) (max_size : Bool)
        → 8 ≤ bitrate * segment_length
        → bitrate * segment_length < word
        → SizedSegment rng bitrate segment_length max_size
    unfolding blocks_made
    generate_blocks-Sized rng bitrate segment_length max_size some_bytes fits =
        let size = size_of max_size in
        let t = bitrate * segment_length / 8 in
        let (n, count, sum, least) = num_blocks-AllBytes max_size t (omega arith) in
        let e = total-eq bitrate segment_length fits in
        (
          _,
          generate_blocks_some fill_bytes digest rng bitrate segment_length max_size (omega arith),
          rw (e, count)
              (
                blocks_from-bytes size (t % size) n rng ∙ sum,
                blocks_from-Proper size (t % size) (suc n) rng (size_of-pos max_size)
                    (mod-lt max_size t),
                blocks_from-length size (t % size) (suc n) rng ∙ least,
              ),
        )
