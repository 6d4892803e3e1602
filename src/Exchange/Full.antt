-- ===== src/Exchange/Full.antt =====
-- An exchange that has the data of every CID it knows, as at a node that asks for nothing.
use live_tests.Base.{
  ◌≡◌, inl, inr, refl, ap, ◌∙◌, subst, List, [], ◌∷◌, map, Bool, true, false, none, some, length,
  length-append, get_elem?, get_elem?-lt, position, position-get_elem?, ok, ◌==◌, ==→≡,
  if◌then◌else◌, Bool-cases, Option-cases, Option, All, All-mono, ==_refl, arith,
}
use live_tests.Exchange.{PeerId, Cid, Block, BlockExchange, add_block, get_block}
use live_tests.Exchange.Represents.{Represents}
use live_tests.Exchange.Iterate.{block_of}
use live_tests.Exchange.AddBlock.{redirect, redirect_same, last_place}
use live_tests.Exchange.AddBlock.Both.{add_block_cases}

abbrev pub Full : BlockExchange → Type 0
Full e = length e.datums ≡ length e.cids

abbrev pub or_else : Option Block → Option Block → Option Block
or_else (some b) other = some b
or_else none other = other

-- The first block with the CID.
abbrev pub first_with : Cid → List Block → Option Block
first_with cid [] = none
first_with cid (b ∷ bs) = let rest = first_with cid bs in if cid == b.cid then some b else rest

pub or_else-none : (o : Option Block) → o ≡ or_else o none
or_else-none (some b) = refl
or_else-none none = refl

abbrev pub StaysFull : BlockExchange → List (PeerId × Cid) → Block → Type 0
StaysFull e w b =
    (after : BlockExchange) × (added : Bool) × (add_block e b ≡ ok (after, added))
    × Represents after w
    × Full after
    × ((c : Cid)
        → get_block after c ≡ or_else (get_block e c) (if c == b.cid then some b else none))

-- A new block is found under its CID, and what was held is found as before.
pub add_block-StaysFull :
    (e : BlockExchange) (w : List (PeerId × Cid)) (b : Block)
    → Represents e w
    → Full e
    → StaysFull e w b
add_block-StaysFull e w b r full = elim (add_block_cases e w b r) [
  | inl (old, held, same) ↦ (e, false, same, r, full, λ c. unchanged old held c)
  | inr (after, missing, returns, s) ↦ elim (Option-cases (position b.cid e.cids)) [
    | inl p ↦
        let (stays, grown) = s.unknown p in
        let size = ap length grown ∙ length-append e.cids (b.cid ∷ []) in
        let filled = s.size in
        let end : last_place after.cids ≡ length e.datums = omega arith in
        let last = subst (λ k. get_elem? after.cids k ≡ some b.cid) end s.last in
        let filed : s.filed ≡ b.cid = ground (arith, s.place) in
        (
          after,
          true,
          returns,
          subst (Represents after)
              (ap (λ m. map (redirect b.cid m) w) stays ∙ redirect_same b.cid w) s.represents,
          omega arith,
          λ c. s.lookups c ∙ found s.filed filed missing c,
        )
    | inr (i, p) ↦
        let (end, size, past, _) = s.known i p in
        let lt = get_elem?-lt e.cids i b.cid (position-get_elem? b.cid e.cids i p) in
        absurd (omega arith)
  ]
]
  where
    held_as :
        (old : Block)
        → get_block e b.cid ≡ some old
        → (c : Cid) → c ≡ b.cid
        → get_block e c ≡ some old
    held_as old held c at = ap (get_block e) at ∙ held

    unchanged :
        (old : Block)
        → get_block e b.cid ≡ some old
        → (c : Cid) → get_block e c ≡ or_else (get_block e c) (if c == b.cid then some b else none)
    unchanged old held c = elim (Bool-cases (c == b.cid)) [
      | inl same ↦ let h = held_as old held c (==→≡ c b.cid same) in rw h refl
      | inr other ↦ rw other (or_else-none (get_block e c))
    ]

    found :
        (filed : Cid)
        → filed ≡ b.cid
        → get_block e b.cid ≡ none
        → (c : Cid)
        → (if c == filed then some (block_of c b.bytes) else get_block e c)
          ≡ or_else (get_block e c) (if c == b.cid then some b else none)
    found filed same missing c = elim (Bool-cases (c == b.cid)) [
      | inl here ↦
          let at = ==→≡ c b.cid here in
          rw (same, here, ap (get_block e) at ∙ missing) (ap (λ k. some (block_of k b.bytes)) at)
      | inr other ↦ rw (same, other) (or_else-none (get_block e c))
    ]

-- Two blocks looked up one after the other.
pub or_else_twice :
    (held : Option Block) (here : Bool) (b : Block) (later : Option Block)
    → or_else (or_else held (if here then some b else none)) later
      ≡ or_else held (if here then some b else later)
or_else_twice (some old) here b later = refl
or_else_twice none true b later = refl
or_else_twice none false b later = refl

abbrev pub Found : Option Block → Type 0
Found o = (b : Block) × (o ≡ some b)

pub first_with-Found : (blocks : List Block) → All (λ b. Found (first_with b.cid blocks)) blocks
first_with-Found [] = tt
first_with-Found (x ∷ blocks) = (
  (x, rw (==_refl x.cid) refl),
  All-mono (λ b. Found (first_with b.cid blocks)) (λ b. Found (first_with b.cid (x ∷ blocks)))
      (λ b (y, e). elim (Bool-cases (b.cid == x.cid)) [
        | inl same ↦ (x, rw same refl)
        | inr other ↦ (y, rw other e)
      ])
      blocks (first_with-Found blocks),
)

pub or_else-Found : (held later : Option Block) → Found later → Found (or_else held later)
or_else-Found (some b) later found = (b, refl)
or_else-Found none later found = found
