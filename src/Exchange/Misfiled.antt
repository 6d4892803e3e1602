-- ===== src/Exchange/Misfiled.antt =====
-- When `add_block` files a block under its own CID, and when it does not.
use live_tests.Base.{
  ℕ, suc, ◌≤◌, ◌<◌, ◌≡◌, ◌≢◌, inl, inr, refl, ap, subst, ◌∙◌, List, [], ◌∷◌, map, true, none, some,
  length, length-append, get_elem?, get_elem?-lt, lt-get_elem?, position, position-get_elem?,
  position-none, position_of_get, ok, ltb, ltb→lt, ltb→le, ◌==◌, ==→≡, ==→≢, if◌then◌else◌,
  Bool-cases, Option-cases, arith,
}
use live_tests.Exchange.{
  PeerId, Cid, Block, BlockExchange, add_block, get_block, iter_who_want_block,
}
use live_tests.Exchange.Represents.{Represents}
use live_tests.Exchange.Iterate.{
  block_of, find_block-get_elem?, wanters, iter_who_want_block-wanters,
}
use live_tests.Exchange.Store.{find_block-beyond}
use live_tests.Exchange.AddBlock.{Stored, redirect, redirect_same, last_place}
use live_tests.Exchange.AddBlock.Both.{add_block_cases}

module _ (e : BlockExchange) (w : List (PeerId × Cid)) (r : Represents e w) where
  -- A CID that stands at a place past the data has no block, and one with no block stands there.
  past_data : (k c : ℕ) → get_elem? e.cids k ≡ some c → length e.datums ≤ k → get_block e c ≡ none
  unfolding get_block
  past_data k c h high = find_block-beyond c e.cids e.datums k r.cids_distinct h high

  no_data : (k c : ℕ) → get_elem? e.cids k ≡ some c → get_block e c ≡ none → length e.datums ≤ k
  unfolding get_block
  no_data k c h miss = elim (Bool-cases (ltb k (length e.datums))) [
    | inl low ↦
        let (a, ea) = lt-get_elem? e.datums k (ltb→lt _ _ low) in
        absurd (ground (arith, find_block-get_elem? c e.cids e.datums k r.cids_distinct h, ea))
    | inr high ↦ ltb→le _ _ high
  ]

  module _ (b : Block) (missing : get_block e b.cid ≡ none) where
    -- Where no block is held, the block is taken in.
    taken : (after : BlockExchange) × (add_block e b ≡ ok (after, true)) × Stored e w b after
    taken = elim (add_block_cases e w b r) [
      | inl (old, held, _) ↦ absurd (ground arith)
      | inr (after, _, returns, s) ↦ (after, returns, s)
    ]

    module _ (after : BlockExchange) (s : Stored e w b after) where
      open s use {represents as r'}

      -- The data is filed under its own CID only if no other place is without data.
      filed_last : s.filed ≡ b.cid → suc (length e.datums) ≡ length after.cids
      filed_last same =
          let here = get_elem?-lt after.cids (length e.datums) s.filed s.place in
          let at =
            r'.cids_distinct (length e.datums) (last_place after.cids) b.cid
              (s.place ∙ ap some same) s.last in
          omega arith

      last_filed : suc (length e.datums) ≡ length after.cids → s.filed ≡ b.cid
      last_filed full =
          let at : last_place after.cids ≡ length e.datums = omega arith in
          let h = subst (λ k. get_elem? after.cids k ≡ some b.cid) at s.last in
          ground (arith, s.place)

-- Every other CID that the exchange knows has its block.
abbrev pub OthersHeld : BlockExchange → Cid → Type 0
OthersHeld e cid = (k c : ℕ) → get_elem? e.cids k ≡ some c → c ≢ cid → get_block e c ≢ none

module _ (e : BlockExchange) (w : List (PeerId × Cid)) (r : Represents e w) (b : Block)
    (missing : get_block e b.cid ≡ none) where
  module _ (others : OthersHeld e b.cid) (after : BlockExchange) (s : Stored e w b after) where
    -- Past the data there is no CID but that of the block.
    alone_past_data : (k c : ℕ) → get_elem? e.cids k ≡ some c → length e.datums ≤ k → c ≡ b.cid
    alone_past_data k c h high = elim (Bool-cases (c == b.cid)) [
      | inl same ↦ ==→≡ c b.cid same
      | inr other ↦ absurd (others k c h (==→≢ c b.cid other) (past_data e w r k c h high))
    ]

    all_but_last : suc (length e.datums) ≡ length after.cids
    all_but_last = elim (Option-cases (position b.cid e.cids)) [
      | inl p ↦
          let held = r.held in
          elim (Bool-cases (ltb (length e.datums) (length e.cids))) [
            | inl more ↦
                let (c, h) = lt-get_elem? e.cids (length e.datums) (ltb→lt _ _ more) in
                let same = alone_past_data (length e.datums) c h (omega arith) in
                absurd (position-none b.cid e.cids (length e.datums) p (h ∙ ap some same))
            | inr full ↦
                let le = ltb→le (length e.datums) (length e.cids) full in
                omega (arith, ap length (s.unknown p).1, length-append e.cids (b.cid ∷ []))
          ]
      | inr (i, p) ↦
          let (end, size, high, _) = s.known i p in
          let hi = position-get_elem? b.cid e.cids i p in
          let lt = get_elem?-lt e.cids i b.cid hi in
          let (c, h) = lt-get_elem? e.cids (length e.datums) (omega arith) in
          let first = alone_past_data (length e.datums) c h (omega arith) in
          let last = alone_past_data (last_place e.cids) s.moved end (omega arith) in
          let here = r.cids_distinct (length e.datums) i b.cid (h ∙ ap some first) hi in
          let there = r.cids_distinct (last_place e.cids) i b.cid (end ∙ ap some last) hi in
          omega arith
    ]

    not_moved : s.moved ≡ b.cid
    not_moved = elim (Option-cases (position b.cid e.cids)) [
      | inl p ↦ (s.unknown p).0
      | inr (i, p) ↦
          let (end, size, high, _) = s.known i p in
          let lt = get_elem?-lt e.cids i b.cid (position-get_elem? b.cid e.cids i p) in
          alone_past_data (last_place e.cids) s.moved end (omega arith)
    ]

  -- If the exchange lacks the block, and every other CID that it knows has its block, then
  -- `add_block` returns true, the block is found under its CID, every other lookup is as before,
  -- and the wants are the same.
  pub add_block_files :
      OthersHeld e b.cid
      → (after : BlockExchange) × (add_block e b ≡ ok (after, true))
        × Represents after w
        × ((c : Cid) → get_block after c ≡ (if c == b.cid then some b else get_block e c))
  add_block_files others =
      let (after, returns, s) = taken e w r b missing in
      let filed = last_filed e w r b missing after s (all_but_last others after s) in
      let same =
        ap (λ m. map (redirect b.cid m) w) (not_moved others after s) ∙ redirect_same b.cid w in
      (
        after,
        returns,
        subst (Represents after) same s.represents,
        λ c. ground (arith, s.lookups c, filed),
      )

  -- If the exchange lacks the block, and knows another CID without its block, then `add_block`
  -- returns true but the block is not found under its CID; its data is found under another CID.
  pub add_block_misfiles :
      (k y : ℕ)
      → get_elem? e.cids k ≡ some y
      → y ≢ b.cid
      → get_block e y ≡ none
      → (after : BlockExchange) × (add_block e b ≡ ok (after, true))
        × (get_block after b.cid ≡ none)
        × ((z : Cid) × (z ≢ b.cid) × (get_block after z ≡ some (block_of z b.bytes)))
  add_block_misfiles k y h other lacking =
      let (after, returns, s) = taken e w r b missing in
      let high = no_data e w r k y h lacking in
      let wrong : s.filed ≢ b.cid =
        λ same. crowded after s k y h other high (filed_last e w r b missing after s same) in
      (
        after,
        returns,
        ground (arith, s.lookups b.cid),
        (s.filed, wrong, ground (arith, s.lookups s.filed)),
      )
    where
      crowded :
          (after : BlockExchange) (s : Stored e w b after) (k y : ℕ)
          → get_elem? e.cids k ≡ some y
          → y ≢ b.cid
          → length e.datums ≤ k
          → suc (length e.datums) ≢ length after.cids
      crowded after s k y h other high full =
          let lt = get_elem?-lt e.cids k y h in
          elim (Option-cases (position b.cid e.cids)) [
            | inl p ↦
                absurd (omega (arith, ap length (s.unknown p).1, length-append e.cids (b.cid ∷ [])))
            | inr (i, p) ↦
                let (end, size, past, _) = s.known i p in
                let hi = position-get_elem? b.cid e.cids i p in
                let lti = get_elem?-lt e.cids i b.cid hi in
                let same : k ≡ i = omega arith in other (ground arith)
          ]

  -- If the block's CID is known, lacks its block and is not the last of the table, then after
  -- `add_block` no peer wants it any more, whoever wanted it before.
  pub add_block_loses_wants :
      (i : ℕ)
      → get_elem? e.cids i ≡ some b.cid
      → suc i < length e.cids
      → (after : BlockExchange) × (add_block e b ≡ ok (after, true))
        × (iter_who_want_block after b.cid ≡ ok [])
  add_block_loses_wants i h inner =
      let (after, returns, s) = taken e w r b missing in
      let p = position_of_get b.cid e.cids i r.cids_distinct h in
      let (end, size, past, _) = s.known i p in
      let moved : s.moved ≢ b.cid = λ same.
        let at = r.cids_distinct (last_place e.cids) i b.cid (end ∙ ap some same) h in
        absurd (omega arith) in
      (
        after,
        returns,
        iter_who_want_block-wanters after _ s.represents b.cid ∙ ap ok (none_left s.moved moved w),
      )
    where
      none_left :
          (z : Cid)
          → z ≢ b.cid
          → (x : List (PeerId × Cid)) → wanters b.cid (map (redirect b.cid z) x) ≡ []
      none_left z h [] = refl
      none_left z h (p ∷ x) = ground (arith, none_left z h x)
