-- ===== src/Exchange/AddBlock/Both.antt =====
-- `add_block` on both of its paths.
use mathlib.Core.Option
use live_tests.Base.{
  ◌≡◌, ◌⊎◌, inl, inr, refl, ap, ◌∙◌, List, true, false, none, some, length, get_elem?-lt,
  lt-get_elem?, position, position-get_elem?, swap-transpose, ok, ltb, ltb→lt, ltb→le, Bool-cases,
  Option-cases, arith,
}
use live_tests.Exchange.{PeerId, Cid, Block, BlockExchange, store, add_block, get_block}
use live_tests.Exchange.Represents.{Represents}
use live_tests.Exchange.Iterate.{block_of, find_block-get_elem?}
use live_tests.Exchange.Store.{
  scan_cids-missing, scan_cids-found, find_block-missing, find_block-beyond,
}
use live_tests.Exchange.AddBlock.New.{pushed-Stored}
use live_tests.Exchange.AddBlock.Known.{exchanged, exchanged-Stored}
use live_tests.Exchange.AddBlock.{last_place, Stored}

-- Both outcomes of `add_block`.
abbrev pub AddsBlock : BlockExchange → List (PeerId × Cid) → Block → Type 0
AddsBlock e w b =
    ((old : Block) × (get_block e b.cid ≡ some old) × (add_block e b ≡ ok (e, false)))
    ⊎ ((after : BlockExchange) × (get_block e b.cid ≡ none)
        × (add_block e b ≡ ok (after, true))
        × Stored e w b after)

-- If the exchange holds a block of the CID, `add_block` returns false and changes nothing. If not,
-- it returns true and puts the data behind the data. A CID that the exchange does not know goes to
-- the end of the table. One that it knows, which has no data, changes places with the last CID of
-- the table, and the wants for the one are then wants for the other; all other CIDs stay. The data
-- is then found under the CID that stands at its place in the new table, whether it is the block's
-- or not, and what is found under any other CID is as before.
pub add_block_cases :
    (e : BlockExchange) (w : List (PeerId × Cid)) (b : Block) → Represents e w → AddsBlock e w b
unfolding add_block get_block
add_block_cases e w b r = elim (Option-cases (position b.cid e.cids)) [
  | inl p ↦ inr (
    _,
    find_block-missing b.cid e.cids e.datums p,
    ap (store e b) (scan_cids-missing b.cid (length e.datums) 0 e.cids none p),
    pushed-Stored e w r b p,
  )
  | inr (i, p) ↦
      let hi = position-get_elem? b.cid e.cids i p in
      let scanned = ap (store e b) (
        scan_cids-found b.cid (length e.datums) 0 e.cids none i i r.cids_distinct p
          (omega arith)) in
      elim (Bool-cases (ltb i (length e.datums))) [
        | inl low ↦
            let (bytes, eb) = lt-get_elem? e.datums i (ltb→lt _ _ low) in
            inl (
              block_of b.cid bytes,
              find_block-get_elem? b.cid e.cids e.datums i r.cids_distinct hi
                  ∙ ap (Option.map (block_of b.cid)) eb,
              scanned ∙ rw low refl,
            )
        | inr not_low ↦
            let high = ltb→le i (length e.datums) not_low in
            let lt = get_elem?-lt e.cids i b.cid hi in
            let (moved, end) = lt-get_elem? e.cids (last_place e.cids) (omega arith) in
            let (ys, swapped, size, at) =
              swap-transpose e.cids (last_place e.cids) i (omega arith) lt in
            inr (
              exchanged e w r b i p high ys size at moved end,
              find_block-beyond b.cid e.cids e.datums i r.cids_distinct hi high,
              scanned ∙ rw not_low (rw swapped refl),
              exchanged-Stored e w r b i p high ys size at moved end,
            )
      ]
]
