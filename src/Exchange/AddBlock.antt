-- ===== src/Exchange/AddBlock.antt =====
-- The state of the exchange after `add_block` has taken in a block.
pub mod New
pub mod Known
pub mod Both
use mathlib.Core.Option
use live_tests.Base.{
  ℕ, suc, ◌-◌, ◌≤◌, ◌<◌, ◌≡◌, ◌⊎◌, inl, inr, refl, sym, ap, ◌∙◌, List, [], ◌∷◌, ◌++◌, map, true,
  false, none, some, All-map, All-mono, length, length-append, get_elem?, get_elem?-append,
  get_elem?-lt, lt-get_elem?, get_elem?-last, position, position-get_elem?, Distinct, Distinct-push,
  Distinct-transpose, transpose, swap-transpose, ok, ltb, ltb→lt, ltb→le, ◌==◌, if◌then◌else◌,
  Bool-cases, Option-cases, arith,
}
use live_tests.Exchange.{PeerId, Cid, Block, BlockExchange, relabel, store, add_block, get_block}
use live_tests.Exchange.Represents.{Entry, want, Resolves, Represents}
use live_tests.Exchange.Iterate.{block_of, find_block-get_elem?}
use live_tests.Exchange.Store.{
  scan_cids-missing, scan_cids-found, find_block-missing, find_block-beyond, Refiled,
  find_block-filed,
}

-- A want for `cid` turned into one for `moved`.
abbrev pub redirect : Cid → Cid → PeerId × Cid → PeerId × Cid
redirect cid moved x = (x.0, if x.1 == cid then moved else x.1)

pub redirect_same : (cid : Cid) (w : List (PeerId × Cid)) → map (redirect cid cid) w ≡ w
redirect_same cid [] = refl
redirect_same cid (x ∷ w) = ground (arith, redirect_same cid w)

abbrev pub last_place : List Cid → ℕ
last_place cids = length cids - 1

-- The state after `b` was taken in. A CID that is not in the table is put at its end; one that is,
-- at a place past the data, and the last CID `moved` exchange their places, and all others stay.
-- The data goes behind the data, so to the CID `filed` that then stands at that place, which is
-- the block's own one only if that is now the end. Wants for the CID have become wants for `moved`.
pub record Stored (e : BlockExchange) (w : List (PeerId × Cid)) (b : Block) (after : BlockExchange)
    : Type 0 where
  pub filed : Cid
  pub moved : Cid
  pub represents : Represents after (map (redirect b.cid moved) w)
  pub place : get_elem? after.cids (length e.datums) ≡ some filed
  pub last : get_elem? after.cids (last_place after.cids) ≡ some b.cid
  pub kept_cid :
      (k c : ℕ) → get_elem? e.cids k ≡ some c → (k' : ℕ) × (get_elem? after.cids k' ≡ some c)
  pub datums : after.datums ≡ e.datums ++ b.bytes ∷ []
  pub size : length after.datums ≡ suc (length e.datums)
  pub lookups :
      (c : Cid)
      → get_block after c ≡ (if c == filed then some (block_of c b.bytes) else get_block e c)
  pub unknown : position b.cid e.cids ≡ none → (moved ≡ b.cid) × (after.cids ≡ e.cids ++ b.cid ∷ [])
  pub known :
      (i : ℕ)
      → position b.cid e.cids ≡ some i
      → (get_elem? e.cids (last_place e.cids) ≡ some moved)
        × (length after.cids ≡ length e.cids)
        × (length e.datums ≤ i)
        × ((k : ℕ) → get_elem? after.cids k ≡ get_elem? e.cids (transpose (last_place e.cids) i k))
