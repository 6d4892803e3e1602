-- ===== src/Exchange.antt =====
-- The block exchange: which peer wants which block, and the blocks that are held
-- (plans/streaming_test/src/ipfs/block_exchange.rs).
pub mod Represents
pub mod Want
pub mod Pass
pub mod Remove
pub mod Iterate
pub mod Lookup
pub mod Sort
pub mod Store
pub mod AddBlock
pub mod Full
pub mod Misfiled
pub mod Ops
pub mod Cases
mod Tests
use live_tests.Base.{
  ℕ, zero, suc, ◌+◌, ◌-◌, ◌≤◌, List, [], ◌∷◌, ◌++◌, map, Bool, true, false, ◌&&◌, Option, none,
  some, Outcome, ok, ◌>>=◌, index, remove, swap, position, length, ltb, leb, ◌==◌, if◌then◌else◌,
}
use live_tests.Parallel.{sort}

-- Identifiers are only compared.
abbrev pub PeerId : Type 0
PeerId = ℕ

abbrev pub Cid : Type 0
Cid = ℕ

abbrev pub Bytes : Type 0
Bytes = List ℕ

pub record Block : Type 0 where
  pub cid : Cid
  pub bytes : Bytes

pub record BlockExchange : Type 0 where
  pub peers : List PeerId
  pub peer_indices : List ℕ
  pub cid_indices : List ℕ
  pub cids : List Cid
  pub datums : List Bytes

abbrev pub default : BlockExchange
default = record { peers = []; peer_indices = []; cid_indices = []; cids = []; datums = [] }

unfoldable pub insertion_sort_wants : BlockExchange → Outcome BlockExchange
insertion_sort_wants e = do
  (peer_indices, cid_indices) ← sort e.peer_indices e.cid_indices
  ok (record e { peer_indices = peer_indices; cid_indices = cid_indices })

-- The iterator's closure at one pair of indices: no item if the block is not held.
unfoldable pub wanted_item : BlockExchange → ℕ → ℕ → Option (Outcome (PeerId × Block))
wanted_item e peer_index cid_index =
    if leb (length e.datums) cid_index
    then none
    else some (do
      peer ← index e.peers peer_index
      bytes ← index e.datums cid_index
      cid ← index e.cids cid_index
      ok (peer, record { cid = cid; bytes = bytes }))

abbrev pub push_item {ℓ} : {A : Type ℓ} → Option A → List A → List A
push_item none items = items
push_item (some a) items = a ∷ items

wanted_items : BlockExchange → List ℕ → List ℕ → List (Outcome (PeerId × Block))
unfolding wanted_item
wanted_items e (p ∷ ps) (c ∷ cs) = push_item (wanted_item e p c) (wanted_items e ps cs)
wanted_items e _ _ = []

-- The items of the iterator in their order, each the outcome of asking for it.
unfoldable pub iter_wanted_blocks : BlockExchange → List (Outcome (PeerId × Block))
unfolding wanted_items
iter_wanted_blocks e = wanted_items e e.peer_indices e.cid_indices

who_want : BlockExchange → Cid → ℕ → List ℕ → Outcome (List PeerId)
who_want e cid i [] = ok []
who_want e cid i (idx ∷ cs) = do
  id ← index e.cids idx
  let skip = who_want e cid (suc i) cs
  let take = do
    peer_idx ← index e.peer_indices i
    peer ← index e.peers peer_idx
    rest ← who_want e cid (suc i) cs
    ok (peer ∷ rest)
  if id == cid then take else skip

-- The iterator run to its end, as its callers do.
unfoldable pub iter_who_want_block : BlockExchange → Cid → Outcome (List PeerId)
unfolding who_want
iter_who_want_block e cid = who_want e cid 0 e.cid_indices

-- The place of an identifier in a table, which grows by it if it is new.
abbrev intern_at : List ℕ → ℕ → Option ℕ → List ℕ × ℕ
intern_at table a (some i) = (table, i)
intern_at table a none = (table ++ a ∷ [], length table)

intern : List ℕ → ℕ → List ℕ × ℕ
unfolding position
intern table a = intern_at table a (position a table)

unfoldable pub add_want : BlockExchange → PeerId → Cid → BlockExchange
unfolding intern
add_want e peer_id cid =
    let peer = intern e.peers peer_id in
    let item = intern e.cids cid in
    record e {
      peers = peer.0;
      cids = item.0;
      peer_indices = e.peer_indices ++ peer.1 ∷ [];
      cid_indices = e.cid_indices ++ item.1 ∷ [];
    }

-- Both index vectors lose their element `i`.
drop_want : BlockExchange → ℕ → Outcome BlockExchange
unfolding remove
drop_want e i = do
  peer_indices ← remove e.peer_indices i
  cid_indices ← remove e.cid_indices i
  ok (record e { peer_indices = peer_indices; cid_indices = cid_indices })

-- A round of the reverse loops at `i`: the want goes if the test says so.
drop_if : (BlockExchange → ℕ → Outcome Bool) → BlockExchange → ℕ → Outcome BlockExchange
unfolding drop_want
drop_if test e i = do hit ← test e i; if hit then drop_want e i else ok e

-- The reverse loops, from `i` down to 0.
pub drop_from : (BlockExchange → ℕ → Outcome Bool) → ℕ → BlockExchange → Outcome BlockExchange
unfolding drop_if
drop_from test zero e = drop_if test e zero
drop_from test (suc i) e = do e' ← drop_if test e (suc i); drop_from test i e'

wants_cid : ℕ → BlockExchange → ℕ → Outcome Bool
wants_cid cid_index e i = do k ← index e.cid_indices i; ok (k == cid_index)

-- `&&` reads the CID only for the peer that is meant.
wants_pair : ℕ → Cid → BlockExchange → ℕ → Outcome Bool
wants_pair peer_idx cid e i = do
  p ← index e.peer_indices i
  let same = do c ← index e.cid_indices i; id ← index e.cids c; ok (cid == id)
  if peer_idx == p then same else ok false

abbrev drop_found :
    (ℕ → BlockExchange → ℕ → Outcome Bool) → BlockExchange → ℕ → Option ℕ → Outcome BlockExchange
drop_found test e len none = ok e
drop_found test e len (some k) = drop_from (test k) (len - 1) e

unfoldable pub remove_wants : BlockExchange → Cid → Outcome BlockExchange
unfolding drop_from wants_cid position
remove_wants e cid =
    if length e.cid_indices == 0
    then ok e
    else drop_found wants_cid e (length e.cid_indices) (position cid e.cids)

unfoldable pub remove_want : BlockExchange → PeerId → Cid → Outcome BlockExchange
unfolding drop_from wants_pair position
remove_want e peer_id cid =
    if length e.peer_indices == 0
    then ok e
    else drop_found (λ p. wants_pair p cid) e (length e.peer_indices) (position peer_id e.peers)

pub find_block : Cid → List Cid → List Bytes → Option Block
find_block cid (id ∷ ids) (bytes ∷ ds) =
    if cid == id then some (record { cid = id; bytes = bytes }) else find_block cid ids ds
find_block cid _ _ = none

unfoldable pub get_block : BlockExchange → Cid → Option Block
unfolding find_block
get_block e cid = find_block cid e.cids e.datums

-- What the loop of `add_block` over the CIDs comes to.
pub data Scan : Type 0 where
  returns_false : Scan
  ends : Option ℕ → Scan

pub scan_cids : Cid → ℕ → ℕ → List Cid → Option ℕ → Scan
scan_cids cid held i [] found = ends found
scan_cids cid held i (id ∷ ids) found =
    let go_on = scan_cids cid held (suc i) ids found in
    let note = scan_cids cid held (suc i) ids (some i) in
    if id == cid then (if ltb i held then returns_false else note) else go_on

-- The two tests of the loop over the index vector, one after the other.
pub relabel : ℕ → ℕ → ℕ → ℕ
relabel i last_index k =
    let k' = if k == i then last_index else k in if k' == last_index then i else k'

store : BlockExchange → Block → Scan → Outcome (BlockExchange × Bool)
unfolding relabel
store e b returns_false = ok (e, false)
store e b (ends (some i)) = do
  let last_index = length e.cids - 1
  cids ← swap e.cids last_index i
  ok (
    record e {
      cids = cids;
      cid_indices = map (relabel i last_index) e.cid_indices;
      datums = e.datums ++ b.bytes ∷ [];
    },
    true,
  )
store e b (ends none) =
    ok (record e { cids = e.cids ++ b.cid ∷ []; datums = e.datums ++ b.bytes ∷ [] }, true)

unfoldable pub add_block : BlockExchange → Block → Outcome (BlockExchange × Bool)
unfolding scan_cids store
add_block e b = store e b (scan_cids b.cid (length e.datums) 0 e.cids none)
