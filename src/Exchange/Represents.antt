-- ===== src/Exchange/Represents.antt =====
-- The abstract state of the exchange: who wants what, as one list in order of arrival.
use live_tests.Base.{
  ℕ, ◌≤◌, ◌≡◌, refl, ap, ◌∙◌, List, [], map, some, All, length, length-map, get_elem?, Distinct,
  arith,
}
use live_tests.Exchange.{PeerId, Cid, BlockExchange, default}

-- A want by its two indices, with the identifiers that they stand for.
pub record Entry : Type 0 where
  pub peer_index : ℕ
  pub cid_index : ℕ
  pub peer : PeerId
  pub cid : Cid

abbrev pub want : Entry → PeerId × Cid
want n = (n.peer, n.cid)

abbrev pub Resolves : BlockExchange → Entry → Type 0
Resolves e n =
    (get_elem? e.peers n.peer_index ≡ some n.peer) × (get_elem? e.cids n.cid_index ≡ some n.cid)

-- `e` records the wants `w`: the index vectors have one length and resolve to `w` in order, no
-- identifier has two places, and there are no more blocks than CIDs.
pub record Represents (e : BlockExchange) (w : List (PeerId × Cid)) : Type 0 where
  pub entries : List Entry
  pub peer_side : e.peer_indices ≡ map (λ n. n.peer_index) entries
  pub cid_side : e.cid_indices ≡ map (λ n. n.cid_index) entries
  pub wants : w ≡ map want entries
  pub resolved : All (Resolves e) entries
  pub peers_distinct : Distinct e.peers
  pub cids_distinct : Distinct e.cids
  pub held : length e.datums ≤ length e.cids

pub default-Represents : Represents default []
default-Represents = record {
  entries = [];
  peer_side = refl;
  cid_side = refl;
  wants = refl;
  resolved = tt;
  peers_distinct = λ i j a hi hj. cc;
  cids_distinct = λ i j a hi hj. cc;
  held = omega arith;
}

pub cid_count :
    (e : BlockExchange) (w : List (PeerId × Cid)) (r : Represents e w)
    → length e.cid_indices ≡ length r.entries
cid_count e w r = ap length r.cid_side ∙ length-map (λ (n : Entry). n.cid_index) r.entries

pub peer_count :
    (e : BlockExchange) (w : List (PeerId × Cid)) (r : Represents e w)
    → length e.peer_indices ≡ length r.entries
peer_count e w r = ap length r.peer_side ∙ length-map (λ (n : Entry). n.peer_index) r.entries
