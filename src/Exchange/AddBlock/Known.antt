-- ===== src/Exchange/AddBlock/Known.antt =====
-- `add_block` for a CID that the exchange knows, and has no data of.
use live_tests.Base.{
  ℕ, ◌≤◌, ◌<◌, ◌≡◌, refl, ap, ◌∙◌, List, [], ◌∷◌, ◌++◌, map, some, All-map, All-mono, length,
  length-append, get_elem?, get_elem?-lt, lt-get_elem?, position, position-get_elem?, Distinct,
  Distinct-transpose, transpose, arith,
}
use live_tests.Exchange.{PeerId, Cid, Block, BlockExchange, relabel, get_block}
use live_tests.Exchange.Represents.{Entry, want, Resolves, Represents}
use live_tests.Exchange.Store.{Refiled, find_block-filed}
use live_tests.Exchange.AddBlock.{redirect, last_place, Stored}

-- The CID of `b` stands at `i`, past the data; `ys` is the table after the exchange of places.
module _ (e : BlockExchange) (w : List (PeerId × Cid)) (r : Represents e w) (b : Block) (i : ℕ)
    (p : position b.cid e.cids ≡ some i) (high : length e.datums ≤ i) (ys : List Cid)
    (size : length ys ≡ length e.cids)
    (at : (k : ℕ) → get_elem? ys k ≡ get_elem? e.cids (transpose (last_place e.cids) i k))
    (moved : Cid) (end : get_elem? e.cids (last_place e.cids) ≡ some moved) where
  place_of_cid : get_elem? e.cids i ≡ some b.cid
  place_of_cid = position-get_elem? b.cid e.cids i p

  in_range : i < length e.cids
  in_range = get_elem?-lt e.cids i b.cid place_of_cid

  abbrev pub exchanged : BlockExchange
  exchanged = record e {
    cids = ys;
    cid_indices = map (relabel i (last_place e.cids)) e.cid_indices;
    datums = e.datums ++ b.bytes ∷ [];
  }

  abbrev relabelled : Entry → Entry
  relabelled n = record n {
    cid_index = relabel i (last_place e.cids) n.cid_index;
    cid = (redirect b.cid moved (want n)).1;
  }

  relabelled-Resolves : (n : Entry) → Resolves e n → Resolves exchanged (relabelled n)
  unfolding relabel
  relabelled-Resolves n h = (
    h.0,
    ground (
      arith,
      at (relabel i (last_place e.cids) n.cid_index),
      end,
      place_of_cid,
      in_range,
      r.cids_distinct i (last_place e.cids) b.cid place_of_cid,
      r.cids_distinct i n.cid_index b.cid place_of_cid,
      h.1,
    ),
  )

  map-relabelled :
      (es : List Entry)
      → (map (relabel i (last_place e.cids)) (map (λ n. n.cid_index) es)
          ≡ map (λ n. n.cid_index) (map relabelled es))
        × (map (λ n. n.peer_index) es ≡ map (λ n. n.peer_index) (map relabelled es))
        × (map (redirect b.cid moved) (map want es) ≡ map want (map relabelled es))
  map-relabelled [] = (refl, refl, refl)
  map-relabelled (n ∷ es) =
      let rest = map-relabelled es in
      (
        ap (◌∷◌ (relabelled n).cid_index) rest.0,
        ap (◌∷◌ n.peer_index) rest.1,
        ap (◌∷◌ (want (relabelled n))) rest.2,
      )

  exchanged-Distinct : Distinct ys
  exchanged-Distinct = Distinct-transpose e.cids ys (last_place e.cids) i r.cids_distinct at

  exchanged-Represents : Represents exchanged (map (redirect b.cid moved) w)
  exchanged-Represents =
      let same = map-relabelled r.entries in
      record {
        entries = map relabelled r.entries;
        peer_side = r.peer_side ∙ same.1;
        cid_side = ap (map (relabel i (last_place e.cids))) r.cid_side ∙ same.0;
        wants = ap (map (redirect b.cid moved)) r.wants ∙ same.2;
        resolved = All-map (Resolves exchanged) relabelled r.entries (
            All-mono (Resolves e) (λ n. Resolves exchanged (relabelled n)) relabelled-Resolves
              r.entries r.resolved);
        peers_distinct = r.peers_distinct;
        cids_distinct = exchanged-Distinct;
        held = let h = in_range in omega (arith, length-append e.datums (b.bytes ∷ []));
      }

  -- A CID of the old table at `k` stands at the transposed place.
  exchanged_at :
      (k c : ℕ)
      → get_elem? e.cids k ≡ some c
      → get_elem? ys (transpose (last_place e.cids) i k) ≡ some c
  exchanged_at k c h = ground (arith, at (transpose (last_place e.cids) i k))

  exchanged-Refiled : Refiled e.cids ys (length e.datums)
  exchanged-Refiled =
      let lt = in_range in
      record {
        before = r.cids_distinct;
        after = exchanged-Distinct;
        agree = λ k low. ground (arith, at k);
        kept = λ k c h hk. (transpose (last_place e.cids) i k, ground arith, exchanged_at k c hk);
      }

  pub exchanged-Stored : Stored e w b exchanged
  unfolding get_block
  exchanged-Stored =
      let lt = in_range in
      let (filed, here) = lt-get_elem? ys (length e.datums) (omega arith) in
      record {
        filed = filed;
        moved = moved;
        represents = exchanged-Represents;
        place = here;
        last = ground (arith, at (last_place e.cids), place_of_cid);
        kept_cid = λ k c hk. (transpose (last_place e.cids) i k, exchanged_at k c hk);
        datums = refl;
        size = omega (arith, length-append e.datums (b.bytes ∷ []));
        lookups = λ c. find_block-filed e.cids ys e.datums b.bytes filed exchanged-Refiled here c;
        unknown = λ q. absurd (ground arith);
        known = λ j q.
            let same : j ≡ i = ground arith in (end, size, ground arith, λ k. at k ∙ rw same refl);
      }
