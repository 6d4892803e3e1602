-- ===== src/Exchange/AddBlock/New.antt =====
-- `add_block` for a CID that the exchange does not know.
use live_tests.Base.{
  ◌≡◌, refl, sym, ◌∙◌, List, [], ◌∷◌, ◌++◌, none, All-mono, length, length-append, get_elem?-append,
  lt-get_elem?, get_elem?-last, position, Distinct-push, arith,
}
use live_tests.Exchange.{PeerId, Cid, Block, BlockExchange, get_block}
use live_tests.Exchange.Represents.{Resolves, Represents}
use live_tests.Exchange.Store.{Refiled, find_block-filed}
use live_tests.Exchange.AddBlock.{redirect_same, last_place, Stored}

module _ (e : BlockExchange) (w : List (PeerId × Cid)) (r : Represents e w) (b : Block) where
  abbrev pushed : BlockExchange
  pushed = record e { cids = e.cids ++ b.cid ∷ []; datums = e.datums ++ b.bytes ∷ [] }

  pushed-Represents : position b.cid e.cids ≡ none → Represents pushed w
  pushed-Represents p = record {
    entries = r.entries;
    peer_side = r.peer_side;
    cid_side = r.cid_side;
    wants = r.wants;
    resolved =
        All-mono (Resolves e) (Resolves pushed)
          (λ n h. (h.0, get_elem?-append e.cids (b.cid ∷ []) n.cid_index n.cid h.1)) r.entries
          r.resolved;
    peers_distinct = r.peers_distinct;
    cids_distinct = Distinct-push e.cids b.cid r.cids_distinct p;
    held =
        let h = r.held in
        omega (arith, length-append e.cids (b.cid ∷ []), length-append e.datums (b.bytes ∷ []));
  }

  pushed-Refiled : position b.cid e.cids ≡ none → Refiled e.cids pushed.cids (length e.datums)
  pushed-Refiled p = record {
    before = r.cids_distinct;
    after = Distinct-push e.cids b.cid r.cids_distinct p;
    agree = λ k low.
        let h = r.held in
        let (a, ea) = lt-get_elem? e.cids k (omega arith) in
        get_elem?-append e.cids (b.cid ∷ []) k a ea ∙ sym ea;
    kept = λ k c high h. (k, high, get_elem?-append e.cids (b.cid ∷ []) k c h);
  }

  pub pushed-Stored : position b.cid e.cids ≡ none → Stored e w b pushed
  unfolding get_block
  pushed-Stored p =
      let h = r.held in
      let len = length-append e.cids (b.cid ∷ []) in
      let (filed, here) = lt-get_elem? pushed.cids (length e.datums) (omega arith) in
      let end : last_place pushed.cids ≡ length e.cids = omega arith in
      record {
        filed = filed;
        moved = b.cid;
        represents = rw (redirect_same b.cid w) (pushed-Represents p);
        place = here;
        last = rw end (get_elem?-last e.cids b.cid);
        kept_cid = λ k c hk. (k, get_elem?-append e.cids (b.cid ∷ []) k c hk);
        datums = refl;
        size = omega (arith, length-append e.datums (b.bytes ∷ []));
        lookups = λ c.
            find_block-filed e.cids pushed.cids e.datums b.bytes filed (pushed-Refiled p) here c;
        unknown = λ _. (refl, refl);
        known = λ i q. absurd (ground arith);
      }
