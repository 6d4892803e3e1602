-- ===== src/Exchange/Iterate.antt =====
-- What the iterators and `get_block` yield, in terms of the wants and of one another.
use mathlib.Core.Option
use live_tests.Base.{
  ℕ, zero, suc, ◌≡◌, refl, sym, ap, ◌∙◌, List, [], ◌∷◌, map, Option, none, some, All, length,
  get_elem?, lt-get_elem?, get_elem?-lt, Distinct, Distinct-tail, index, rev_append, retain, ok,
  ◌==◌, Bool-cases, Option-cases, inl, inr, arith,
}
use live_tests.Exchange.{
  PeerId, Cid, Bytes, Block, BlockExchange, wanted_item, wanted_items, push_item,
  iter_wanted_blocks, who_want, iter_who_want_block, find_block, get_block,
}
use live_tests.Exchange.Represents.{Entry, want, Resolves, Represents}
use live_tests.Exchange.Pass.{peer_index_at}

-- The wanted blocks that are held, each with the peer that wants it, in the order of the wants.
abbrev pub held_wants : BlockExchange → List (PeerId × Cid) → List (PeerId × Block)
held_wants e [] = []
held_wants e (x ∷ w) = push_item (Option.map (λ b. (x.0, b)) (get_block e x.1)) (held_wants e w)

-- The peers that want a block, in the order of the wants.
abbrev pub wanters : Cid → List (PeerId × Cid) → List PeerId
wanters cid w = map (λ x. x.0) (retain (λ x. x.1 == cid) w)

abbrev pub block_of : Cid → Bytes → Block
block_of cid bytes = record { cid = cid; bytes = bytes }

pub find_block-get_elem? :
    (cid : Cid) (ids : List Cid) (ds : List Bytes) (i : ℕ)
    → Distinct ids
    → get_elem? ids i ≡ some cid
    → find_block cid ids ds ≡ Option.map (block_of cid) (get_elem? ds i)
unfolding find_block
find_block-get_elem? cid [] ds i d h = cc
find_block-get_elem? cid (id ∷ ids) [] i d h = refl
find_block-get_elem? cid (id ∷ ids) (b ∷ ds) zero d h = ground arith
find_block-get_elem? cid (id ∷ ids) (b ∷ ds) (suc i) d h =
    ground (arith, d zero (suc i) cid, find_block-get_elem? cid ids ds i (Distinct-tail id ids d) h)

module _ (e : BlockExchange) (w : List (PeerId × Cid)) (r : Represents e w) where
  -- A want's item: the peer and what `get_block` finds.
  wanted_item-get_block :
      (n : Entry)
      → Resolves e n
      → wanted_item e n.peer_index n.cid_index
        ≡ Option.map (λ b. ok (n.peer, b)) (get_block e n.cid)
  unfolding wanted_item get_block
  wanted_item-get_block n h =
      let found = find_block-get_elem? n.cid e.cids e.datums n.cid_index r.cids_distinct h.1 in
      elim (Option-cases (get_elem? e.datums n.cid_index)) [
        | inl miss ↦ rw (found, miss) (ground (arith, lt-get_elem? e.datums n.cid_index))
        | inr (bytes, hit) ↦
            rw (found, hit, h.0, h.1) (ground (arith, get_elem?-lt e.datums n.cid_index bytes hit))
      ]

  push_item-ok :
      (x : PeerId) (o : Option Block) (items : List (PeerId × Block))
      → push_item (Option.map (λ b. ok (x, b)) o) (map ok items)
        ≡ map ok (push_item (Option.map (λ b. (x, b)) o) items)
  push_item-ok x none items = refl
  push_item-ok x (some b) items = refl

  wanted_items-entries :
      (es : List Entry)
      → All (Resolves e) es
      → wanted_items e (map (λ n. n.peer_index) es) (map (λ n. n.cid_index) es)
        ≡ map ok (held_wants e (map want es))
  unfolding wanted_items
  wanted_items-entries [] h = refl
  wanted_items-entries (n ∷ es) h =
      rw (wanted_item-get_block n h.0, wanted_items-entries es h.1)
        (push_item-ok n.peer (get_block e n.cid) (held_wants e (map want es)))

  -- No item panics, and the items are the wants whose block `get_block` finds, in order.
  pub iter_wanted_blocks-held_wants : iter_wanted_blocks e ≡ map ok (held_wants e w)
  unfolding iter_wanted_blocks
  iter_wanted_blocks-held_wants =
      (λ i. wanted_items e (r.peer_side i) (r.cid_side i))
      ∙ wanted_items-entries r.entries r.resolved
      ∙ sym (ap (λ v. map ok (held_wants e v)) r.wants)

  who_want-entries :
      (cid : Cid) (rs es : List Entry)
      → rev_append rs es ≡ r.entries
      → All (Resolves e) es
      → who_want e cid (length rs) (map (λ n. n.cid_index) es) ≡ ok (wanters cid (map want es))
  unfolding who_want
  who_want-entries cid rs [] same h = refl
  who_want-entries cid rs (n ∷ es) same h =
      let here : index e.peer_indices (length rs) ≡ ok n.peer_index =
        ap (λ ps. index ps (length rs)) (r.peer_side ∙ ap (map (λ k. k.peer_index)) (sym same))
        ∙ peer_index_at e rs n es in
      let rest = who_want-entries cid (n ∷ rs) es same h.1 in
      elim (Bool-cases (n.cid == cid)) [
        | inl k ↦ rw (h.0.1, k, here, h.0.0, rest) refl
        | inr k ↦ rw (h.0.1, k, rest) refl
      ]

  -- The iterator returns the peers that want the block, once for each want, in order.
  pub iter_who_want_block-wanters : (cid : Cid) → iter_who_want_block e cid ≡ ok (wanters cid w)
  unfolding iter_who_want_block
  iter_who_want_block-wanters cid =
      ap (who_want e cid 0) r.cid_side
      ∙ who_want-entries cid [] r.entries refl r.resolved
      ∙ sym (ap (λ v. ok (wanters cid v)) r.wants)
