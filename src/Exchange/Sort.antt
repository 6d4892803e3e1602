-- ===== src/Exchange/Sort.antt =====
-- `insertion_sort_wants` groups the want list by peer.
use mathlib.Core.List.{Perm}
use mathlib.Core.List.Perm
use live_tests.Base.{
  ℕ, ◌≤◌, ◌≡◌, refl, sym, ap, subst, ◌∙◌, List, [], ◌∷◌, map, some, none, Option-cases, inl, inr,
  All, All-mono, All-map, retain, retain_agree, map-retain, get_elem?, position, position-get_elem?,
  position-none, Outcome, ok, ◌>>=◌, ◌==◌, arith,
}
use live_tests.Parallel.{sort}
use live_tests.Parallel.Insertion.{
  Ascending, sorted, sorted-Ascending, sorted-perm, sorted-All, with_key, with_key-sorted,
}
use live_tests.Parallel.Laws.{sort-sorted}
use live_tests.Exchange.{PeerId, Cid, BlockExchange, insertion_sort_wants}
use live_tests.Exchange.Represents.{Entry, want, Resolves, Represents}
use live_tests.Exchange.Pass.{with_entries}
use live_tests.Exchange.Remove.{index_means}

abbrev by_peer : Entry → ℕ
by_peer n = n.peer_index

Ascending-map : (es : List Entry) → Ascending by_peer es → Ascending (λ k. k) (map by_peer es)
Ascending-map [] a = tt
Ascending-map (n ∷ es) a = (All-map (λ k. n.peer_index ≤ k) by_peer es a.0, Ascending-map es a.1)

-- The wants of one peer, in order.
abbrev pub wants_of : PeerId → List (PeerId × Cid) → List (PeerId × Cid)
wants_of peer_id = retain (λ x. x.0 == peer_id)

-- What the sort leaves: the wants in an order in which the peers' places ascend.
pub record Grouped (e : BlockExchange) (w : List (PeerId × Cid)) (out : Outcome BlockExchange)
    : Type 0 where
  pub after : BlockExchange
  pub wants : List (PeerId × Cid)
  pub returns : out ≡ ok after
  pub represents : Represents after wants
  pub same_wants : Perm wants w
  pub ascending : Ascending (λ k. k) after.peer_indices
  pub stable : (peer_id : PeerId) → wants_of peer_id wants ≡ wants_of peer_id w
  pub same_cids : after.cids ≡ e.cids
  pub same_datums : after.datums ≡ e.datums

module _ (e : BlockExchange) (w : List (PeerId × Cid)) (r : Represents e w) where
  abbrev group : List Entry
  group = sorted by_peer r.entries

  -- A peer's wants are the entries with its place.
  of_place :
      (peer_id k : ℕ) (es : List Entry)
      → get_elem? e.peers k ≡ some peer_id
      → All (Resolves e) es
      → wants_of peer_id (map want es) ≡ map want (with_key by_peer k es)
  of_place peer_id k es hk h =
      sym (map-retain want (λ x. x.0 == peer_id) es)
      ∙ ap (map want) (
          retain_agree _ _ es (
            All-mono (Resolves e) _
              (λ n res.
                sym (index_means e.peers k n.peer_index peer_id n.peer r.peers_distinct hk res.0))
              es h))

  of_stranger :
      (peer_id : ℕ) (es : List Entry)
      → position peer_id e.peers ≡ none
      → All (Resolves e) es
      → wants_of peer_id (map want es) ≡ []
  of_stranger peer_id [] p h = refl
  of_stranger peer_id (n ∷ es) p h =
      ground (arith, position-none peer_id e.peers n.peer_index p, of_stranger peer_id es p h.1)

  group-stable : (peer_id : PeerId) → wants_of peer_id (map want group) ≡ wants_of peer_id w
  group-stable peer_id =
      let all = sorted-All by_peer (Resolves e) r.entries r.resolved in
      let given = ap (wants_of peer_id) (sym r.wants) in
      elim (Option-cases (position peer_id e.peers)) [
        | inl p ↦
            of_stranger peer_id group p all
            ∙ sym (of_stranger peer_id r.entries p r.resolved)
            ∙ given
        | inr (k, p) ↦
            let hk = position-get_elem? peer_id e.peers k p in
            of_place peer_id k group hk all
            ∙ ap (map want) (with_key-sorted by_peer k r.entries)
            ∙ sym (of_place peer_id k r.entries hk r.resolved)
            ∙ given
      ]

  -- The sort ends without a panic, and the wants are the same ones, grouped by the place of their
  -- peer, with the wants of each peer in their old order; CIDs and blocks do not change.
  pub insertion_sort_wants-Grouped : Grouped e w (insertion_sort_wants e)
  unfolding insertion_sort_wants
  insertion_sort_wants-Grouped = record {
    after = with_entries e group;
    wants = map want group;
    returns =
        (λ i. sort (r.peer_side i) (r.cid_side i) >>= λ (p, c).
        ok (record e { peer_indices = p; cid_indices = c }))
        ∙ ap (λ s. s >>= λ (p, c). ok (record e { peer_indices = p; cid_indices = c }))
            (sort-sorted by_peer (λ n. n.cid_index) r.entries);
    represents = record {
      entries = group;
      peer_side = refl;
      cid_side = refl;
      wants = refl;
      resolved = sorted-All by_peer (Resolves e) r.entries r.resolved;
      peers_distinct = r.peers_distinct;
      cids_distinct = r.cids_distinct;
      held = r.held;
    };
    same_wants =
        subst (Perm (map want group)) (sym r.wants) (Perm.map want (sorted-perm by_peer r.entries));
    ascending = Ascending-map group (sorted-Ascending by_peer r.entries);
    stable = group-stable;
    same_cids = refl;
    same_datums = refl;
  }
