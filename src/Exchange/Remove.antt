-- ===== src/Exchange/Remove.antt =====
-- `remove_want` and `remove_wants` take out exactly the wants that are meant.
use live_tests.Base.{
  ℕ, ◌≡◌, sym, ◌∙◌, List, [], ◌∷◌, Bool, not, ◌&&◌, some, All, All-mono, length, get_elem?,
  Distinct, position, position-get_elem?, position-none, ◌==◌, ==→≡, ==→≢, Bool-cases, Option-cases,
  inl, inr, arith,
}
use live_tests.Exchange.{
  PeerId, Cid, BlockExchange, wants_cid, wants_pair, remove_wants, remove_want,
}
use live_tests.Exchange.Represents.{Entry, want, Resolves, Represents, cid_count, peer_count}
use live_tests.Exchange.Pass.{
  Decides, Keeps, unchanged-Keeps, pass-Keeps, peer_index_at, cid_index_at,
}

-- The test of a want list for one CID, or for one want, that is to stay.
abbrev pub other_cid : Cid → PeerId × Cid → Bool
other_cid cid x = not (x.1 == cid)

abbrev pub other_want : PeerId → Cid → PeerId × Cid → Bool
other_want peer_id cid x = not (x.0 == peer_id && x.1 == cid)

All-empty : (P : Entry → Type 0) (es : List Entry) → length es ≡ 0 → All P es
All-empty P [] h = tt
All-empty P (n ∷ es) h = absurd (omega arith)

-- In a table of distinct values, an index is the place of a value exactly when it resolves to it.
pub index_means :
    (table : List ℕ) (k i a b : ℕ)
    → Distinct table
    → get_elem? table k ≡ some a
    → get_elem? table i ≡ some b
    → (i == k) ≡ (b == a)
index_means table k i a b d hk hi = ground (arith, d i k a)

wants_cid-Decides :
    (e : BlockExchange) (cid k : ℕ)
    → Distinct e.cids
    → get_elem? e.cids k ≡ some cid
    → Decides e (wants_cid k) (λ n. other_cid cid (want n))
unfolding wants_cid
wants_cid-Decides e cid k d hk rs n ds h =
    rw (cid_index_at e rs n ds, index_means e.cids k n.cid_index cid n.cid d hk h.1) (ground arith)

-- No want for the CID stays, and every other want stays, in order.
pub remove_wants-Keeps :
    (e : BlockExchange) (w : List (PeerId × Cid)) (cid : Cid)
    → Represents e w
    → Keeps e w (other_cid cid) (remove_wants e cid)
unfolding remove_wants
remove_wants-Keeps e w cid r = elim (Bool-cases (length e.cid_indices == 0)) [
  | inl none_left ↦ rw none_left (
      unchanged-Keeps e w r (other_cid cid)
        (All-empty _ r.entries (sym (cid_count e w r) ∙ ==→≡ _ 0 none_left)))
  | inr some_left ↦ elim (Option-cases (position cid e.cids)) [
    | inl p ↦
        rw (some_left, p)
          (unchanged-Keeps e w r (other_cid cid) (
            All-mono (Resolves e) _ (λ n h. ground (arith, position-none cid e.cids n.cid_index p))
              r.entries r.resolved))
    | inr (k, p) ↦
        rw (some_left, p)
          (pass-Keeps e w r (other_cid cid) (wants_cid k) (length e.cid_indices) (cid_count e w r)
            (==→≢ _ 0 some_left)
            (wants_cid-Decides e cid k r.cids_distinct (position-get_elem? cid e.cids k p)))
  ]
]

wants_pair-Decides :
    (e : BlockExchange) (peer_id : PeerId) (cid k : ℕ)
    → Distinct e.peers
    → get_elem? e.peers k ≡ some peer_id
    → Decides e (wants_pair k cid) (λ n. other_want peer_id cid (want n))
unfolding wants_pair
wants_pair-Decides e peer_id cid k d hk rs n ds h =
    rw (peer_index_at e rs n ds, cid_index_at e rs n ds, h.1)
      (ground (arith, index_means e.peers k n.peer_index peer_id n.peer d hk h.0))

-- No want of the peer for the CID stays, and every other want stays, in order.
pub remove_want-Keeps :
    (e : BlockExchange) (w : List (PeerId × Cid)) (peer_id : PeerId) (cid : Cid)
    → Represents e w
    → Keeps e w (other_want peer_id cid) (remove_want e peer_id cid)
unfolding remove_want
remove_want-Keeps e w peer_id cid r = elim (Bool-cases (length e.peer_indices == 0)) [
  | inl none_left ↦ rw none_left (
      unchanged-Keeps e w r (other_want peer_id cid)
        (All-empty _ r.entries (sym (peer_count e w r) ∙ ==→≡ _ 0 none_left)))
  | inr some_left ↦ elim (Option-cases (position peer_id e.peers)) [
    | inl p ↦
        rw (some_left, p)
          (unchanged-Keeps e w r (other_want peer_id cid) (
            All-mono (Resolves e) _
              (λ n h. ground (arith, position-none peer_id e.peers n.peer_index p)) r.entries
              r.resolved))
    | inr (k, p) ↦
        rw (some_left, p)
          (pass-Keeps e w r (other_want peer_id cid) (wants_pair k cid) (length e.peer_indices)
            (peer_count e w r) (==→≢ _ 0 some_left)
            (wants_pair-Decides e peer_id cid k r.peers_distinct
              (position-get_elem? peer_id e.peers k p)))
  ]
]
