-- ===== src/Roles/Everyone.antt =====
-- A node that hears every instance once has collected all others (the loop over the messages in
-- roles/streamer.rs and roles/viewer.rs).
use live_tests.Base.{
  ℕ, zero, suc, ◌+◌, ◌-◌, ◌≤◌, ◌<◌, ◌≡◌, inl, inr, refl, ap, ◌∙◌, subst, List, [], ◌∷◌, map, Bool,
  true, Option, none, some, ok, length, get_elem?, position, Distinct, Distinct-head, Distinct-tail,
  leb, ◌==◌, ==→≡, Bool-cases, word, arith,
}
use live_tests.Exchange.{PeerId}
use live_tests.Client.{Multiaddr}
use live_tests.Params.Dict.{Text}
use live_tests.Roles.Addresses.{collect_addresses}
use live_tests.Roles.Collected.{
  Heard, failure, from, others, take_all, vectors, first_nodes, Readable, message_of,
  collect_addresses-first_nodes,
}

-- The nodes that were heard, the local one included.
abbrev pub heard_nodes : List Heard → List (PeerId × Multiaddr)
heard_nodes [] = []
heard_nodes (failure e ∷ heard) = heard_nodes heard
heard_nodes (from node ∷ heard) = node ∷ heard_nodes heard

abbrev pub heard_peers : List Heard → List PeerId
heard_peers heard = map (λ n. n.0) (heard_nodes heard)

module _ (local_peer_id : PeerId) where
  -- Every node that was heard is another one if the local one was not heard.
  length-others :
      (heard : List Heard)
      → position local_peer_id (heard_peers heard) ≡ none
      → length (others local_peer_id heard) ≡ length (heard_nodes heard)
  unfolding position
  length-others [] p = refl
  length-others (failure e ∷ heard) p = length-others heard p
  length-others (from node ∷ heard) p = ground (arith, length-others heard)

  -- All but one are others if it was heard once.
  length-others-once :
      (heard : List Heard) (i : ℕ)
      → Distinct (heard_peers heard)
      → get_elem? (heard_peers heard) i ≡ some local_peer_id
      → length (others local_peer_id heard) + 1 ≡ length (heard_nodes heard)
  length-others-once [] i d h = cc
  length-others-once (failure e ∷ heard) i d h = length-others-once heard i d h
  length-others-once (from node ∷ heard) zero d h =
      let same : node.0 ≡ local_peer_id = ground arith in
      let gone =
        subst (λ p. position p (heard_peers heard) ≡ none) same
          (Distinct-head node.0 (heard_peers heard) d) in
      ground (arith, length-others heard gone)
  length-others-once (from node ∷ heard) (suc i) d h =
      let rest = length-others-once heard i (Distinct-tail node.0 (heard_peers heard) d) h in
      elim (Bool-cases (node.0 == local_peer_id)) [
        | inl same ↦
            let first : 0 ≡ suc i =
              d 0 (suc i) local_peer_id (ap some (==→≡ node.0 local_peer_id same)) h in
            absurd (omega arith)
        | inr other ↦ rw other (omega arith)
      ]

module _ (to_base58 : PeerId → Text) (to_string : Multiaddr → Text)
    (parse_peer_id : Text → Option PeerId) (parse_multiaddr : Text → Option Multiaddr)
    (r : Readable to_base58 to_string parse_peer_id parse_multiaddr) where
  -- If libp2p reads what it writes, and among errors, in any order, the announcement of each of at
  -- least two instances is heard once, the local one among them, then the loop ends: a node collects
  -- the addresses of all others, whether or not the stream ends.
  pub collect_addresses_everyone :
      (local_peer_id : PeerId) (ended : Bool) (heard : List Heard) (i : ℕ)
      → 2 ≤ length (heard_nodes heard)
      → length (heard_nodes heard) < word
      → Distinct (heard_peers heard)
      → get_elem? (heard_peers heard) i ≡ some local_peer_id
      → collect_addresses parse_peer_id parse_multiaddr local_peer_id
          (length (heard_nodes heard))
          ended
          (map (message_of to_base58 to_string parse_peer_id parse_multiaddr r) heard)
        ≡ ok (vectors (others local_peer_id heard))
  collect_addresses_everyone local_peer_id ended heard i some_other fits d h =
      let once = length-others-once local_peer_id heard i d h in
      let os = others local_peer_id heard in
      let count : length (heard_nodes heard) - 1 ≡ length os = omega arith in
      let enough : leb (length os) (length os) ≡ true = ground arith in
      collect_addresses-first_nodes to_base58 to_string parse_peer_id parse_multiaddr r
        local_peer_id (length (heard_nodes heard)) ended heard some_other fits
      ∙ ap (λ n. ok (first_nodes n ended os)) count
      ∙ rw (enough, take_all os) refl
