-- ===== src/Roles/Collected.antt =====
-- Which addresses a role collects.
use live_tests.Base.{
  ◌-◌, ◌≤◌, word, sub64-eq_of_le, ℕ, zero, suc, ◌<◌, ◌≡◌, inl, inr, refl, ap, List, [], ◌∷◌, ◌++◌,
  map, Bool, true, false, Option, some, Outcome, ok, length, length-append, length-map, leb, leb→le,
  leb→lt, ◌==◌, if◌then◌else◌, Bool-cases, arith,
}
use mathlib.Core.List.{append-nil, append_assoc, map-append}
use live_tests.Exchange.{PeerId}
use live_tests.Client.{Multiaddr}
use live_tests.Service.Events.{Answer, accepted, refused}
use live_tests.Params.{split}
use live_tests.Params.Dict.{Text}
use live_tests.Params.Parts.{Without, split_first, split_end}
use live_tests.Roles.Addresses.{
  Collected, collected, at_end, announcement, parse_parts, collect, collect_addresses,
}

-- What comes over the stream: an error, or the message of a node.
pub data Heard : Type 0 where
  failure : ℕ → Heard
  from : PeerId × Multiaddr → Heard

-- The nodes other than the local one whose message was heard, in order.
abbrev pub others : PeerId → List Heard → List (PeerId × Multiaddr)
others local_peer_id [] = []
others local_peer_id (failure e ∷ heard) = others local_peer_id heard
others local_peer_id (from node ∷ heard) =
    let rest = others local_peer_id heard in if node.0 == local_peer_id then rest else node ∷ rest

abbrev pub take {ℓ} : {A : Type ℓ} → ℕ → List A → List A
take zero xs = []
take (suc n) [] = []
take (suc n) (x ∷ xs) = x ∷ take n xs

take-append : {A : Type 0} (n : ℕ) (xs ys : List A) → length xs ≡ n → take n (xs ++ ys) ≡ xs
take-append zero [] ys e = refl
take-append zero (x ∷ xs) ys e = absurd (omega arith)
take-append (suc n) [] ys e = absurd (omega arith)
take-append (suc n) (x ∷ xs) ys e = ap (◌∷◌ x) (take-append n xs ys (omega arith))

pub take_all : {A : Type 0} (xs : List A) → take (length xs) xs ≡ xs
take_all [] = refl
take_all (x ∷ xs) = ap (◌∷◌ x) (take_all xs)

-- The two vectors of some nodes.
abbrev pub vectors : List (PeerId × Multiaddr) → Collected
vectors nodes = collected (map (λ n. n.0) nodes) (map (λ n. n.1) nodes)

-- The first nodes, if there are enough.
abbrev pub first_nodes : ℕ → Bool → List (PeerId × Multiaddr) → Collected
first_nodes enough ended nodes =
    let all = at_end ended (map (λ n. n.0) nodes) (map (λ n. n.1) nodes) in
    if leb enough (length nodes) then vectors (take enough nodes) else all

-- libp2p reads what it writes, and writes no space.
pub record Readable (to_base58 : PeerId → Text) (to_string : Multiaddr → Text)
    (parse_peer_id : Text → Option PeerId) (parse_multiaddr : Text → Option Multiaddr)
    : Type 0 where
  pub peer_id : (p : PeerId) → parse_peer_id (to_base58 p) ≡ some p
  pub multiaddr : (a : Multiaddr) → parse_multiaddr (to_string a) ≡ some a
  pub peer_id_word : (p : PeerId) → Without b' ' (to_base58 p)
  pub multiaddr_word : (a : Multiaddr) → Without b' ' (to_string a)

module _ (to_base58 : PeerId → Text) (to_string : Multiaddr → Text)
    (parse_peer_id : Text → Option PeerId) (parse_multiaddr : Text → Option Multiaddr)
    (r : Readable to_base58 to_string parse_peer_id parse_multiaddr) where
  pub parse_parts-announcement :
      (node : PeerId × Multiaddr)
      → parse_parts parse_peer_id parse_multiaddr
          (split b' ' (announcement to_base58 to_string node))
        ≡ ok node
  parse_parts-announcement node =
      rw
        (
          split_first b' ' (to_base58 node.0) (to_string node.1) (r.peer_id_word node.0),
          split_end b' ' (to_string node.1) (r.multiaddr_word node.1),
          r.peer_id node.0,
          r.multiaddr node.1,
        )
        refl

  abbrev pub message_of : Heard → Answer Text
  message_of (failure e) = refused e
  message_of (from node) = accepted (announcement to_base58 to_string node)

  module _ (local_peer_id : PeerId) (enough : ℕ) (ended : Bool) where
    abbrev collect_on : List Heard → List (PeerId × Multiaddr) → Outcome Collected
    collect_on heard before =
        collect parse_peer_id parse_multiaddr local_peer_id enough ended (map message_of heard)
          (map (λ n. n.0) before) (map (λ n. n.1) before)

    -- As many nodes as are enough, and more behind them.
    first_nodes-enough :
        (first rest : List (PeerId × Multiaddr))
        → length first ≡ enough
        → first_nodes enough ended (first ++ rest) ≡ vectors first
    first_nodes-enough first rest e =
        let reached : leb enough (length (first ++ rest)) ≡ true =
          ground (arith, length-append first rest) in
        rw (reached, take-append enough first rest e) refl

    -- The loop with some nodes collected already, fewer than enough.
    collect_after :
        (heard : List Heard) (before : List (PeerId × Multiaddr))
        → length before < enough
        → collect_on heard before
          ≡ ok (first_nodes enough ended (before ++ others local_peer_id heard))
    unfolding collect
    collect_after [] before few =
        let short : leb enough (length before) ≡ false = ground arith in
        rw (append-nil before, short) refl
    collect_after (failure e ∷ heard) before few = collect_after heard before few
    collect_after (from node ∷ heard) before few =
        let rest = others local_peer_id heard in
        let more = before ++ node ∷ [] in
        let longer = length-append before (node ∷ []) in
        elim (Bool-cases (node.0 == local_peer_id)) [
          | inl same ↦ rw (parse_parts-announcement node, same) (collect_after heard before few)
          | inr other ↦
              rw
                (
                  parse_parts-announcement node,
                  other,
                  ← map-append (λ n. n.0) before (node ∷ []),
                  ← map-append (λ n. n.1) before (node ∷ []),
                  length-map (λ (n : PeerId × Multiaddr). n.0) more,
                  ← append_assoc before (node ∷ []) rest,
                )
                (elim (Bool-cases (leb enough (length more))) [
                  | inl reached ↦
                      let le = leb→le enough (length more) reached in
                      rw (reached, first_nodes-enough more rest (omega arith)) refl
                  | inr short ↦
                      rw short (collect_after heard more (leb→lt enough (length more) short))
                ])
        ]

  -- With at least two instances, and libp2p reading what it writes: from the announcements and the
  -- errors that come, a node collects the addresses of the first other nodes, one fewer than there
  -- are instances; if there are fewer, it waits, or takes all if the stream ends.
  pub collect_addresses-first_nodes :
      (local_peer_id : PeerId) (test_instance_count : ℕ) (ended : Bool) (heard : List Heard)
      → 2 ≤ test_instance_count
      → test_instance_count < word
      → collect_addresses parse_peer_id parse_multiaddr local_peer_id test_instance_count ended
          (map message_of heard)
        ≡ ok (first_nodes (test_instance_count - 1) ended (others local_peer_id heard))
  unfolding collect_addresses
  collect_addresses-first_nodes local_peer_id test_instance_count ended heard some_other fits =
      rw (sub64-eq_of_le test_instance_count 1 fits (omega arith))
        (collect_after local_peer_id (test_instance_count - 1) ended heard [] (omega arith))
