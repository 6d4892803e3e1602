-- ===== src/Roles/Unreadable.antt =====
-- What a payload that cannot be read does to the loop over the messages (roles/streamer.rs and
-- roles/viewer.rs).
use live_tests.Base.{
  ◌+◌, ◌-◌, panic, Fault, word, sub64-eq_of_le, ℕ, ◌<◌, ◌≡◌, inl, inr, refl, ap, List, [], ◌∷◌,
  ◌++◌, map, Bool, false, Option, none, some, unwrapped, out_of_range, length, length-append,
  length-map, leb, ◌==◌, Bool-cases, arith,
}
use mathlib.Core.List.{map-append}
use live_tests.Exchange.{PeerId}
use live_tests.Client.{Multiaddr}
use live_tests.Service.Events.{Answer, accepted}
use live_tests.Params.{split}
use live_tests.Params.Parts.{before, behind, split_lem}
use live_tests.Params.Dict.{Text}
use live_tests.Roles.Addresses.{parse_parts, collect, collect_addresses}
use live_tests.Roles.Collected.{
  Heard, failure, from, others, Readable, message_of, parse_parts-announcement,
}

-- What is wrong with a payload, and the panic that follows.
module _ (parse_peer_id : Text → Option PeerId) (parse_multiaddr : Text → Option Multiaddr) where
  pub data Unreadable (payload : Text) : Fault → Type 0 where
    bad_peer_id : parse_peer_id (before b' ' payload) ≡ none → Unreadable payload unwrapped
    no_second :
        (peer_id : PeerId)
        → parse_peer_id (before b' ' payload) ≡ some peer_id
        → behind b' ' payload ≡ none
        → Unreadable payload out_of_range
    bad_multiaddr :
        (peer_id : PeerId) (rest : Text)
        → parse_peer_id (before b' ' payload) ≡ some peer_id
        → behind b' ' payload ≡ some rest
        → parse_multiaddr (before b' ' rest) ≡ none
        → Unreadable payload unwrapped

module _ (to_base58 : PeerId → Text) (to_string : Multiaddr → Text)
    (parse_peer_id : Text → Option PeerId) (parse_multiaddr : Text → Option Multiaddr)
    (r : Readable to_base58 to_string parse_peer_id parse_multiaddr) where
  abbrev message : Heard → Answer Text
  message = message_of to_base58 to_string parse_peer_id parse_multiaddr r

  module _ (local_peer_id : PeerId) (enough : ℕ) (ended : Bool) (payload : Text)
      (more : List (Answer Text)) (e : Fault)
      (bad : parse_parts parse_peer_id parse_multiaddr (split b' ' payload) ≡ panic e) where
    -- The loop reaches the payload with fewer nodes than are enough.
    collect_unreadable :
        (heard : List Heard) (got : List (PeerId × Multiaddr))
        → length got + length (others local_peer_id heard) < enough
        → collect parse_peer_id parse_multiaddr local_peer_id enough ended
            (map message heard ++ accepted payload ∷ more)
            (map (λ n. n.0) got)
            (map (λ n. n.1) got)
          ≡ panic e
    unfolding collect
    collect_unreadable [] got few = rw bad refl
    collect_unreadable (failure x ∷ heard) got few = collect_unreadable heard got few
    collect_unreadable (from node ∷ heard) got few = elim (Bool-cases (node.0 == local_peer_id)) [
      | inl same ↦
          let left : others local_peer_id (from node ∷ heard) ≡ others local_peer_id heard =
            rw same refl in
          let size = ap length left in
          rw
            (
              parse_parts-announcement to_base58 to_string parse_peer_id parse_multiaddr r node,
              same,
            )
            (collect_unreadable heard got (omega arith))
      | inr other ↦
          let both : others local_peer_id (from node ∷ heard) ≡ node ∷ others local_peer_id heard =
            rw other refl in
          let size = ap length both in
          let grown = length-append got (node ∷ []) in
          let short : leb enough (length (got ++ node ∷ [])) ≡ false = ground arith in
          rw
            (
              parse_parts-announcement to_base58 to_string parse_peer_id parse_multiaddr r node,
              other,
              ← map-append (λ n. n.0) got (node ∷ []),
              ← map-append (λ n. n.1) got (node ∷ []),
              length-map (λ (n : PeerId × Multiaddr). n.0) (got ++ node ∷ []),
              short,
            )
            (collect_unreadable heard (got ++ node ∷ []) (omega arith))
    ]

  -- A payload panics before anything is done with it: its part before the first space is not a peer,
  -- or there is no space, or what stands between the first space and the next is not an address.
  Unreadable-parse_parts :
      (payload : Text) (e : Fault)
      → Unreadable parse_peer_id parse_multiaddr payload e
      → parse_parts parse_peer_id parse_multiaddr (split b' ' payload) ≡ panic e
  Unreadable-parse_parts payload _ (bad_peer_id none_there) =
      rw (split_lem b' ' payload, none_there) refl
  Unreadable-parse_parts payload _ (no_second peer_id first alone) =
      rw (split_lem b' ' payload, first, alone) refl
  Unreadable-parse_parts payload _ (bad_multiaddr peer_id rest first second none_there) =
      rw (split_lem b' ' payload, first, second, split_lem b' ' rest, none_there) refl

  -- Let a payload come while fewer other nodes are collected than there are other instances, of
  -- which there is at least one. The role panics by `unwrap` if libp2p does not read the text before
  -- the first space as a peer, or does, and does not read the text from there to the next space
  -- as an address; and by the index, if it reads the whole payload as a peer and there is no space.
  -- What came before were payloads that libp2p had written, which it
  -- reads, and errors; what comes behind may be anything.
  pub collect_addresses-Unreadable :
      (local_peer_id : PeerId) (test_instance_count : ℕ) (ended : Bool) (heard : List Heard)
      (payload : Text) (more : List (Answer Text)) (e : Fault)
      → test_instance_count < word
      → length (others local_peer_id heard) + 1 < test_instance_count
      → Unreadable parse_peer_id parse_multiaddr payload e
      → collect_addresses parse_peer_id parse_multiaddr local_peer_id test_instance_count ended
          (map message heard ++ accepted payload ∷ more)
        ≡ panic e
  unfolding collect_addresses
  collect_addresses-Unreadable local_peer_id test_instance_count ended heard payload more e fits few
        bad =
      rw (sub64-eq_of_le test_instance_count 1 fits (omega arith)) (
        collect_unreadable local_peer_id (test_instance_count - 1) ended payload more e
          (Unreadable-parse_parts payload e bad) heard [] (omega arith))
