-- ===== src/Roles/Addresses.antt =====
-- How a role collects the addresses of the other nodes (the loop over the messages of the test
-- runner's topic in roles/streamer.rs and roles/viewer.rs). The texts of peers and addresses are
-- libp2p's.
use live_tests.Base.{
  ℕ, List, [], ◌∷◌, ◌++◌, Bool, Option, Outcome, ok, panic, empty_range, ◌>>=◌, index, length, leb,
  ◌==◌, sub64, if◌then◌else◌,
}
use live_tests.Exchange.{PeerId}
use live_tests.Client.{Multiaddr}
use live_tests.Service.Events.{Answer, accepted, refused}
use live_tests.Params.{split, expect}
use live_tests.Params.Dict.{Text}

-- What the loop comes to: it waits for more messages, or it ends with the two vectors.
pub data Collected : Type 0 where
  waits : Collected
  collected : List PeerId → List Multiaddr → Collected

abbrev pub at_end : Bool → List PeerId → List Multiaddr → Collected
at_end ended peer_ids addresses = if ended then collected peer_ids addresses else waits

-- The message that a node publishes.
module _ (to_base58 : PeerId → Text) (to_string : Multiaddr → Text) where
  abbrev pub announcement : PeerId × Multiaddr → Text
  announcement node = to_base58 node.0 ++ b' ' ∷ to_string node.1

module _ (parse_peer_id : Text → Option PeerId) (parse_multiaddr : Text → Option Multiaddr) where
  -- `parts[0].parse().unwrap()` and `parts[1].parse().unwrap()`
  abbrev pub parse_parts : List Text → Outcome (PeerId × Multiaddr)
  parse_parts parts = do
    first ← index parts 0
    peer_id ← expect (parse_peer_id first)
    second ← index parts 1
    multi_addr ← expect (parse_multiaddr second)
    ok (peer_id, multi_addr)

  -- The loop, where `enough` are the addresses to break at, and `ended` says whether the stream
  -- ends after the messages.
  module _ (local_peer_id : PeerId) (enough : ℕ) (ended : Bool) where
    unfoldable pub collect : List (Answer Text) → List PeerId → List Multiaddr → Outcome Collected
    unfolding split
    collect [] peer_ids addresses = ok (at_end ended peer_ids addresses)
    collect (refused e ∷ msgs) peer_ids addresses = collect msgs peer_ids addresses
    collect (accepted payload ∷ msgs) peer_ids addresses = do
      (peer_id, multi_addr) ← parse_parts (split b' ' payload)
      let skip = collect msgs peer_ids addresses
      let peer_ids' = peer_ids ++ peer_id ∷ []
      let addresses' = addresses ++ multi_addr ∷ []
      let go_on = collect msgs peer_ids' addresses'
      let pushed =
          if leb enough (length peer_ids') then ok (collected peer_ids' addresses') else go_on
      if peer_id == local_peer_id then skip else pushed

  -- With the number to break at, which wraps around if there is no node.
  unfoldable pub collect_addresses : PeerId → ℕ → Bool → List (Answer Text) → Outcome Collected
  unfolding collect sub64
  collect_addresses local_peer_id test_instance_count ended msgs =
      collect local_peer_id (sub64 test_instance_count 1) ended msgs [] []

-- The choice of a node by `gen_range(0..n)` of the generator with a seed, which panics if `n` is 0.
abbrev pub picked : (ℕ → ℕ → ℕ) → ℕ → List PeerId → List Multiaddr → Outcome (PeerId × Multiaddr)
picked gen_range sim_id peer_ids addresses = do
  rand_i ←
      if length peer_ids == 0 then panic empty_range else ok (gen_range sim_id (length peer_ids))
  peer_id ← index peer_ids rand_i
  multi_addr ← index addresses rand_i
  ok (peer_id, multi_addr)
