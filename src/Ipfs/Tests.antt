-- ===== src/Ipfs/Tests.antt =====
-- A client and its service, from the start.
use live_tests.Base.{refl, [], ◌∷◌, true}
use live_tests.Exchange.{Block}
use live_tests.Exchange.Represents.{default-Represents}
use live_tests.Client.Handle
use live_tests.Client.Handle.{IpfsClient}
use live_tests.Service
use live_tests.Service.Events.{World, accepted, refused}
use live_tests.Ipfs.{Ipfs, compose_network}
use live_tests.Ipfs.Reach.{here}
use live_tests.Ipfs.Reach.Kept.{Reach-Fresh}
use live_tests.Ipfs.Calls.{Idle}
use live_tests.Ipfs.Calls.Dropped.{
  BootstrapFails, dht_bootstrap_refused, AddsTwice, dht_add_addr_twice,
}
use live_tests.Ipfs.Fetch.Done.{Fetches, fetch-all_arrived}

-- Everybody listens, and there is no peer to bootstrap from.
abbrev world : World
world = record {
  publish_answer = λ _ _. accepted 0;
  subscribe_answer = λ _. accepted true;
  bootstrap_answer = refused 1;
  listen_answer = λ _. accepted 4;
  topic_hash = λ t. t;
  listening = λ _. true;
}

abbrev start : Ipfs
start = compose_network 2

start-Idle : Idle start
unfolding compose_network Handle.new
start-Idle = record { fresh = Reach-Fresh 2 start here; alive = refl; received = refl }

dht_bootstrap_refused_example : BootstrapFails world start
dht_bootstrap_refused_example = dht_bootstrap_refused world start 1 start-Idle refl

dht_add_addr_twice_example : AddsTwice world 7 100 101 start
dht_add_addr_twice_example = dht_add_addr_twice world start 7 100 101 start-Idle

abbrev block_10 : Block
block_10 = record { cid = 10; bytes = 5 ∷ [] }

abbrev block_11 : Block
block_11 = record { cid = 11; bytes = 6 ∷ [] }

-- An announcement with a CID twice, whose blocks come in another order.
fetch-all_arrived_example :
    Fetches world (10 ∷ 11 ∷ 10 ∷ []) ((7, block_11) ∷ (8, block_10) ∷ []) 4 99 start
unfolding compose_network Service.new
fetch-all_arrived_example =
    fetch-all_arrived world (10 ∷ 11 ∷ 10 ∷ []) ((7, block_11) ∷ (8, block_10) ∷ []) 4 99 start
      (λ k. refl) start-Idle ([], default-Represents)
