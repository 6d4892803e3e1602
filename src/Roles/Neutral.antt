-- ===== src/Roles/Neutral.antt =====
-- The neutral role (roles/neutral.rs): a node that is neither the source nor a viewer joins the others
-- in the DHT, through a random one. Its module is commented out in roles/mod.rs, and its call in
-- main.rs.
use live_tests.Base.{ℕ, ◌/◌, List, [], Outcome, ok, panic, sub64}
use live_tests.Exchange.{PeerId}
use live_tests.Client.{Multiaddr}
use live_tests.Client.Handle
use live_tests.Ipfs.{compose_network}
use live_tests.Roles.Addresses.{announcement, collect, picked}
use live_tests.Roles.Talk.{
  Request, init, net, bootstrapped, stop, configure_network, subscribe, signal_and_wait, publish,
  barrier, Environment, End, done, panics, Role, ◌>>=◌, ◌>>◌, tell, ask, await, call,
}
use live_tests.Roles.Enter.{
  RunParameters, Libp2p, Machine, listened, collected_or, local_multi_addr,
}

abbrev pub picked_or : Outcome (PeerId × Multiaddr) → Role (PeerId × Multiaddr)
picked_or (ok node) n = done node n
picked_or (panic e) n = panics e n.requests

-- A quarter of the instances but one, which wraps around below four instances.
abbrev pub neutral_nodes : RunParameters → ℕ
neutral_nodes runenv = sub64 (runenv.test_instance_count / 4) 1

module _ (gen_range : ℕ → ℕ → ℕ) (env : Environment) (lib : Libp2p) (runenv : RunParameters)
    (machine : Machine) where
  -- The role from `listen_on` on. The result of the bootstrap is only printed.
  unfoldable pub neutral_from : ℕ → Role (Unit {0})
  unfolding Handle.listen_on collect Handle.dht_add_addr Handle.dht_bootstrap
  neutral_from sim_id = do
    k ← call (Handle.listen_on (local_multi_addr env lib runenv machine))
    reply ← await env k
    listened reply
    ask env (configure_network (record { latency = 0; jitter = 0; bandwidth = 10000000 }))
    tell subscribe
    ask env (barrier init runenv.test_instance_count)
    ask env (
        publish (
          announcement lib.to_base58 lib.to_string
            (machine.local_peer_id, local_multi_addr env lib runenv machine)))
    (peer_ids, addresses) ← collected_or (
        collect lib.parse_peer_id lib.parse_multiaddr machine.local_peer_id (neutral_nodes runenv)
          machine.ended machine.messages [] [])
    ask env (signal_and_wait net (neutral_nodes runenv))
    (peer_id, multi_addr) ← picked_or (picked gen_range sim_id peer_ids addresses)
    added ← call (Handle.dht_add_addr peer_id multi_addr)
    _ ← await env added
    asked ← call Handle.dht_bootstrap
    _ ← await env asked
    ask env (signal_and_wait bootstrapped runenv.test_instance_count)
    ask env (signal_and_wait stop runenv.test_instance_count)

  unfoldable pub neutral : ℕ → List Request → End (Unit {0})
  unfolding neutral_from
  neutral sim_id requests =
      neutral_from sim_id (record { ipfs = compose_network 2; requests = requests })
