-- ===== src/Roles/Enter.antt =====
-- What the two roles have in common: a node joins the others (roles/viewer.rs, and in the same words
-- roles/streamer.rs), and leaves them.
use live_tests.Base.{
  ℕ, List, ◌∷◌, Bool, Option, Outcome, ok, panic, zero_period, ◌==◌, if◌then◌else◌,
}
use live_tests.Exchange.{PeerId}
use live_tests.Client.{Multiaddr, Sender}
use live_tests.Client.Handle
use live_tests.Client.Handle.{IpfsClient}
use live_tests.Service.Events.{Answer, refused, Reply, listen_reply}
use live_tests.Network.{IpAddr, NetworkInterface, data_network_ip}
use live_tests.Params.{TestCaseParams}
use live_tests.Params.Dict.{Text}
use live_tests.Ipfs.{compose_network}
use live_tests.Roles.Addresses.{Collected, waits, collected, announcement, collect_addresses}
use live_tests.Roles.Talk.{
  init, net, bootstrapped, stop, configure_network, subscribe, signal_and_wait, publish, signal,
  barrier, record_success, Request, Environment, End, done, fails, panics, awaits, by_libp2p, Role,
  ◌>>=◌, ◌>>◌, return, tell, ask, await, call, no_answer,
}

pub record RunParameters : Type 0 where
  pub test_sidecar : Bool
  pub test_subnet : IpAddr → Bool
  pub test_instance_count : ℕ
  pub test_instance_params : Text

-- What libp2p gives: its texts, and the address of an IP address with a TCP port.
pub record Libp2p : Type 0 where
  pub to_base58 : PeerId → Text
  pub to_string : Multiaddr → Text
  pub parse_peer_id : Text → Option PeerId
  pub parse_multiaddr : Text → Option Multiaddr
  pub with_tcp : IpAddr → ℕ → Multiaddr

-- The node's interfaces and its identity, and what comes over the stream of the test runner's
-- topic, with whether the stream then ends.
pub record Machine : Type 0 where
  pub interfaces : List NetworkInterface
  pub local_peer_id : PeerId
  pub messages : List (Answer Text)
  pub ended : Bool

-- The result of `listen_on`.
abbrev pub listened : Reply → Role (Unit {0})
listened (listen_reply (refused e)) n = fails by_libp2p n.requests
listened _ n = done tt n

-- The end of the loop over the messages.
abbrev pub collected_or : Outcome Collected → Role (List PeerId × List Multiaddr)
collected_or (ok waits) n = awaits n.requests
collected_or (ok (collected peer_ids addresses)) n = done (peer_ids, addresses) n
collected_or (panic e) n = panics e n.requests

-- The loop over the two vectors.
unfoldable pub dial_all : List PeerId → List Multiaddr → Role (Unit {0})
unfolding Handle.dial
dial_all (_ ∷ peer_ids) (addr ∷ addresses) = do
  call (λ c. no_answer (Handle.dial addr c))
  dial_all peer_ids addresses
dial_all _ _ = return tt

-- What a role does once its parameters are known, with a new client and service.
abbrev pub with_params :
    Outcome TestCaseParams
    → (TestCaseParams → ℕ)
    → (TestCaseParams → Role (Unit {0}))
    → List Request
    → End (Unit {0})
with_params (ok p) max_concurrent_send role requests =
    role p (record { ipfs = compose_network (max_concurrent_send p); requests = requests })
with_params (panic e) max_concurrent_send role requests = panics e requests

-- The two channels of a subscription as one result.
abbrev pub with_stream :
    Outcome (IpfsClient × Sender × Sender) → Outcome (IpfsClient × (Sender × Sender))
with_stream (ok (c, k, stream)) = ok (c, (k, stream))
with_stream (panic e) = panic e

-- `time::interval`, which panics if the period is zero.
abbrev pub interval : ℕ → Role (Unit {0})
interval period n = if period == 0 then panics zero_period n.requests else done tt n

-- A subscription whose topic is not new is closed.
abbrev pub close_if : Bool → Sender → Role (Unit {0})
close_if status stream n =
    done tt
      (record n { ipfs = record n.ipfs { client = Handle.subscribed status stream n.ipfs.client } })

module _ (env : Environment) (lib : Libp2p) (runenv : RunParameters) (machine : Machine) where
  abbrev pub local_multi_addr : Multiaddr
  local_multi_addr =
      lib.with_tcp (data_network_ip runenv.test_subnet runenv.test_sidecar machine.interfaces) 4001

  unfoldable pub enter : TestCaseParams → Role (Unit {0})
  unfolding data_network_ip Handle.listen_on collect_addresses dial_all
  enter test_case_params = do
    k ← call (Handle.listen_on local_multi_addr)
    reply ← await env k
    listened reply
    ask env (
        configure_network (record {
          latency = 50000000;
          jitter = 1000000;
          bandwidth = test_case_params.network_bandwidth;
        }))
    tell subscribe
    ask env (signal_and_wait init runenv.test_instance_count)
    ask env (
        publish
          (announcement lib.to_base58 lib.to_string (machine.local_peer_id, local_multi_addr)))
    ask env (signal net)
    (peer_ids, addresses) ← collected_or (
        collect_addresses lib.parse_peer_id lib.parse_multiaddr machine.local_peer_id
          runenv.test_instance_count machine.ended machine.messages)
    ask env (barrier net runenv.test_instance_count)
    dial_all peer_ids addresses
    ask env (signal_and_wait bootstrapped runenv.test_instance_count)

  unfoldable pub leave : Role (Unit {0})
  leave = do tell record_success; ask env (signal_and_wait stop runenv.test_instance_count)
