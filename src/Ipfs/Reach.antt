-- ===== src/Ipfs/Reach.antt =====
-- What a client and its service come to, in whatever order the calls, the commands and the events
-- of the swarm are handled.
pub mod Extends
pub mod Kept
use live_tests.Base.{
  ℕ, zero, suc, ◌+◌, ◌≤◌, ◌<◌, ◌≡◌, inl, inr, refl, ap, ◌∙◌, List, [], ◌∷◌, ◌++◌, Bool, true, false,
  some, Outcome, ok, panic, if◌then◌else◌, not, subst, ltb, ltb→lt, ltb→le, Bool-cases, arith,
}
use live_tests.Exchange.{PeerId, Cid, Bytes, Block}
use live_tests.Client.{Multiaddr, Topic, Sender, Command}
use live_tests.Client.Handle
use live_tests.Client.Handle.{IpfsClient, send_command, request}
use live_tests.Service
use live_tests.Service.{Service, command}
use live_tests.Service.Events.{SwarmEvent, World}
use live_tests.Service.Run.{event}
use live_tests.Service.Uses.{one, uses, uses_command, Spends}
use live_tests.Service.Uses.Commands.{command-Spends}
use live_tests.Service.Uses.Turns.{event-Spends}
use live_tests.Ipfs.{Ipfs, compose_network, take, take_times, take_from, hear, settle}
use live_tests.Ipfs.Answers.{uses_commands, uses_ipfs}

-- A call of the client that did not panic.
pub data Call (c c' : IpfsClient) : Type 0 where
  dials : (multi_addr : Multiaddr) → Handle.dial multi_addr c ≡ ok c' → Call c c'
  listens :
      (multi_addr : Multiaddr) (k : Sender) → Handle.listen_on multi_addr c ≡ ok (c', k) → Call c c'
  adds_address :
      (peer_id : PeerId) (multi_addr : Multiaddr) (k : Sender)
      → Handle.dht_add_addr peer_id multi_addr c ≡ ok (c', k)
      → Call c c'
  bootstraps : (k : Sender) → Handle.dht_bootstrap c ≡ ok (c', k) → Call c c'
  publishes :
      (topic : Topic) (content : Bytes) (k : Sender)
      → Handle.publish topic content c ≡ ok (c', k)
      → Call c c'
  subscribes :
      (topic : Topic) (k stream : Sender)
      → Handle.subscribe topic c ≡ ok (c', k, stream)
      → Call c c'
  closes : (status : Bool) (stream : Sender) → Handle.subscribed status stream c ≡ c' → Call c c'
  gets_block : (cid : Cid) (k : Sender) → Handle.get_block cid c ≡ ok (c', k) → Call c c'
  adds_block : (block : Block) → Handle.add_block block c ≡ ok c' → Call c c'

pub data Step (n : Ipfs) : Ipfs → Type 0 where
  calls : (c : IpfsClient) → Call n.client c → Step n (record n { client = c })
  takes : (world : World) → Step n (take world n)
  hears : (world : World) (e : SwarmEvent) → Step n (hear world e n)

pub data Reach (n : Ipfs) : Ipfs → Type 0 where
  here : Reach n n
  after : {t u : Ipfs} → Reach n t → Step t u → Reach n u

-- A channel is used at most once, and not before it is made.
pub record Fresh (n : Ipfs) : Type 0 where
  pub once : (k : Sender) → uses_ipfs k n ≤ 1
  pub unused : (k : Sender) → n.client.next_channel ≤ k → uses_ipfs k n ≡ 0
