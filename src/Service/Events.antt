-- ===== src/Service/Events.antt =====
-- What the swarm tells the service, and what the service does to the swarm and its channels.
-- libp2p is not part of the repository: peers, topics, addresses and errors are numbers, and a
-- field that the service ignores is left out.
use live_tests.Base.{ℕ, Bool, ◌≡◌, ◌⊎◌, inl, inr, refl}
use live_tests.Exchange.{PeerId, Cid, Bytes, Block}
use live_tests.Client.{Multiaddr, Topic, Sender}

-- `Result<A, _>` with the error as a number.
pub data Answer (A : Type 0) : Type 0 where
  accepted : A → Answer A
  refused : ℕ → Answer A

pub record BootstrapOk : Type 0 where
  pub peer : PeerId
  pub num_remaining : ℕ

pub record Message : Type 0 where
  pub topic : ℕ
  pub content : Bytes

pub data QueryResult : Type 0 where
  bootstrap_result : Answer BootstrapOk → QueryResult
  other_result : QueryResult

pub data KademliaEvent : Type 0 where
  inbound_request : KademliaEvent
  outbound_query_completed : ℕ → QueryResult → KademliaEvent
  routing_updated : PeerId → KademliaEvent
  unroutable_peer routable_peer pending_routable_peer : KademliaEvent

pub data GossipsubEvent : Type 0 where
  message : Message → GossipsubEvent
  subscribed unsubscribed not_supported : GossipsubEvent

pub data BitswapEvent : Type 0 where
  received_block : PeerId → Block → BitswapEvent
  received_want : PeerId → Cid → ℕ → BitswapEvent
  received_cancel : PeerId → Cid → BitswapEvent

pub data ComposedEvent : Type 0 where
  ping : ComposedEvent
  kademlia_event : KademliaEvent → ComposedEvent
  gossipsub_event : GossipsubEvent → ComposedEvent
  bitswap_event : BitswapEvent → ComposedEvent

pub data SwarmEvent : Type 0 where
  behaviour : ComposedEvent → SwarmEvent
  connection_established connection_closed incoming_connection incoming_connection_error
        outgoing_connection_error banned_peer :
      SwarmEvent
  new_listen_addr : ℕ → Multiaddr → SwarmEvent
  expired_listen_addr listener_closed listener_error dialing : SwarmEvent

-- What is sent over a channel to a client.
pub data Reply : Type 0 where
  publish_reply : Answer ℕ → Reply
  subscribe_reply : Answer Bool → Reply
  routed_reply : Reply
  bootstrap_reply : Answer BootstrapOk → Reply
  listen_reply : Answer Multiaddr → Reply
  block_reply : Answer Block → Reply
  message_reply : Message → Reply

pub data Effect : Type 0 where
  publishes : Topic → Bytes → Effect
  subscribes : Topic → Effect
  adds_address : PeerId → Multiaddr → Effect
  bootstraps : Effect
  listens_on : Multiaddr → Effect
  wants_block : Cid → ℕ → Effect
  dials : Multiaddr → Effect
  sends_block : PeerId → Block → Effect
  replies : Sender → Reply → Effect

-- What the libraries answer during one step: the swarm's results, the hash of a topic, and
-- whether the receiving half of a channel is still there.
pub record World : Type 0 where
  pub publish_answer : Topic → Bytes → Answer ℕ
  pub subscribe_answer : Topic → Answer Bool
  pub bootstrap_answer : Answer ℕ
  pub listen_answer : Multiaddr → Answer ℕ
  pub topic_hash : Topic → ℕ
  pub listening : Sender → Bool

pub Answer-cases :
    {A : Type 0} (a : Answer A) → ((x : A) × (a ≡ accepted x)) ⊎ ((e : ℕ) × (a ≡ refused e))
Answer-cases (accepted x) = inl (x, refl)
Answer-cases (refused e) = inr (e, refl)
