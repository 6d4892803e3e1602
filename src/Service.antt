-- ===== src/Service.antt =====
-- The background service that owns the swarm and the block exchange
-- (plans/streaming_test/src/ipfs/background.rs).
pub mod Table
pub mod Events
pub mod Bitswap
pub mod Run
pub mod Sending
pub mod Unserved
pub mod Drain
pub mod Filled
pub mod Invariant
pub mod Stuck
pub mod Replies
pub mod Uses
mod Tests
use live_tests.Base.{
  ℕ, suc, ◌≤◌, List, [], ◌∷◌, ◌++◌, Bool, true, false, not, Option, none, some, Outcome, ok, panic,
  unwrapped, receiver_dropped, ◌>>=◌, length, leb, ◌==◌, if◌then◌else◌,
}
use live_tests.Exchange.{
  PeerId, Cid, Bytes, Block, BlockExchange, default, add_want, remove_want, add_block,
  iter_wanted_blocks,
}
use live_tests.Client.{
  Multiaddr, Topic, Sender, Command, listen_on, dht_add, bootstrap, publish, subscribe, block_get,
  block_add, dial,
}
use Table.{get, insert, delete, contains, discard}
use Events.{
  Answer, accepted, refused, BootstrapOk, Message, QueryResult, bootstrap_result, other_result,
  KademliaEvent, inbound_request, outbound_query_completed, routing_updated, unroutable_peer,
  routable_peer, pending_routable_peer, GossipsubEvent, message, subscribed, unsubscribed,
  not_supported, BitswapEvent, received_block, received_want, received_cancel, ComposedEvent, ping,
  kademlia_event, gossipsub_event, bitswap_event, SwarmEvent, behaviour, connection_established,
  connection_closed, incoming_connection, incoming_connection_error, outgoing_connection_error,
  banned_peer, new_listen_addr, expired_listen_addr, listener_closed, listener_error, dialing,
  Reply, publish_reply, subscribe_reply, routed_reply, bootstrap_reply, listen_reply, block_reply,
  message_reply, Effect, publishes, subscribes, adds_address, bootstraps, listens_on, wants_block,
  dials, sends_block, replies, World,
}

-- `effects` is the record of what was done to the swarm and sent over channels, oldest first.
pub record Service : Type 0 where
  pub effects : List Effect
  pub block_exchange : BlockExchange
  pub pending_subscribe : List (ℕ × Sender)
  pub routing_updates : List (PeerId × Sender)
  pub pending_bootstrap : List (ℕ × Sender)
  pub pending_listen : List (ℕ × Sender)
  pub pending_get_block : List (Cid × Sender)
  pub pending_send_block : List (PeerId × Cid)
  pub max_concurrent_send : ℕ

unfoldable pub new : ℕ → Service
new max_concurrent_send = record {
  effects = [];
  block_exchange = default;
  pending_subscribe = [];
  routing_updates = [];
  pending_bootstrap = [];
  pending_listen = [];
  pending_get_block = [];
  pending_send_block = [];
  max_concurrent_send = max_concurrent_send;
}

abbrev pub emit : Effect → Service → Service
emit f s = record s { effects = s.effects ++ f ∷ [] }

-- `sender.send(r).expect("Receiver not dropped")`
abbrev pub send : World → Sender → Reply → Service → Outcome Service
send world sender r s =
    if world.listening sender then ok (emit (replies sender r) s) else panic receiver_dropped

-- The error of a second request for one block.
abbrev pub already_getting : ℕ
already_getting = 0

unfoldable pub displaced : World → Option Sender → Service → Outcome Service
displaced world none s = ok s
displaced world (some sender) s = send world sender (block_reply (refused already_getting)) s

unfoldable pub command : World → Service → Command → Outcome Service
unfolding displaced
command world s (publish topic content sender) =
    let s' = emit (publishes topic content) s in
    let r = publish_reply (world.publish_answer topic content) in
    ok (if world.listening sender then emit (replies sender r) s' else s')
command world s (subscribe topic sender stream) =
    let s' = emit (subscribes topic) s in
    elim (world.subscribe_answer topic) [
      | refused e ↦ send world sender (subscribe_reply (refused e)) s'
      | accepted status ↦ do
        t ← send world sender (subscribe_reply (accepted status)) s'
        ok (
            if not status then t else record t {
              pending_subscribe = insert (world.topic_hash topic) stream t.pending_subscribe;
            })
    ]
command world s (dht_add peer_id multi_addr sender) = ok (
    emit (adds_address peer_id multi_addr)
      (record s { routing_updates = insert peer_id sender s.routing_updates }))
command world s (bootstrap sender) =
    let s' = emit bootstraps s in
    elim world.bootstrap_answer [
      | refused e ↦ ok s'
      | accepted id ↦ ok (record s' { pending_bootstrap = insert id sender s'.pending_bootstrap })
    ]
command world s (listen_on multi_addr sender) =
    let s' = emit (listens_on multi_addr) s in
    elim (world.listen_answer multi_addr) [
      | refused e ↦ send world sender (listen_reply (refused e)) s'
      | accepted id ↦ ok (record s' { pending_listen = insert id sender s'.pending_listen })
    ]
command world s (block_get cid sender) = do
  t ←
      displaced world (get cid s.pending_get_block)
        (record s { pending_get_block = insert cid sender s.pending_get_block })
  ok (emit (wants_block cid 0) t)
command world s (block_add block) = do
  (exchange, _) ← add_block s.block_exchange block
  ok (record s { block_exchange = exchange })
command world s (dial multi_addr) = ok (emit (dials multi_addr) s)

-- A waiting client is answered, if there is one.
unfoldable pub answer_if : World → Option Sender → Reply → Service → Outcome Service
answer_if world none r s = ok s
answer_if world (some sender) r s = send world sender r s

unfoldable pub gossipsub : World → Service → GossipsubEvent → Outcome Service
unfolding answer_if
gossipsub world s (message m) =
    answer_if world (get m.topic s.pending_subscribe) (message_reply m) s
gossipsub world s subscribed = ok s
gossipsub world s unsubscribed = ok s
gossipsub world s not_supported = ok s

unfoldable pub bootstrapped : World → Service → ℕ → Answer BootstrapOk → Outcome Service
unfolding answer_if
bootstrapped world s id r =
    answer_if world (get id s.pending_bootstrap) (bootstrap_reply r)
      (record s { pending_bootstrap = delete id s.pending_bootstrap })

unfoldable pub kademlia : World → Service → KademliaEvent → Outcome Service
unfolding bootstrapped answer_if
kademlia world s inbound_request = ok s
kademlia world s (outbound_query_completed id (bootstrap_result (accepted bootstrap_ok))) =
    if bootstrap_ok.num_remaining == 0
    then bootstrapped world s id (accepted bootstrap_ok)
    else ok s
kademlia world s (outbound_query_completed id (bootstrap_result (refused e))) =
    bootstrapped world s id (refused e)
kademlia world s (outbound_query_completed id other_result) = ok s
kademlia world s (routing_updated peer) =
    answer_if world (get peer s.routing_updates) routed_reply
      (record s { routing_updates = delete peer s.routing_updates })
kademlia world s unroutable_peer = ok s
kademlia world s routable_peer = ok s
kademlia world s pending_routable_peer = ok s
