-- ===== src/Service/Uses/Turns.antt =====
-- No event of the swarm brings a channel, and so each is used as often as the commands bring it.
use live_tests.Base.{
  ℕ, ◌+◌, inl, inr, List, [], ◌∷◌, Bool, Option, none, some, Outcome, ok, panic, ◌>>=◌, length, leb,
  ◌==◌, if◌then◌else◌, Bool-cases, arith,
}
use live_tests.Exchange.{
  PeerId, Cid, Block, BlockExchange, add_block, remove_want, add_want, iter_wanted_blocks,
}
use live_tests.Client.{Sender}
use live_tests.Service.{Service, send, command, answer_if, gossipsub, bootstrapped, kademlia}
use live_tests.Service.Table.{get, delete, contains, discard}
use live_tests.Service.Events.{
  Answer, accepted, refused, World, routed_reply, bootstrap_reply, listen_reply, block_reply,
  message_reply, sends_block, KademliaEvent, GossipsubEvent, BitswapEvent, SwarmEvent,
  ComposedEvent, received_block, received_want, received_cancel, message, outbound_query_completed,
  bootstrap_result, routing_updated, other_result, inbound_request, unroutable_peer, routable_peer,
  pending_routable_peer, subscribed, unsubscribed, not_supported, ping, kademlia_event,
  gossipsub_event, bitswap_event, behaviour, new_listen_addr, BootstrapOk,
}
use live_tests.Service.Bitswap.{send_first, serve, bitswap}
use live_tests.Service.Run.{composed, event, Turn, swarm_next, cmd_next, run}
use live_tests.Service.Uses.{
  uses_option, uses, uses_command, Spends, uses_effects-append, uses_table-delete, send_exact,
  Spends-mono, answer_if-Spends, Spends-bind,
}
use live_tests.Service.Uses.Commands.{command-Spends}

module _ (k : Sender) where
  -- Sending a wanted block uses no channel.
  send_first-Spends :
      (items : List (Outcome (PeerId × Block))) (s : Service)
      → Spends k (uses k s) (send_first items s)
  unfolding send_first
  send_first-Spends [] s = omega arith
  send_first-Spends (panic e ∷ items) s = tt
  send_first-Spends (ok (peer, block) ∷ items) s =
      elim (Bool-cases (contains (peer, block.cid) s.pending_send_block)) [
        | inl busy ↦ rw busy (send_first-Spends items s)
        | inr free ↦
            rw free (omega (arith, uses_effects-append k s.effects (sends_block peer block)))
      ]

  serve-Spends : (s : Service) → Spends k (uses k s) (serve s)
  unfolding serve
  serve-Spends s = elim (Bool-cases (leb s.max_concurrent_send (length s.pending_send_block))) [
    | inl full ↦ rw full (omega arith)
    | inr room ↦ rw room (send_first-Spends (iter_wanted_blocks s.block_exchange) s)
  ]

  bitswap-Spends :
      (world : World) (s : Service) (e : BitswapEvent) → Spends k (uses k s) (bitswap world s e)
  unfolding bitswap
  bitswap-Spends world s (received_block peer_id block) = stored (add_block s.block_exchange block)
    where
      stored :
          (out : Outcome (BlockExchange × Bool))
          → Spends k (uses k s) (
              out >>= λ (exchange, _).
              answer_if world
                (get block.cid s.pending_get_block)
                (block_reply (accepted block))
                (record s {
                  block_exchange = exchange;
                  pending_get_block = delete block.cid s.pending_get_block;
                })
              >>= serve)
      stored (panic e) = tt
      stored (ok (exchange, _)) =
          let s' : Service = record s {
            block_exchange = exchange;
            pending_get_block = delete block.cid s.pending_get_block;
          } in
          let waiting = get block.cid s.pending_get_block in
          let taken_out = uses_table-delete k block.cid s.pending_get_block in
          Spends-bind k (uses k s' + uses_option k waiting) (uses k s)
            (answer_if world waiting (block_reply (accepted block)) s') serve
            (answer_if-Spends k world waiting _ s')
            (λ t h. Spends-mono k (uses k t) (uses k s) _ (omega arith) (serve-Spends t))
  bitswap-Spends world s (received_want peer_id cid priority) =
      serve-Spends (record s { block_exchange = add_want s.block_exchange peer_id cid })
  bitswap-Spends world s (received_cancel peer_id cid) =
      removed (remove_want s.block_exchange peer_id cid)
    where
      removed :
          (out : Outcome BlockExchange)
          → Spends k (uses k s) (
              out >>= λ exchange.
              let key : PeerId × Cid = (peer_id, cid) in
              let t = record s {
                block_exchange = exchange;
                pending_send_block = discard key s.pending_send_block;
              } in
              if contains key s.pending_send_block
              then send_first (iter_wanted_blocks t.block_exchange) t
              else ok t)
      removed (panic e) = tt
      removed (ok exchange) = elim (Bool-cases (contains (peer_id, cid) s.pending_send_block)) [
        | inl was ↦ rw was (send_first-Spends (iter_wanted_blocks exchange) _)
        | inr was ↦ rw was (omega arith)
      ]

  bootstrapped-Spends :
      (world : World) (s : Service) (id : ℕ) (r : Answer BootstrapOk)
      → Spends k (uses k s) (bootstrapped world s id r)
  unfolding bootstrapped
  bootstrapped-Spends world s id r =
      Spends-mono k _ (uses k s) _ (omega (arith, uses_table-delete k id s.pending_bootstrap)) (
        answer_if-Spends k world (get id s.pending_bootstrap) (bootstrap_reply r)
          (record s { pending_bootstrap = delete id s.pending_bootstrap }))

  -- A message goes over a stream.
  gossipsub-Spends :
      (world : World) (s : Service) (e : GossipsubEvent) → Spends k (uses k s) (gossipsub world s e)
  unfolding gossipsub
  gossipsub-Spends world s (message m) = over_stream (get m.topic s.pending_subscribe)
    where
      over_stream :
          (waiting : Option Sender)
          → Spends k (uses k s) (answer_if world waiting (message_reply m) s)
      over_stream none = omega arith
      over_stream (some stream) =
          Spends-mono k (uses k s + 0) (uses k s) (send world stream (message_reply m) s)
            (omega arith) (send_exact k world stream (message_reply m) s)
  gossipsub-Spends world s subscribed = omega arith
  gossipsub-Spends world s unsubscribed = omega arith
  gossipsub-Spends world s not_supported = omega arith

  kademlia-Spends :
      (world : World) (s : Service) (e : KademliaEvent) → Spends k (uses k s) (kademlia world s e)
  unfolding kademlia
  kademlia-Spends world s (outbound_query_completed id (bootstrap_result (accepted b))) =
      elim (Bool-cases (b.num_remaining == 0)) [
        | inl done ↦ rw done (bootstrapped-Spends world s id (accepted b))
        | inr more ↦ rw more (omega arith)
      ]
  kademlia-Spends world s (outbound_query_completed id (bootstrap_result (refused e))) =
      bootstrapped-Spends world s id (refused e)
  kademlia-Spends world s (outbound_query_completed id other_result) = omega arith
  kademlia-Spends world s (routing_updated peer) =
      Spends-mono k _ (uses k s) _ (omega (arith, uses_table-delete k peer s.routing_updates)) (
        answer_if-Spends k world (get peer s.routing_updates) routed_reply
          (record s { routing_updates = delete peer s.routing_updates }))
  kademlia-Spends world s inbound_request = omega arith
  kademlia-Spends world s unroutable_peer = omega arith
  kademlia-Spends world s routable_peer = omega arith
  kademlia-Spends world s pending_routable_peer = omega arith

  composed-Spends :
      (world : World) (s : Service) (e : ComposedEvent) → Spends k (uses k s) (composed world s e)
  unfolding composed
  composed-Spends world s (kademlia_event e) = kademlia-Spends world s e
  composed-Spends world s (gossipsub_event e) = gossipsub-Spends world s e
  composed-Spends world s (bitswap_event e) = bitswap-Spends world s e
  composed-Spends world s ping = omega arith

  pub event-Spends :
      (world : World) (s : Service) (e : Option SwarmEvent) → Spends k (uses k s) (event world s e)
  unfolding event
  event-Spends world s none = tt
  event-Spends world s (some (behaviour e)) = composed-Spends world s e
  event-Spends world s (some (new_listen_addr id address)) =
      Spends-mono k _ (uses k s) _ (omega (arith, uses_table-delete k id s.pending_listen)) (
        answer_if-Spends k world (get id s.pending_listen) (listen_reply (accepted address))
          (record s { pending_listen = delete id s.pending_listen }))
  event-Spends world s (some _) = omega arith

  -- How often the commands that come bring the sender `k`.
  abbrev pub brought : List Turn → ℕ
  brought [] = 0
  brought (swarm_next _ _ ∷ turns) = brought turns
  brought (cmd_next _ (some cmd) ∷ turns) = uses_command k cmd + brought turns
  brought (cmd_next _ none ∷ turns) = brought turns

  -- A channel is used by no more than the commands that bring it and what used it before: in a run
  -- that a channel comes into once, it is answered at most once, and not while it still waits.
  pub run-Spends :
      (s : Service) (turns : List Turn) → Spends k (uses k s + brought turns) (run s turns)
  unfolding run
  run-Spends s [] = omega arith
  run-Spends s (swarm_next world e ∷ turns) =
      Spends-bind k (uses k s) _ (event world s e) _ (event-Spends world s e)
        (λ t h. Spends-mono k (uses k t + brought turns) _ _ (omega arith) (run-Spends t turns))
  run-Spends s (cmd_next world (some cmd) ∷ turns) =
      Spends-bind k (uses k s + uses_command k cmd) _ (command world s cmd) _
        (command-Spends k world s cmd)
        (λ t h. Spends-mono k (uses k t + brought turns) _ _ (omega arith) (run-Spends t turns))
  run-Spends s (cmd_next world none ∷ turns) = omega arith
