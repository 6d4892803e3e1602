-- ===== src/Service/Invariant.antt =====
-- What no turn of the loop breaks: the exchange is valid, no block is on its way twice to one peer,
-- and no more blocks are on their way than the limit allows.
pub mod Turns
use live_tests.Base.{
  ℕ, ◌≤◌, ◌<◌, ◌≡◌, ◌≢◌, inl, inr, refl, List, [], ◌∷◌, Bool, true, false, Option, none, some,
  Outcome, ok, panic, out_of_range, ◌>>=◌, length, retain, ◌==◌, Bool-cases, arith,
}
use live_tests.Exchange.{PeerId, Cid, Block, BlockExchange, add_block}
use live_tests.Exchange.Represents.{default-Represents}
use live_tests.Exchange.Want.{add_want-Represents}
use live_tests.Exchange.Remove.{remove_want-Keeps, other_want}
use live_tests.Exchange.Iterate.{held_wants, iter_wanted_blocks-held_wants}
use live_tests.Exchange.AddBlock.Both.{add_block_cases}
use live_tests.Exchange.Ops.{IsValid}
use live_tests.Client.{
  Sender, Command, listen_on, dht_add, bootstrap, publish, subscribe, block_get, block_add, dial,
}
use live_tests.Service.{
  Service, new, send, displaced, command, answer_if, gossipsub, bootstrapped, kademlia,
}
use live_tests.Service.Table.{
  get, contains, discard, IsSetLike, discard-IsSetLike, length-discard, length-discard_found,
}
use live_tests.Service.Events.{
  Answer, Answer-cases, accepted, refused, World, Reply, KademliaEvent, GossipsubEvent,
  BitswapEvent, SwarmEvent, ComposedEvent, received_block, received_want, received_cancel, message,
  outbound_query_completed, bootstrap_result, routing_updated, ping, kademlia_event,
  gossipsub_event, bitswap_event, behaviour, new_listen_addr, BootstrapOk,
}
use live_tests.Service.Sending.{FirstServed, serve-Serves, send_first-FirstServed}
use live_tests.Service.Bitswap.{serve, bitswap}
use live_tests.Service.Run.{composed, event, Turn, swarm_next, cmd_next, run}

pub record Sound (e : BlockExchange) (sent : List (PeerId × Cid)) (limit : ℕ) : Type 0 where
  pub valid : IsValid e
  pub distinct : IsSetLike sent
  pub bounded : length sent ≤ limit

abbrev pub Inv : Service → Type 0
Inv s = Sound s.block_exchange s.pending_send_block s.max_concurrent_send

-- An outcome with the invariant and the limit `m`; no panic of it is an index out of range.
abbrev pub Safe : ℕ → Outcome Service → Type 0
Safe m (ok t) = Inv t × (t.max_concurrent_send ≡ m)
Safe m (panic f) = f ≢ out_of_range

pub Safe-bind :
    (m : ℕ) (out : Outcome Service) (f : Service → Outcome Service)
    → Safe m out
    → ((t : Service) → Inv t → t.max_concurrent_send ≡ m → Safe m (f t))
    → Safe m (out >>= f)
Safe-bind m (ok t) f h k = k t h.0 h.1
Safe-bind m (panic e) f h k = h

send-Safe :
    (world : World) (sender : Sender) (r : Reply) (s : Service)
    → Inv s
    → Safe s.max_concurrent_send (send world sender r s)
send-Safe world sender r s v = elim (Bool-cases (world.listening sender)) [
  | inl there ↦ rw there (v, refl)
  | inr gone ↦ rw gone (λ e. cc)
]

pub answer_if-Safe :
    (world : World) (waiting : Option Sender) (r : Reply) (s : Service)
    → Inv s
    → Safe s.max_concurrent_send (answer_if world waiting r s)
unfolding answer_if
answer_if-Safe world none r s v = (v, refl)
answer_if-Safe world (some k) r s v = send-Safe world k r s v

displaced-Safe :
    (world : World) (waiting : Option Sender) (s : Service)
    → Inv s
    → Safe s.max_concurrent_send (displaced world waiting s)
unfolding displaced
displaced-Safe world none s v = (v, refl)
displaced-Safe world (some k) s v = send-Safe world k _ s v

pub add_block-IsValid :
    (e : BlockExchange) (b : Block)
    → IsValid e
    → (e' : BlockExchange) × (added : Bool) × (add_block e b ≡ ok (e', added)) × IsValid e'
add_block-IsValid e b (w, r) = elim (add_block_cases e w b r) [
  | inl (old, held, returns) ↦ (e, false, returns, (w, r))
  | inr (after, missing, returns, st) ↦ (after, true, returns, (_, st.represents))
]

-- A command keeps the invariant and the limit, or ends the task by a dropped receiver.
pub command-Safe :
    (world : World) (s : Service) (c : Command)
    → Inv s
    → Safe s.max_concurrent_send (command world s c)
unfolding command
command-Safe world s (publish topic content sender) v = elim (Bool-cases (world.listening sender)) [
  | inl there ↦ rw there (v, refl)
  | inr gone ↦ rw gone (v, refl)
]
command-Safe world s (subscribe topic sender stream) v =
    elim (Answer-cases (world.subscribe_answer topic)) [
      | inl (status, e) ↦
          rw (e, command)
            (Safe-bind s.max_concurrent_send _ _ (send-Safe world sender _ _ v) (λ t vt same.
              elim (Bool-cases status) [
                | inl new_topic ↦ rw new_topic (vt, same)
                | inr old_topic ↦ rw old_topic (vt, same)
              ]))
      | inr (code, e) ↦ rw (e, command) (send-Safe world sender _ _ v)
    ]
command-Safe world s (dht_add peer_id multi_addr sender) v = (v, refl)
command-Safe world s (bootstrap sender) v = elim (Answer-cases world.bootstrap_answer) [
  | inl (id, e) ↦ rw (e, command) (v, refl)
  | inr (code, e) ↦ rw (e, command) (v, refl)
]
command-Safe world s (listen_on multi_addr sender) v =
    elim (Answer-cases (world.listen_answer multi_addr)) [
      | inl (id, e) ↦ rw (e, command) (v, refl)
      | inr (code, e) ↦ rw (e, command) (send-Safe world sender _ _ v)
    ]
command-Safe world s (block_get cid sender) v =
    Safe-bind s.max_concurrent_send _ _ (displaced-Safe world (get cid s.pending_get_block) _ v)
      (λ t vt e. (vt, e))
command-Safe world s (block_add b) v =
    let (e', added, returns, valid) = add_block-IsValid s.block_exchange b v.valid in
    rw returns (record { valid = valid; distinct = v.distinct; bounded = v.bounded }, refl)
command-Safe world s (dial multi_addr) v = (v, refl)

pub gossipsub-Safe :
    (world : World) (s : Service) (e : GossipsubEvent)
    → Inv s
    → Safe s.max_concurrent_send (gossipsub world s e)
unfolding gossipsub
gossipsub-Safe world s (message m) v = answer_if-Safe world (get m.topic s.pending_subscribe) _ s v
gossipsub-Safe world s _ v = (v, refl)

bootstrapped-Safe :
    (world : World) (s : Service) (id : ℕ) (r : Answer BootstrapOk)
    → Inv s
    → Safe s.max_concurrent_send (bootstrapped world s id r)
unfolding bootstrapped
bootstrapped-Safe world s id r v = answer_if-Safe world (get id s.pending_bootstrap) _ _ v

pub kademlia-Safe :
    (world : World) (s : Service) (e : KademliaEvent)
    → Inv s
    → Safe s.max_concurrent_send (kademlia world s e)
unfolding kademlia
kademlia-Safe world s (outbound_query_completed id (bootstrap_result (accepted done))) v =
    elim (Bool-cases (done.num_remaining == 0)) [
      | inl last ↦ rw last (bootstrapped-Safe world s id (accepted done) v)
      | inr more ↦ rw more (v, refl)
    ]
kademlia-Safe world s (outbound_query_completed id (bootstrap_result (refused e))) v =
    bootstrapped-Safe world s id (refused e) v
kademlia-Safe world s (routing_updated peer) v =
    answer_if-Safe world (get peer s.routing_updates) _ _ v
kademlia-Safe world s _ v = (v, refl)
