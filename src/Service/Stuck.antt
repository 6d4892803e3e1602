-- ===== src/Service/Stuck.antt =====
-- A service at its limit of blocks on their way, as long as none of them is cancelled
-- (ipfs/background.rs).
pub mod Turns
use live_tests.Base.{
  ℕ, suc, ◌+◌, ◌≤◌, ◌≡◌, inl, inr, refl, ap, ◌∙◌, List, [], ◌∷◌, ◌++◌, Bool, true, false, Option,
  none, some, Outcome, ok, ◌>>=◌, All, length, leb, ◌==◌, Bool-cases, arith,
}
use live_tests.Exchange.{PeerId, Cid, BlockExchange}
use live_tests.Exchange.Want.{add_want-Represents}
use live_tests.Exchange.Remove.{remove_want-Keeps}
use live_tests.Exchange.Ops.{IsValid}
use live_tests.Client.{
  Sender, Command, listen_on, dht_add, bootstrap, publish, subscribe, block_get, block_add, dial,
}
use live_tests.Service.{
  Service, emit, send, displaced, command, answer_if, gossipsub, bootstrapped, kademlia,
}
use live_tests.Service.Table.{get, contains, discard, discard_missing}
use live_tests.Service.Events.{
  Answer, Answer-cases, accepted, refused, World, Reply, KademliaEvent, GossipsubEvent,
  BitswapEvent, SwarmEvent, ComposedEvent, received_block, received_want, received_cancel, message,
  outbound_query_completed, bootstrap_result, routing_updated, ping, kademlia_event,
  gossipsub_event, bitswap_event, behaviour, new_listen_addr, Effect, publishes, subscribes,
  adds_address, bootstraps, listens_on, wants_block, dials, replies, sends_block, BootstrapOk,
}
use live_tests.Service.Bitswap.{serve, bitswap}
use live_tests.Service.Run.{composed, event, Turn, swarm_next, cmd_next, run}
use live_tests.Service.Invariant.{add_block-IsValid}

-- How many blocks were sent to peers.
abbrev pub sendings : List Effect → ℕ
sendings [] = 0
sendings (sends_block peer block ∷ effects) = suc (sendings effects)
sendings (_ ∷ effects) = sendings effects

-- The receivers of all channels are still there.
abbrev pub AllListen : World → Type 0
AllListen world = (k : Sender) → world.listening k ≡ true

-- Whether an event cancels one of these.
abbrev pub cancels_one : List (PeerId × Cid) → SwarmEvent → Bool
cancels_one sent (behaviour (bitswap_event (received_cancel peer_id cid))) =
    contains (peer_id, cid) sent
cancels_one sent _ = false

-- A turn in which the swarm goes on, the clients listen and none of these is cancelled.
abbrev pub Calm : List (PeerId × Cid) → Turn → Type 0
Calm sent (swarm_next world none) = ⊥
Calm sent (swarm_next world (some e)) = AllListen world × (cancels_one sent e ≡ false)
Calm sent (cmd_next world cmd) = AllListen world

-- The service still is where it was: what is on its way, the limit, and the blocks sent.
pub record Still (s : Service) (e : BlockExchange) (sent : List (PeerId × Cid)) (limit : ℕ)
    (effects : List Effect) : Type 0 where
  pub valid : IsValid e
  pub on_way : sent ≡ s.pending_send_block
  pub same_limit : limit ≡ s.max_concurrent_send
  pub none_sent : sendings effects ≡ sendings s.effects

abbrev pub Waits : Service → Service → Type 0
Waits s t = Still s t.block_exchange t.pending_send_block t.max_concurrent_send t.effects

abbrev pub Stuck : Service → Outcome Service → Type 0
Stuck s out = (t : Service) × (out ≡ ok t) × Waits s t

pub Stuck-bind :
    (s : Service) (out : Outcome Service) (f : Service → Outcome Service)
    → Stuck s out
    → ((t : Service) → Waits s t → Stuck s (f t))
    → Stuck s (out >>= f)
Stuck-bind s out f (t, e, w) k = let (u, e', w') = k t w in (u, ap (λ o. o >>= f) e ∙ e', w')

sendings-append :
    (before after : List Effect) → sendings (before ++ after) ≡ sendings before + sendings after
sendings-append [] after = omega arith
sendings-append (sends_block peer block ∷ before) after =
    omega (arith, sendings-append before after)
sendings-append (_ ∷ before) after = sendings-append before after

module _ (s : Service) where
  emit-Waits : (t : Service) (f : Effect) → sendings (f ∷ []) ≡ 0 → Waits s t → Waits s (emit f t)
  emit-Waits t f quiet w = record {
    valid = w.valid;
    on_way = w.on_way;
    same_limit = w.same_limit;
    none_sent = let h = w.none_sent in omega (arith, sendings-append t.effects (f ∷ []));
  }

  -- Another exchange, with the rest as it was.
  pub exchange-Waits :
      (t : Service) (e : BlockExchange)
      → IsValid e
      → Waits s t
      → Waits s (record t { block_exchange = e })
  exchange-Waits t e v w = record {
    valid = v;
    on_way = w.on_way;
    same_limit = w.same_limit;
    none_sent = w.none_sent;
  }

  module _ (world : World) (listen : AllListen world) where
    send-Stuck :
        (t : Service) (sender : Sender) (r : Reply) → Waits s t → Stuck s (send world sender r t)
    send-Stuck t sender r w =
        rw (listen sender) (emit (replies sender r) t, refl, emit-Waits t (replies sender r) refl w)

    pub answer_if-Stuck :
        (t : Service) (waiting : Option Sender) (r : Reply)
        → Waits s t
        → Stuck s (answer_if world waiting r t)
    unfolding answer_if
    answer_if-Stuck t none r w = (t, refl, w)
    answer_if-Stuck t (some k) r w = send-Stuck t k r w

    displaced-Stuck :
        (t : Service) (waiting : Option Sender) → Waits s t → Stuck s (displaced world waiting t)
    unfolding displaced
    displaced-Stuck t none w = (t, refl, w)
    displaced-Stuck t (some k) w = send-Stuck t k _ w

    pub command-Stuck : (t : Service) (c : Command) → Waits s t → Stuck s (command world t c)
    unfolding command
    command-Stuck t (publish topic content sender) w =
        let asked = emit-Waits t (publishes topic content) refl w in
        rw (listen sender) (_, refl, emit-Waits (emit (publishes topic content) t) _ refl asked)
    command-Stuck t (subscribe topic sender stream) w =
        let u = emit (subscribes topic) t in
        let asked = emit-Waits t (subscribes topic) refl w in
        elim (Answer-cases (world.subscribe_answer topic)) [
          | inl (status, e) ↦
              rw (e, command)
                (Stuck-bind s _ _ (send-Stuck u sender _ asked) (λ v wv. elim (Bool-cases status) [
                  | inl new_topic ↦ rw new_topic (_, refl, wv)
                  | inr old_topic ↦ rw old_topic (v, refl, wv)
                ]))
          | inr (code, e) ↦ rw (e, command) (send-Stuck u sender _ asked)
        ]
    command-Stuck t (dht_add peer_id multi_addr sender) w =
        (_, refl, emit-Waits t (adds_address peer_id multi_addr) refl w)
    command-Stuck t (bootstrap sender) w =
        let asked = emit-Waits t bootstraps refl w in
        elim (Answer-cases world.bootstrap_answer) [
          | inl (id, e) ↦ rw (e, command) (_, refl, asked)
          | inr (code, e) ↦ rw (e, command) (_, refl, asked)
        ]
    command-Stuck t (listen_on multi_addr sender) w =
        let u = emit (listens_on multi_addr) t in
        let asked = emit-Waits t (listens_on multi_addr) refl w in
        elim (Answer-cases (world.listen_answer multi_addr)) [
          | inl (id, e) ↦ rw (e, command) (_, refl, asked)
          | inr (code, e) ↦ rw (e, command) (send-Stuck u sender _ asked)
        ]
    command-Stuck t (block_get cid sender) w =
        Stuck-bind s _ _ (displaced-Stuck _ (get cid t.pending_get_block) w)
          (λ u wu. (_, refl, emit-Waits u (wants_block cid 0) refl wu))
    command-Stuck t (block_add b) w =
        let (e', added, returns, valid) = add_block-IsValid t.block_exchange b w.valid in
        rw returns (_, refl, exchange-Waits t e' valid w)
    command-Stuck t (dial multi_addr) w = (_, refl, emit-Waits t (dials multi_addr) refl w)

    pub gossipsub-Stuck :
        (t : Service) (e : GossipsubEvent) → Waits s t → Stuck s (gossipsub world t e)
    unfolding gossipsub
    gossipsub-Stuck t (message m) w = answer_if-Stuck t (get m.topic t.pending_subscribe) _ w
    gossipsub-Stuck t _ w = (t, refl, w)

    bootstrapped-Stuck :
        (t : Service) (id : ℕ) (r : Answer BootstrapOk)
        → Waits s t
        → Stuck s (bootstrapped world t id r)
    unfolding bootstrapped
    bootstrapped-Stuck t id r w = answer_if-Stuck _ (get id t.pending_bootstrap) _ w

    pub kademlia-Stuck :
        (t : Service) (e : KademliaEvent) → Waits s t → Stuck s (kademlia world t e)
    unfolding kademlia
    kademlia-Stuck t (outbound_query_completed id (bootstrap_result (accepted done))) w =
        elim (Bool-cases (done.num_remaining == 0)) [
          | inl last ↦ rw last (bootstrapped-Stuck t id (accepted done) w)
          | inr more ↦ rw more (t, refl, w)
        ]
    kademlia-Stuck t (outbound_query_completed id (bootstrap_result (refused e))) w =
        bootstrapped-Stuck t id (refused e) w
    kademlia-Stuck t (routing_updated peer) w = answer_if-Stuck _ (get peer t.routing_updates) _ w
    kademlia-Stuck t _ w = (t, refl, w)
