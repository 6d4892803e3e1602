-- ===== src/Service/Stuck/Turns.antt =====
-- The turns of a service at its limit of blocks on their way (ipfs/background.rs).
use live_tests.Base.{
  ◌≤◌, ◌≡◌, refl, List, [], ◌∷◌, true, false, none, some, All, length, leb, arith,
}
use live_tests.Exchange.Want.{add_want-Represents}
use live_tests.Exchange.Remove.{remove_want-Keeps}
use live_tests.Exchange.Ops.{IsValid}
use live_tests.Service.{Service}
use live_tests.Service.Table.{get, contains, discard_missing}
use live_tests.Service.Events.{
  World, BitswapEvent, SwarmEvent, received_block, received_want, received_cancel, ping,
  kademlia_event, gossipsub_event, bitswap_event, behaviour, new_listen_addr,
}
use live_tests.Service.Bitswap.{serve, bitswap}
use live_tests.Service.Run.{composed, event, Turn, swarm_next, cmd_next, run}
use live_tests.Service.Invariant.{add_block-IsValid}
use live_tests.Service.Stuck.{
  AllListen, cancels_one, Calm, Waits, Stuck, Stuck-bind, exchange-Waits, answer_if-Stuck,
  command-Stuck, gossipsub-Stuck, kademlia-Stuck,
}

module _ (s : Service) where
  -- At the limit.
  module _ (full : s.max_concurrent_send ≤ length s.pending_send_block) where
    serve-Stuck : (t : Service) → Waits s t → Stuck s (serve t)
    unfolding serve
    serve-Stuck t w =
        let there : leb t.max_concurrent_send (length t.pending_send_block) ≡ true =
          rw (w.same_limit, w.on_way) (ground arith) in
        rw there (t, refl, w)

    module _ (world : World) (listen : AllListen world) where
      bitswap-Stuck :
          (t : Service) (e : BitswapEvent)
          → cancels_one s.pending_send_block (behaviour (bitswap_event e)) ≡ false
          → Waits s t
          → Stuck s (bitswap world t e)
      unfolding bitswap
      bitswap-Stuck t (received_block peer_id b) calm w =
          let (e', added, returns, valid) = add_block-IsValid t.block_exchange b w.valid in
          rw returns (
            Stuck-bind s _ _
              (answer_if-Stuck s world listen _ (get b.cid t.pending_get_block) _
                (exchange-Waits s t e' valid w))
              serve-Stuck)
      bitswap-Stuck t (received_want peer_id cid priority) calm w =
          let (v, r) = w.valid in
          serve-Stuck _
            (exchange-Waits s t _ (_, (add_want-Represents t.block_exchange v peer_id cid r).0) w)
      bitswap-Stuck t (received_cancel peer_id cid) calm w =
          let (v, r) = w.valid in
          let k = remove_want-Keeps t.block_exchange v peer_id cid r in
          let absent : contains (peer_id, cid) t.pending_send_block ≡ false = rw w.on_way calm in
          rw (k.returns, absent, discard_missing (peer_id, cid) t.pending_send_block absent)
            (_, refl, exchange-Waits s t k.after (_, k.represents) w)

      event-Stuck :
          (t : Service) (e : SwarmEvent)
          → cancels_one s.pending_send_block e ≡ false
          → Waits s t
          → Stuck s (event world t (some e))
      unfolding event composed
      event-Stuck t (behaviour (kademlia_event e)) calm w = kademlia-Stuck s world listen t e w
      event-Stuck t (behaviour (gossipsub_event e)) calm w = gossipsub-Stuck s world listen t e w
      event-Stuck t (behaviour (bitswap_event e)) calm w = bitswap-Stuck t e calm w
      event-Stuck t (behaviour ping) calm w = (t, refl, w)
      event-Stuck t (new_listen_addr id address) calm w =
          answer_if-Stuck s world listen _ (get id t.pending_listen) _ w
      event-Stuck t _ calm w = (t, refl, w)

    turns-Stuck :
        (t : Service) (turns : List Turn)
        → All (Calm s.pending_send_block) turns
        → Waits s t
        → Stuck s (run t turns)
    unfolding run
    turns-Stuck t [] calm w = (t, refl, w)
    turns-Stuck t (swarm_next world none ∷ turns) calm w = absurd calm.0
    turns-Stuck t (swarm_next world (some e) ∷ turns) ((listen, kept), calm) w =
        Stuck-bind s _ _ (event-Stuck world listen t e kept w) (λ u wu. turns-Stuck u turns calm wu)
    turns-Stuck t (cmd_next world (some cmd) ∷ turns) (listen, calm) w =
        Stuck-bind s _ _ (command-Stuck s world listen t cmd w)
          (λ u wu. turns-Stuck u turns calm wu)
    turns-Stuck t (cmd_next world none ∷ turns) calm w = (t, refl, w)

-- If as many blocks are on their way as the limit allows and no event cancels a want for one of
-- them, the service goes on, whatever else it is told (also that a connection was closed), but no
-- block is ever sent again, and the same ones stay on their way. (The exchange is valid, the
-- clients listen and the swarm does not end.)
pub run-Stuck :
    (s : Service) (turns : List Turn)
    → IsValid s.block_exchange
    → s.max_concurrent_send ≤ length s.pending_send_block
    → All (Calm s.pending_send_block) turns
    → Stuck s (run s turns)
run-Stuck s turns v full calm =
    turns-Stuck s full s turns calm
      (record { valid = v; on_way = refl; same_limit = refl; none_sent = refl })
