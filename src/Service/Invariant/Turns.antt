-- ===== src/Service/Invariant/Turns.antt =====
-- The turns of the loop and the invariant of the service (ipfs/background.rs).
use live_tests.Base.{
  ℕ, ◌<◌, inl, inr, refl, List, [], ◌∷◌, Option, none, some, Outcome, length, retain, Bool-cases,
  arith,
}
use live_tests.Exchange.{PeerId, Cid, Block}
use live_tests.Exchange.Represents.{default-Represents}
use live_tests.Exchange.Want.{add_want-Represents}
use live_tests.Exchange.Remove.{remove_want-Keeps, other_want}
use live_tests.Exchange.Iterate.{held_wants, iter_wanted_blocks-held_wants}
use live_tests.Service.{Service, new}
use live_tests.Service.Table.{
  get, contains, discard, discard-IsSetLike, length-discard, length-discard_found,
}
use live_tests.Service.Events.{
  World, BitswapEvent, SwarmEvent, ComposedEvent, received_block, received_want, received_cancel,
  ping, kademlia_event, gossipsub_event, bitswap_event, behaviour, new_listen_addr,
}
use live_tests.Service.Sending.{FirstServed, serve-Serves, send_first-FirstServed}
use live_tests.Service.Bitswap.{serve, bitswap}
use live_tests.Service.Run.{composed, event, Turn, swarm_next, cmd_next, run}
use live_tests.Service.Invariant.{
  Inv, Safe, Safe-bind, add_block-IsValid, answer_if-Safe, command-Safe, gossipsub-Safe,
  kademlia-Safe,
}

-- With room for one more, the loop over the wanted blocks keeps the invariant.
served-Safe :
    (s : Service) (items : List (PeerId × Block)) (out : Outcome Service)
    → Inv s
    → length s.pending_send_block < s.max_concurrent_send
    → FirstServed s items out
    → Safe s.max_concurrent_send out
served-Safe s items out v room (inl (all, e)) = rw e (v, refl)
served-Safe s items out v room (inr (before, x, rest, split, h, free, e)) =
    rw e (record { valid = v.valid; distinct = (free, v.distinct); bounded = room }, refl)

serve-Safe : (s : Service) → Inv s → Safe s.max_concurrent_send (serve s)
serve-Safe s v =
    let (w, r) = v.valid in
    elim (serve-Serves s w r) [
      | inl (full, e) ↦ rw e (v, refl)
      | inr (room, f) ↦ served-Safe s (held_wants s.block_exchange w) (serve s) v room f
    ]

bitswap-Safe :
    (world : World) (s : Service) (e : BitswapEvent)
    → Inv s
    → Safe s.max_concurrent_send (bitswap world s e)
unfolding bitswap
bitswap-Safe world s (received_block peer_id b) v =
    let (e', added, returns, valid) = add_block-IsValid s.block_exchange b v.valid in
    rw returns (
      Safe-bind s.max_concurrent_send _ _
        (answer_if-Safe world (get b.cid s.pending_get_block) _ _
          (record { valid = valid; distinct = v.distinct; bounded = v.bounded }))
        (λ t vt same. rw (← same) (serve-Safe t vt)))
bitswap-Safe world s (received_want peer_id cid priority) v =
    let (w, r) = v.valid in
    serve-Safe _ (record {
      valid = (_, (add_want-Represents s.block_exchange w peer_id cid r).0);
      distinct = v.distinct;
      bounded = v.bounded;
    })
bitswap-Safe world s (received_cancel peer_id cid) v =
    let (w, r) = v.valid in
    let k = remove_want-Keeps s.block_exchange w peer_id cid r in
    let found : PeerId × Cid = (peer_id, cid) in
    let left : Service = record s {
      block_exchange = k.after;
      pending_send_block = discard found s.pending_send_block;
    } in
    let w' = retain (other_want peer_id cid) w in
    let shorter = length-discard found s.pending_send_block in
    let bound = v.bounded in
    let inv : Inv left = record {
      valid = (w', k.represents);
      distinct = discard-IsSetLike found s.pending_send_block v.distinct;
      bounded = omega arith;
    } in
    elim (Bool-cases (contains found s.pending_send_block)) [
      | inl was ↦
          let fewer = length-discard_found found s.pending_send_block was in
          rw (k.returns, was, iter_wanted_blocks-held_wants k.after w' k.represents)
            (served-Safe left (held_wants k.after w') _ inv (omega arith)
              (send_first-FirstServed left (held_wants k.after w')))
      | inr was ↦ rw (k.returns, was) (inv, refl)
    ]

composed-Safe :
    (world : World) (s : Service) (e : ComposedEvent)
    → Inv s
    → Safe s.max_concurrent_send (composed world s e)
unfolding composed
composed-Safe world s (kademlia_event e) v = kademlia-Safe world s e v
composed-Safe world s (gossipsub_event e) v = gossipsub-Safe world s e v
composed-Safe world s (bitswap_event e) v = bitswap-Safe world s e v
composed-Safe world s ping v = (v, refl)

-- An event keeps the invariant and the limit, or ends the task by a dropped receiver.
pub event-Safe :
    (world : World) (s : Service) (e : Option SwarmEvent)
    → Inv s
    → Safe s.max_concurrent_send (event world s e)
unfolding event
event-Safe world s none v = λ e. cc
event-Safe world s (some (behaviour e)) v = composed-Safe world s e v
event-Safe world s (some (new_listen_addr id address)) v =
    answer_if-Safe world (get id s.pending_listen) _ _ v
event-Safe world s (some _) v = (v, refl)

-- Whatever the swarm, the clients and the libraries do, no turn of the loop panics by an index,
-- the exchange stays valid, no block is on its way twice to one peer, and never are more blocks on
-- their way than the limit allows.
pub run-Safe : (s : Service) (turns : List Turn) → Inv s → Safe s.max_concurrent_send (run s turns)
unfolding run
run-Safe s [] v = (v, refl)
run-Safe s (swarm_next world e ∷ turns) v =
    Safe-bind s.max_concurrent_send _ _ (event-Safe world s e v)
      (λ t vt same. rw (← same) (run-Safe t turns vt))
run-Safe s (cmd_next world (some cmd) ∷ turns) v =
    Safe-bind s.max_concurrent_send _ _ (command-Safe world s cmd v)
      (λ t vt same. rw (← same) (run-Safe t turns vt))
run-Safe s (cmd_next world none ∷ turns) v = (v, refl)

pub new-Inv : (limit : ℕ) → Inv (new limit)
unfolding new
new-Inv limit = record { valid = ([], default-Represents); distinct = tt; bounded = omega arith }
