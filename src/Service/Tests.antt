-- ===== src/Service/Tests.antt =====
-- Runs of the service, and each theorem at a concrete input.
use live_tests.Base.{
  ◌≡◌, refl, All, List, [], ◌∷◌, true, false, none, some, ok, Distinct-push, position, arith,
}
use live_tests.Exchange.{Block, BlockExchange, default, add_want}
use live_tests.Exchange.Represents.{Represents, default-Represents}
use live_tests.Exchange.Want.{add_want-Represents}
use live_tests.Client.{block_get, block_add, subscribe}
use live_tests.Service.{Service, new}
use live_tests.Service.Table.{contains}
use live_tests.Service.Events.{
  World, accepted, Message, message, received_want, received_cancel, connection_closed,
  bitswap_event, gossipsub_event, behaviour, replies, subscribe_reply, message_reply, subscribes,
}
use live_tests.Service.Sending.{
  WantServed, CancelServed, BlockServed, received_want-Serves, received_cancel-FirstServed,
  received_block-Serves,
}
use live_tests.Service.Run.{Turn, swarm_next, cmd_next, run}
use live_tests.Service.Stuck.{Calm, Stuck}
use live_tests.Service.Stuck.Turns.{run-Stuck}
use live_tests.Service.Invariant.{Safe}
use live_tests.Service.Invariant.Turns.{run-Safe, new-Inv}
use live_tests.Service.Replies.{subscribe_first}

-- Everybody listens, and every topic is new.
abbrev world : World
world = record {
  publish_answer = λ _ _. accepted 0;
  subscribe_answer = λ _. accepted true;
  bootstrap_answer = accepted 3;
  listen_answer = λ _. accepted 4;
  topic_hash = λ t. t;
  listening = λ _. true;
}

abbrev later_world : World
later_world = record world { subscribe_answer = λ _. accepted false }

abbrev block_10 : Block
block_10 = record { cid = 10; bytes = 5 ∷ [] }

-- Block 10 is held, and nobody wants anything.
abbrev stock : BlockExchange
stock = record default { cids = 10 ∷ []; datums = (5 ∷ []) ∷ [] }

stock-Represents : Represents stock []
unfolding position
stock-Represents = record {
  entries = [];
  peer_side = refl;
  cid_side = refl;
  wants = refl;
  resolved = tt;
  peers_distinct = default-Represents.peers_distinct;
  cids_distinct = Distinct-push [] 10 default-Represents.cids_distinct refl;
  held = omega arith;
}

abbrev stocked : Service
stocked = record (new 2) { block_exchange = stock }

received_want-Serves_example : WantServed world stocked [] 1 10 0
received_want-Serves_example = received_want-Serves world stocked [] 1 10 0 stock-Represents

-- Block 10 is on its way to peer 1, and peer 2 wants it too.
abbrev busy : Service
busy = record stocked {
  block_exchange = add_want (add_want stock 1 10) 2 10;
  pending_send_block = (1, 10) ∷ [];
}

busy-Represents : Represents busy.block_exchange ((1, 10) ∷ (2, 10) ∷ [])
busy-Represents =
    let one = (add_want-Represents stock [] 1 10 stock-Represents).0 in
    (add_want-Represents (add_want stock 1 10) ((1, 10) ∷ []) 2 10 one).0

received_cancel-FirstServed_example : CancelServed world busy ((1, 10) ∷ (2, 10) ∷ []) 1 10
received_cancel-FirstServed_example =
    received_cancel-FirstServed world busy ((1, 10) ∷ (2, 10) ∷ []) 1 10 busy-Represents

-- Client 7 waits for block 10.
abbrev waiting : Service
waiting = record (new 2) { pending_get_block = (10, 7) ∷ [] }

new_exchange : Represents waiting.block_exchange []
unfolding new
new_exchange = default-Represents

received_block-Serves_example : BlockServed world waiting 1 block_10
received_block-Serves_example =
    received_block-Serves world waiting [] 1 block_10 new_exchange (λ k e. refl)

abbrev turns : List Turn
turns =
    cmd_next world (some (block_add block_10))
    ∷ swarm_next world (some (behaviour (bitswap_event (received_want 1 10 0))))
    ∷ swarm_next world (some (behaviour (bitswap_event (received_want 2 10 0))))
    ∷ swarm_next world (some (behaviour (bitswap_event (received_cancel 1 10))))
    ∷ cmd_next world none
    ∷ []

run-Safe_example : Safe (new 1).max_concurrent_send (run (new 1) turns)
run-Safe_example = run-Safe (new 1) turns (new-Inv 1)

abbrev hello : Message
hello = record { topic = 6; content = 1 ∷ [] }

subscribe_first_example :
    (t : Service) × (run stocked (
        cmd_next world (some (subscribe 6 1 2))
        ∷ cmd_next later_world (some (subscribe 6 3 4))
        ∷ swarm_next later_world (some (behaviour (gossipsub_event (message hello))))
        ∷ [])
      ≡ ok t)
    × (t.effects
        ≡ subscribes 6
          ∷ replies 1 (subscribe_reply (accepted true))
          ∷ subscribes 6
          ∷ replies 3 (subscribe_reply (accepted false))
          ∷ replies 2 (message_reply hello)
          ∷ [])
unfolding new
subscribe_first_example =
    subscribe_first world later_world stocked 6 1 2 3 4 hello refl refl refl refl refl refl

-- At the limit, with a block on its way to peer 1, which goes away.
abbrev full_up : Service
full_up = record busy { max_concurrent_send = 1 }

abbrev gone : List Turn
gone =
    swarm_next world (some connection_closed)
    ∷ swarm_next world (some (behaviour (bitswap_event (received_want 2 10 0))))
    ∷ swarm_next world (some (behaviour (bitswap_event (received_cancel 2 10))))
    ∷ cmd_next world (some (block_get 20 7))
    ∷ []

gone-Calm : All (Calm full_up.pending_send_block) gone
unfolding contains
gone-Calm = ((λ k. refl, refl), ((λ k. refl, refl), ((λ k. refl, refl), (λ k. refl, tt))))

run-Stuck_example : Stuck full_up (run full_up gone)
run-Stuck_example =
    run-Stuck full_up gone ((1, 10) ∷ (2, 10) ∷ [], busy-Represents) (omega arith) gone-Calm
