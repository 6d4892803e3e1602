-- ===== src/Service/Filled/Tests.antt =====
-- A peer wants two blocks, of a service that may send one at a time.
use live_tests.Base.{refl, [], ◌∷◌, true, Distinct-push, position, arith}
use live_tests.Exchange.{
  Block, BlockExchange, default, add_want, remove_want, iter_wanted_blocks, get_block,
}
use live_tests.Exchange.Represents.{Represents, default-Represents}
use live_tests.Service.{Service, new}
use live_tests.Service.Table.{contains, discard}
use live_tests.Service.Events.{World, accepted, sends_block}
use live_tests.Service.Bitswap.{bitswap}
use live_tests.Service.Run.{run, event}
use live_tests.Service.Drain.{Cancels, cancels, none_yet, one_more}
use live_tests.Service.Filled.Emptied.{wants_of, CancelsAfter, after, Empties, CancelsAfter-Empties}

abbrev serving_world : World
serving_world = record {
  publish_answer = λ _ _. accepted 0;
  subscribe_answer = λ _. accepted true;
  bootstrap_answer = accepted 3;
  listen_answer = λ _. accepted 4;
  topic_hash = λ t. t;
  listening = λ _. true;
}

abbrev stock : BlockExchange
stock = record default { cids = 10 ∷ 11 ∷ []; datums = (5 ∷ []) ∷ (6 ∷ []) ∷ [] }

stock-Represents : Represents stock []
unfolding position
stock-Represents = record {
  entries = [];
  peer_side = refl;
  cid_side = refl;
  wants = refl;
  resolved = tt;
  peers_distinct = default-Represents.peers_distinct;
  cids_distinct =
      Distinct-push (10 ∷ []) 11 (Distinct-push [] 10 default-Represents.cids_distinct refl) refl;
  held = omega arith;
}

abbrev stocked : Service
stocked = record (new 1) { block_exchange = stock }

abbrev block_10 : Block
block_10 = record { cid = 10; bytes = 5 ∷ [] }

abbrev block_11 : Block
block_11 = record { cid = 11; bytes = 6 ∷ [] }

-- The first block is on its way, and then the second.
abbrev first : Service
first = record stocked {
  block_exchange = add_want (add_want stock 2 10) 2 11;
  pending_send_block = (2, 10) ∷ [];
  effects = sends_block 2 block_10 ∷ [];
}

abbrev second : Service
second = record stocked {
  block_exchange = record stock { peers = 2 ∷ []; peer_indices = 0 ∷ []; cid_indices = 1 ∷ [] };
  pending_send_block = (2, 11) ∷ [];
  effects = sends_block 2 block_10 ∷ sends_block 2 block_11 ∷ [];
}

abbrev served : Service
served = record second { block_exchange = record stock { peers = 2 ∷ [] }; pending_send_block = [] }

both : Cancels serving_world first 2 served
unfolding bitswap remove_want contains discard add_want iter_wanted_blocks get_block new position
both = one_more (one_more none_yet (cancels 2 10 refl refl)) (cancels 2 11 refl refl)

served-After :
    CancelsAfter serving_world
      (run stocked (wants_of serving_world 0 ((2, 10) ∷ (2, 11) ∷ [])))
      2
      served
unfolding run event bitswap contains add_want iter_wanted_blocks get_block new position
served-After = after first refl both

CancelsAfter-Empties_example : Empties serving_world 0 ((2, 10) ∷ (2, 11) ∷ []) stocked 2 served
unfolding new
CancelsAfter-Empties_example =
    CancelsAfter-Empties serving_world stocked 0 ((2, 10) ∷ (2, 11) ∷ []) 2 served stock-Represents
      refl (omega arith) served-After
