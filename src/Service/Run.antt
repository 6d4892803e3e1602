-- ===== src/Service/Run.antt =====
-- The events of the swarm, and the loop of the service.
use live_tests.Base.{List, [], ◌∷◌, Option, none, some, Outcome, ok, panic, unwrapped, ◌>>=◌}
use live_tests.Client.{Command}
use live_tests.Service.Table.{get, delete}
use live_tests.Service.Events.{
  accepted, ComposedEvent, ping, kademlia_event, gossipsub_event, bitswap_event, SwarmEvent,
  behaviour, new_listen_addr, listen_reply, World,
}
use live_tests.Service.{Service, answer_if, command, gossipsub, kademlia}
use live_tests.Service.Bitswap.{bitswap}

unfoldable pub composed : World → Service → ComposedEvent → Outcome Service
unfolding kademlia gossipsub bitswap
composed world s (kademlia_event e) = kademlia world s e
composed world s (gossipsub_event e) = gossipsub world s e
composed world s (bitswap_event e) = bitswap world s e
composed world s ping = ok s

unfoldable pub event : World → Service → Option SwarmEvent → Outcome Service
unfolding composed answer_if
event world s none = panic unwrapped
event world s (some (behaviour e)) = composed world s e
event world s (some (new_listen_addr listener_id address)) =
    answer_if world (get listener_id s.pending_listen) (listen_reply (accepted address))
      (record s { pending_listen = delete listener_id s.pending_listen })
event world s (some _) = ok s

-- One turn of the loop: what `select!` takes next, with what the libraries answer meanwhile.
pub data Turn : Type 0 where
  swarm_next : World → Option SwarmEvent → Turn
  cmd_next : World → Option Command → Turn

-- The loop over the turns that come. `None` from the channel ends it; the rest is never taken.
unfoldable pub run : Service → List Turn → Outcome Service
unfolding event command
run s [] = ok s
run s (swarm_next world e ∷ turns) = event world s e >>= λ t. run t turns
run s (cmd_next world (some cmd) ∷ turns) = command world s cmd >>= λ t. run t turns
run s (cmd_next world none ∷ turns) = ok s
