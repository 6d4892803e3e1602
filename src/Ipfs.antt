-- ===== src/Ipfs.antt =====
-- A client handle with its background service (`compose_network` of
-- plans/streaming_test/src/ipfs/mod.rs, and what the `await`s of ipfs/client.rs wait for).
pub mod Answers
pub mod Reach
pub mod Calls
pub mod Fetch
pub mod Delivered
mod Tests
use live_tests.Base.{
  ℕ, zero, suc, List, [], ◌∷◌, Bool, true, false, ◌&&◌, ◌||◌, Option, none, some, Outcome, ok,
  panic, unwrapped, ◌==◌, if◌then◌else◌,
}
use live_tests.Client.{
  Sender, Command, listen_on, dht_add, bootstrap, publish, subscribe, block_get, block_add, dial,
}
use live_tests.Client.Handle
use live_tests.Client.Handle.{IpfsClient}
use live_tests.Service
use live_tests.Service.{Service, command}
use live_tests.Service.Events.{Effect, replies, Reply, message_reply, SwarmEvent, World}
use live_tests.Service.Run.{event}

pub record Ipfs : Type 0 where
  pub client : IpfsClient
  pub service : Service

unfoldable pub compose_network : ℕ → Ipfs
compose_network max_concurrent_send = record {
  client = Handle.new;
  service = Service.new max_concurrent_send;
}

-- The service goes on, or its task has panicked: then the commands that it has not received and
-- all the senders that it holds are dropped.
abbrev pub settle : Outcome Service → Ipfs → Ipfs
settle (ok t) n = record n { service = t }
settle (panic e) n = record n { client = record n.client { sent = []; service_alive = false } }

abbrev pub take_from : World → Ipfs → List Command → Ipfs
take_from world n [] = n
take_from world n (cmd ∷ rest) =
    settle (command world n.service cmd) (record n { client = record n.client { sent = rest } })

-- The service receives the next command, if there is one.
unfoldable pub take : World → Ipfs → Ipfs
take world n = take_from world n n.client.sent

-- The service receives so many commands.
abbrev pub take_times : World → ℕ → Ipfs → Ipfs
take_times world zero n = n
take_times world (suc k) n = take_times world k (take world n)

-- The service receives an event of the swarm.
unfoldable pub hear : World → SwarmEvent → Ipfs → Ipfs
hear world e n = if n.client.service_alive then settle (event world n.service (some e)) n else n

-- The channel on which a command wants its answer.
abbrev pub command_sender : Command → Option Sender
command_sender (listen_on _ sender) = some sender
command_sender (dht_add _ _ sender) = some sender
command_sender (bootstrap sender) = some sender
command_sender (publish _ _ sender) = some sender
command_sender (subscribe _ sender _) = some sender
command_sender (block_get _ sender) = some sender
command_sender (block_add _) = none
command_sender (dial _) = none

abbrev pub is_sender : Sender → Option Sender → Bool
is_sender k none = false
is_sender k (some sender) = k == sender

abbrev pub in_commands : Sender → List Command → Bool
in_commands k [] = false
in_commands k (cmd ∷ cmds) = is_sender k (command_sender cmd) || in_commands k cmds

abbrev pub in_table : Sender → List (ℕ × Sender) → Bool
in_table k [] = false
in_table k ((_, sender) ∷ m) = k == sender || in_table k m

-- Whether the sending half of an answer's channel still exists.
unfoldable pub held : Sender → Ipfs → Bool
held k n =
    n.client.service_alive
    && (in_commands k n.client.sent
        || in_table k n.service.routing_updates
        || in_table k n.service.pending_bootstrap
        || in_table k n.service.pending_listen
        || in_table k n.service.pending_get_block)

-- The first answer on a channel. A message on a topic goes over a stream and is none.
abbrev pub is_answer : Sender → Effect → Option Reply
is_answer k (replies sender (message_reply m)) = none
is_answer k (replies sender r) = if k == sender then some r else none
is_answer k _ = none

abbrev pub or_else : Option Reply → Option Reply → Option Reply
or_else (some r) other = some r
or_else none other = other

pub answer_to : Sender → List Effect → Option Reply
answer_to k [] = none
answer_to k (f ∷ effects) = or_else (is_answer k f) (answer_to k effects)

abbrev pub awaited : Option Reply → Bool → Option (Outcome Reply)
awaited (some r) there = some (ok r)
awaited none true = none
awaited none false = some (panic unwrapped)

-- `receiver.await.expect("Sender not dropped")`: `none` while the future is pending.
unfoldable pub receive : Sender → Ipfs → Option (Outcome Reply)
unfolding held answer_to
receive k n = awaited (answer_to k n.service.effects) (held k n)
