-- ===== src/Ipfs/Calls.antt =====
-- A client and its service between calls (`compose_network` of ipfs/mod.rs).
pub mod Dropped
pub mod Gets
use live_tests.Base.{
  ℕ, suc, ◌≡◌, inl, inr, refl, ap, ◌∙◌, List, [], ◌∷◌, ◌++◌, true, Option, none, some, Outcome, ok,
  panic, unwrapped, ◌>>=◌, ==_refl, if◌then◌else◌, arith,
}
use live_tests.Exchange.{PeerId, Cid, Block}
use live_tests.Exchange.Represents.{Represents}
use live_tests.Client.{Multiaddr, Sender, Command}
use live_tests.Client.Handle
use live_tests.Client.Handle.{IpfsClient}
use live_tests.Service.{Service, emit, command, displaced}
use live_tests.Service.Table.{get, insert, delete, get-insert}
use live_tests.Service.Events.{
  SwarmEvent, World, accepted, refused, Reply, block_reply, behaviour, bitswap_event,
  received_block, bootstraps, adds_address, wants_block, sends_block, replies,
}
use live_tests.Service.Run.{event}
use live_tests.Service.Bitswap.{bitswap}
use live_tests.Service.Sending.{Serves, answered, received_block-Serves}
use live_tests.Service.Uses.{one, uses_option, uses_effects, uses_table-insert, uses_effects-append}
use live_tests.Ipfs.{Ipfs, settle, answer_to, command_sender, is_sender, take, hear, held, receive}
use live_tests.Ipfs.Answers.{
  uses_ipfs, answer_to-append, answer_to-found, receive-unused, receive-held, in_table-insert,
}
use live_tests.Ipfs.Reach.{Fresh}

-- The service is there and has received every command so far.
pub record Idle (n : Ipfs) : Type 0 where
  pub fresh : Fresh n
  pub alive : n.client.service_alive ≡ true
  pub received : n.client.sent ≡ []

-- The client after a command with a new channel.
abbrev pub asked : (Sender → Command) → IpfsClient → IpfsClient
asked cmd c = record c { next_channel = suc c.next_channel; sent = cmd c.next_channel ∷ [] }

abbrev pub with_client : Ipfs → IpfsClient → Ipfs
with_client n c = record n { client = c }

module _ (n : Ipfs) (i : Idle n) where
  pub free : uses_ipfs n.client.next_channel n ≡ 0
  free = i.fresh.unused n.client.next_channel (omega arith)

  -- A client that has just asked waits.
  pub asked-waits :
      (cmd : Sender → Command)
      → ((k : Sender) → command_sender (cmd k) ≡ some k)
      → receive n.client.next_channel (with_client n (asked cmd n.client)) ≡ none
  unfolding held
  asked-waits cmd brings =
      let k = n.client.next_channel in
      let there : is_sender k (command_sender (cmd k)) ≡ true =
        ap (is_sender k) (brings k) ∙ ==_refl k in
      receive-held k (with_client n (asked cmd n.client)) (let h = free in omega arith)
        (rw (i.alive, there) refl)

-- The block arrives from a peer.
abbrev pub arrives : PeerId → Block → SwarmEvent
arrives peer_id b = behaviour (bitswap_event (received_block peer_id b))

pub hear-arrives :
    (world : World) (peer_id : PeerId) (b : Block) (n : Ipfs)
    → n.client.service_alive ≡ true
    → hear world (arrives peer_id b) n
      ≡ settle (bitswap world n.service (received_block peer_id b)) n
unfolding hear event
hear-arrives world peer_id b n alive =
    ap (λ a. if a then settle (bitswap world n.service (received_block peer_id b)) n else n) alive
