-- ===== src/Client/Handle.antt =====
-- The client handle (`IpfsClient` of plans/streaming_test/src/ipfs/client.rs). Every method sends a
-- command, and most make a channel for the answer: a number that no earlier channel has. What a
-- method does after its `await` is a function of its own.
use live_tests.Base.{
  ℕ, suc, List, [], ◌∷◌, ◌++◌, Bool, true, not, Outcome, ok, panic, receiver_dropped, ◌>>=◌,
  if◌then◌else◌,
}
use live_tests.Exchange.{PeerId, Cid, Bytes, Block}
use live_tests.Client.{Multiaddr, Topic, Sender, Command}

-- `sent` are the commands that the service has not received yet, `service_alive` says whether it
-- still can, and `closed` are the streams that a client closed.
pub record IpfsClient : Type 0 where
  pub next_channel : ℕ
  pub sent : List Command
  pub service_alive : Bool
  pub closed : List Sender

unfoldable pub new : IpfsClient
new = record { next_channel = 0; sent = []; service_alive = true; closed = [] }

-- `self.cmd_tx.send(cmd).expect("Receiver not dropped")`
abbrev pub send_command : Command → IpfsClient → Outcome IpfsClient
send_command cmd c =
    if c.service_alive then ok (record c { sent = c.sent ++ cmd ∷ [] }) else panic receiver_dropped

-- A command with a new channel for the answer.
abbrev pub request : (Sender → Command) → IpfsClient → Outcome (IpfsClient × Sender)
request cmd c = do
  c' ← send_command (cmd c.next_channel) (record c { next_channel = suc c.next_channel })
  ok (c', c.next_channel)

unfoldable pub dial : Multiaddr → IpfsClient → Outcome IpfsClient
dial multi_addr = send_command (Command.dial multi_addr)

unfoldable pub listen_on : Multiaddr → IpfsClient → Outcome (IpfsClient × Sender)
listen_on multi_addr = request (λ sender. Command.listen_on multi_addr sender)

unfoldable pub dht_add_addr : PeerId → Multiaddr → IpfsClient → Outcome (IpfsClient × Sender)
dht_add_addr peer_id multi_addr = request (λ sender. Command.dht_add peer_id multi_addr sender)

unfoldable pub dht_bootstrap : IpfsClient → Outcome (IpfsClient × Sender)
dht_bootstrap = request (λ sender. Command.bootstrap sender)

unfoldable pub publish : Topic → Bytes → IpfsClient → Outcome (IpfsClient × Sender)
publish topic content = request (λ sender. Command.publish topic content sender)

-- The stream's channel is made first; the second result is the stream.
unfoldable pub subscribe : Topic → IpfsClient → Outcome (IpfsClient × Sender × Sender)
subscribe topic c = do
  let stream = c.next_channel
  (c', sender) ←
      request (λ sender. Command.subscribe topic sender stream)
        (record c { next_channel = suc c.next_channel })
  ok (c', sender, stream)

-- What follows when the answer of the service is in: the stream is closed if the topic is not new.
unfoldable pub subscribed : Bool → Sender → IpfsClient → IpfsClient
subscribed status stream c = if not status then record c { closed = stream ∷ c.closed } else c

unfoldable pub get_block : Cid → IpfsClient → Outcome (IpfsClient × Sender)
get_block cid = request (λ sender. Command.block_get cid sender)

unfoldable pub add_block : Block → IpfsClient → Outcome IpfsClient
add_block block = send_command (Command.block_add block)
