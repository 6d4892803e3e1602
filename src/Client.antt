-- ===== src/Client.antt =====
-- The messages from the client handle to the background service
-- (plans/streaming_test/src/ipfs/client.rs). The sending half of a channel is a number.
use live_tests.Base.{ℕ}
pub mod Handle
use live_tests.Exchange.{PeerId, Cid, Bytes, Block}

abbrev pub Multiaddr : Type 0
Multiaddr = ℕ

abbrev pub Topic : Type 0
Topic = ℕ

abbrev pub Sender : Type 0
Sender = ℕ

pub data Command : Type 0 where
  listen_on : Multiaddr → Sender → Command
  dht_add : PeerId → Multiaddr → Sender → Command
  bootstrap : Sender → Command
  publish : Topic → Bytes → Sender → Command
  subscribe : Topic → Sender → Sender → Command
  block_get : Cid → Sender → Command
  block_add : Block → Command
  dial : Multiaddr → Command
