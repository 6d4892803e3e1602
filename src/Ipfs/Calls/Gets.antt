-- ===== src/Ipfs/Calls/Gets.antt =====
-- A call of `get_block` from the command to the answer (ipfs/client.rs, ipfs/background.rs).
use live_tests.Base.{
  suc, ◌≡◌, inl, inr, refl, ap, ◌∙◌, List, [], ◌∷◌, true, Option, none, some, Outcome, ok, ==_refl,
  arith,
}
use live_tests.Exchange.{PeerId, Cid, Block}
use live_tests.Exchange.Represents.{Represents}
use live_tests.Client.{Sender, Command}
use live_tests.Client.Handle
use live_tests.Client.Handle.{IpfsClient}
use live_tests.Service.{Service, emit, command, displaced}
use live_tests.Service.Table.{get, insert, delete, get-insert}
use live_tests.Service.Events.{
  World, accepted, Reply, block_reply, wants_block, sends_block, replies,
}
use live_tests.Service.Sending.{Serves, answered, received_block-Serves}
use live_tests.Service.Uses.{uses_effects, uses_effects-append}
use live_tests.Ipfs.{Ipfs, settle, answer_to, take, hear, held, receive}
use live_tests.Ipfs.Answers.{answer_to-append, answer_to-found, receive-held, in_table-insert}
use live_tests.Ipfs.Calls.{Idle, asked, with_client, free, asked-waits, arrives, hear-arrives}

abbrev pub GetsBlock : World → PeerId → Block → Ipfs → Type 0
GetsBlock world peer_id b n =
    (c : IpfsClient) × (k : Sender) × (Handle.get_block b.cid n.client ≡ ok (c, k))
    × (receive k (with_client n c) ≡ none)
    × (receive k (take world (with_client n c)) ≡ none)
    × (receive k (hear world (arrives peer_id b) (take world (with_client n c)))
        ≡ some (ok (block_reply (accepted b))))

-- After the service has received the command.
abbrev getting : Cid → Ipfs → Ipfs
getting cid n =
    let k = n.client.next_channel in
    record {
      client = record n.client { next_channel = suc k; sent = [] };
      service =
          emit (wants_block cid 0)
            (record n.service { pending_get_block = insert cid k n.service.pending_get_block });
    }

take-getting :
    (world : World) (n : Ipfs) (cid : Cid)
    → get cid n.service.pending_get_block ≡ none
    → take world (with_client n (asked (λ j. Command.block_get cid j) n.client)) ≡ getting cid n
unfolding take command displaced
take-getting world n cid nobody = rw nobody refl

module _ (n : Ipfs) (i : Idle n) (cid : Cid) where
  getting-unused : uses_effects n.client.next_channel (getting cid n).service.effects ≡ 0
  getting-unused =
      let unused = free n i in
      omega (arith, uses_effects-append n.client.next_channel n.service.effects (wants_block cid 0))

  getting-waits : receive n.client.next_channel (getting cid n) ≡ none
  unfolding held
  getting-waits =
      let k = n.client.next_channel in
      receive-held k (getting cid n) getting-unused
        (rw (i.alive, in_table-insert k cid n.service.pending_get_block) (ground arith))

-- Sending another block on answers nobody and unsays nothing.
Serves-answer :
    (k : Sender) (r : Reply) (t : Service) (w : List (PeerId × Cid)) (out : Outcome Service)
    (n : Ipfs)
    → Serves t w out
    → answer_to k t.effects ≡ some r
    → receive k (settle out n) ≡ some (ok r)
unfolding receive
Serves-answer k r t w out n (inl (_, e)) h = rw (e, h) refl
Serves-answer k r t w out n (inr (_, inl (_, e))) h = rw (e, h) refl
Serves-answer k r t w out n (inr (_, inr (before, x, rest, _, _, _, e))) h =
    rw (e, answer_to-found k t.effects (sends_block x.0 x.1 ∷ []) r h) refl

answered-answer :
    (k : Sender) (b : Block) (waiting : Option Sender) (t : Service)
    → waiting ≡ some k
    → uses_effects k t.effects ≡ 0
    → answer_to k (answered waiting (block_reply (accepted b)) t).effects
      ≡ some (block_reply (accepted b))
unfolding answer_to
answered-answer k b waiting t e unused =
    ap (λ o. answer_to k (answered o (block_reply (accepted b)) t).effects) e
    ∙ answer_to-append k t.effects (replies k (block_reply (accepted b)) ∷ []) unused
    ∙ rw (==_refl k) refl

-- A client that gets a block which nobody else waits for is answered with the block when a peer
-- sends it, and waits until then.
pub get_block_delivers :
    (world : World) (n : Ipfs) (w : List (PeerId × Cid)) (peer_id : PeerId) (b : Block)
    → Idle n
    → Represents n.service.block_exchange w
    → get b.cid n.service.pending_get_block ≡ none
    → world.listening n.client.next_channel ≡ true
    → GetsBlock world peer_id b n
unfolding Handle.get_block
get_block_delivers world n w peer_id b i r nobody there =
    let k = n.client.next_channel in
    let g = getting b.cid n in
    let table = insert b.cid k n.service.pending_get_block in
    let waiting : get b.cid table ≡ some k =
      rw (get-insert b.cid b.cid k n.service.pending_get_block, ==_refl b.cid) refl in
    let (exchange, added, w', returns, r', served) =
      received_block-Serves world g.service w peer_id b r (λ j e. cc) in
    let stored : Service = record g.service {
      block_exchange = exchange;
      pending_get_block = delete b.cid table;
    } in
    let got = block_reply (accepted b) in
    let told = answered-answer k b (get b.cid table) stored waiting (getting-unused n i b.cid) in
    (
      asked (λ j. Command.block_get b.cid j) n.client,
      k,
      rw (i.alive, i.received) refl,
      asked-waits n i (λ j. Command.block_get b.cid j) (λ j. refl),
      rw (take-getting world n b.cid nobody) (getting-waits n i b.cid),
      rw (take-getting world n b.cid nobody, hear-arrives world peer_id b g i.alive)
          (Serves-answer k got _ w' _ g served told),
    )
