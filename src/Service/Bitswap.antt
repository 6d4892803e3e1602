-- ===== src/Service/Bitswap.antt =====
-- Blocks between peers: what the service does on a block, a want and a cancel.
use live_tests.Base.{List, [], ◌∷◌, Outcome, ok, ◌>>=◌, length, leb, if◌then◌else◌}
use live_tests.Exchange.{PeerId, Cid, Block, add_want, remove_want, add_block, iter_wanted_blocks}
use live_tests.Service.Table.{get, delete, contains, discard}
use live_tests.Service.Events.{
  accepted, BitswapEvent, received_block, received_want, received_cancel, block_reply, sends_block,
  World,
}
use live_tests.Service.{Service, emit, answer_if}

-- The loop over the wanted blocks: the first one that is not on its way to its peer is sent.
unfoldable pub send_first : List (Outcome (PeerId × Block)) → Service → Outcome Service
send_first [] s = ok s
send_first (item ∷ items) s = do
  (peer, block) ← item
  let key : PeerId × Cid = (peer, block.cid)
  let go_on = send_first items s
  if contains key s.pending_send_block
      then go_on
      else ok (
          emit (sends_block peer block)
            (record s { pending_send_block = key ∷ s.pending_send_block }))

-- The loop, unless too many blocks are on their way.
unfoldable pub serve : Service → Outcome Service
unfolding send_first
serve s =
    if leb s.max_concurrent_send (length s.pending_send_block)
    then ok s
    else send_first (iter_wanted_blocks s.block_exchange) s

unfoldable pub bitswap : World → Service → BitswapEvent → Outcome Service
unfolding serve send_first answer_if
bitswap world s (received_block peer_id block) = do
  (exchange, _) ← add_block s.block_exchange block
  t ← answer_if world (get block.cid s.pending_get_block) (block_reply (accepted block)) (record s {
    block_exchange = exchange;
    pending_get_block = delete block.cid s.pending_get_block;
  })
  serve t
bitswap world s (received_want peer_id cid priority) =
    serve (record s { block_exchange = add_want s.block_exchange peer_id cid })
bitswap world s (received_cancel peer_id cid) = do
  exchange ← remove_want s.block_exchange peer_id cid
  let key : PeerId × Cid = (peer_id, cid)
  let t = record s {
    block_exchange = exchange;
    pending_send_block = discard key s.pending_send_block;
  }
  if contains key s.pending_send_block
      then send_first (iter_wanted_blocks t.block_exchange) t
      else ok t
