-- ===== src/Exchange/Cases.antt =====
-- The test functions of ipfs/block_exchange.rs, for any peers, blocks and random choices. Each gives
-- what the source asserts something of.
use live_tests.Base.{
  ℕ, suc, ◌≡◌, refl, List, [], ◌∷◌, ◌++◌, map, some, Option, Outcome, ok, ◌>>=◌, index, ltb,
  ==_refl, if◌then◌else◌,
}
use live_tests.Exchange.{
  PeerId, Cid, Block, BlockExchange, default, add_want, remove_want, remove_wants, add_block,
  get_block, iter_who_want_block,
}
use live_tests.Exchange.Ops.{
  Call, adds_want, removes_want, removes_wants, adds_block, apply_all, ReturnsValid,
  apply_all-default,
}

unfoldable pub empty_remove : PeerId → Block → Outcome BlockExchange
unfolding add_want remove_wants remove_want
empty_remove peer block = do
  exchange ← remove_wants (add_want default peer block.cid) block.cid
  remove_want exchange peer block.cid

unfoldable pub block_roundtrip : Block → Outcome (Option Block)
unfolding add_block get_block
block_roundtrip block_one = do
  (exchange, _) ← add_block default block_one
  ok (get_block exchange block_one.cid)

unfoldable pub want_roundtrip : PeerId → Cid → Outcome (List PeerId)
unfolding add_want remove_want iter_who_want_block
want_roundtrip peer cid = do
  exchange ← remove_want (add_want default peer cid) peer cid
  iter_who_want_block exchange cid

-- Peer `i` wants the blocks from `i` on.
wants_from : ℕ → PeerId → ℕ → List Cid → BlockExchange → BlockExchange
unfolding add_want
wants_from i peer j [] exchange = exchange
wants_from i peer j (cid ∷ cids) exchange =
    wants_from i peer (suc j) cids (if ltb j i then exchange else add_want exchange peer cid)

staggered_wants : ℕ → List PeerId → List Cid → BlockExchange → BlockExchange
unfolding wants_from
staggered_wants i [] cids exchange = exchange
staggered_wants i (peer ∷ peers) cids exchange =
    staggered_wants (suc i) peers cids (wants_from i peer 0 cids exchange)

-- The three sets of peers that the test looks at.
unfoldable pub want_exchange :
    List PeerId → List Cid → Outcome (List PeerId × List PeerId × List PeerId)
unfolding staggered_wants iter_who_want_block remove_wants add_want
want_exchange peers cids = do
  let exchange = staggered_wants 0 peers cids default
  last ← index cids 4
  all ← iter_who_want_block exchange last
  first ← index cids 0
  without ← remove_wants exchange first
  none_left ← iter_who_want_block without first
  peer ← index peers 0
  one ← iter_who_want_block (add_want without peer first) first
  ok (all, none_left, one)

-- The calls of the fuzz test, where the pairs are the random choices.
abbrev pub fuzz_calls :
    List Block → List (PeerId × Cid) → List (PeerId × Cid) → List (PeerId × Cid) → List Call
fuzz_calls blocks wanted unwanted wanted_again =
    map (λ x. adds_want x.0 x.1) wanted
    ++ map (λ b. adds_block b) blocks
    ++ map (λ x. removes_want x.0 x.1) unwanted
    ++ map (λ x. adds_want x.0 x.1) wanted_again
    ++ map (λ (b : Block). removes_wants b.cid) blocks

unfoldable pub exchange_fuzz :
    List Block
    → List (PeerId × Cid)
    → List (PeerId × Cid)
    → List (PeerId × Cid)
    → Outcome BlockExchange
unfolding apply_all
exchange_fuzz blocks wanted unwanted wanted_again =
    apply_all default (fuzz_calls blocks wanted unwanted wanted_again)

-- Removing wants twice does not panic, and leaves no want.
pub empty_remove-removed :
    (peer : PeerId) (block : Block)
    → empty_remove peer block ≡ ok (record default { peers = peer ∷ []; cids = block.cid ∷ [] })
unfolding empty_remove
empty_remove-removed peer block = rw (==_refl block.cid) refl

-- A block is read back.
pub block_roundtrip-some : (block : Block) → block_roundtrip block ≡ ok (some block)
unfolding block_roundtrip
block_roundtrip-some block = rw (==_refl block.cid) refl

-- A want that was removed is not there.
pub want_roundtrip-nil : (peer : PeerId) (cid : Cid) → want_roundtrip peer cid ≡ ok []
unfolding want_roundtrip
want_roundtrip-nil peer cid = rw (==_refl peer, ==_refl cid) refl

-- Whatever the random choices, no call panics.
pub exchange_fuzz-ReturnsValid :
    (blocks : List Block) (wanted unwanted wanted_again : List (PeerId × Cid))
    → ReturnsValid (exchange_fuzz blocks wanted unwanted wanted_again)
unfolding exchange_fuzz
exchange_fuzz-ReturnsValid blocks wanted unwanted wanted_again =
    apply_all-default (fuzz_calls blocks wanted unwanted wanted_again)

-- All five peers want the last block; after the wants for the first block went nobody wants it, and
-- then only the peer that wants it again does.
five_peers :
    want_exchange (1 ∷ 2 ∷ 3 ∷ 4 ∷ 5 ∷ []) (10 ∷ 11 ∷ 12 ∷ 13 ∷ 14 ∷ [])
    ≡ ok (1 ∷ 2 ∷ 3 ∷ 4 ∷ 5 ∷ [], [], 1 ∷ [])
unfolding want_exchange
five_peers = refl
