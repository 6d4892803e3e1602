-- ===== src/Ipfs/Delivered.antt =====
-- From one node to another: a node that holds the blocks of a segment, and a node whose player
-- fetches them (bitswap of ipfs/background.rs on both sides, `play` of video_player.rs). What
-- libp2p carries between them is a list of events.
use live_tests.Base.{
  ℕ, ◌<◌, ◌≡◌, ◌⊎◌, inl, inr, refl, sym, ap, ◌∙◌, List, [], ◌∷◌, ◌++◌, map, true, some, ok, All,
  length, ◌==◌, ==_refl, if◌then◌else◌, Bool-cases, arith,
}
use live_tests.Exchange.{PeerId, Cid, Block, BlockExchange, get_block}
use live_tests.Exchange.Represents.{Represents}
use live_tests.Exchange.Full.{Found}
use live_tests.Exchange.Ops.{IsValid}
use live_tests.Exchange.Iterate.{held_wants}
use live_tests.Exchange.Lookup.{get_block-cid}
use live_tests.Client.{Sender}
use live_tests.Client.Handle.{IpfsClient}
use live_tests.Service.{Service}
use live_tests.Service.Run.{run}
use live_tests.Service.Events.{World, Effect, sends_block}
use live_tests.Service.Stuck.{AllListen}
use live_tests.Service.Drain.{Cancel, Sent}
use live_tests.Service.Filled.Emptied.{wants_of, CancelsAfter, CancelsAfter-Empties}
use live_tests.Ipfs.{Ipfs, take_times}
use live_tests.Ipfs.Calls.{Idle, with_client}
use live_tests.Ipfs.Fetch.{request_all, fetch, brought, arrived, all_arrived}
use live_tests.Ipfs.Fetch.Done.{fetch-all_arrived}

-- The blocks that were sent to a peer, in order.
abbrev pub sent_to : PeerId → List Effect → List Block
sent_to peer_id [] = []
sent_to peer_id (sends_block other b ∷ effects) =
    let rest = sent_to peer_id effects in if other == peer_id then b ∷ rest else rest
sent_to peer_id (_ ∷ effects) = sent_to peer_id effects

-- Each with the peer that sends it.
abbrev pub coming : PeerId → List Block → List (PeerId × Block)
coming from_peer blocks = map (λ b. (from_peer, b)) blocks

-- The wants of one peer.
abbrev pub wants_by : PeerId → List Cid → List (PeerId × Cid)
wants_by peer_id cids = map (λ c. (peer_id, c)) cids

module _ (from_peer to_peer : PeerId) where
  arrived-sends_block :
      (b : Block) (before after : List Effect)
      → arrived b.cid (coming from_peer (sent_to to_peer (before ++ sends_block to_peer b ∷ after)))
        ≡ true
  arrived-sends_block b [] after = rw (==_refl to_peer, ==_refl b.cid) refl
  arrived-sends_block b (sends_block other d ∷ before) after =
      elim (Bool-cases (other == to_peer)) [
        | inl same ↦ rw same (ground (arith, arrived-sends_block b before after))
        | inr apart ↦ rw apart (arrived-sends_block b before after)
      ]
  arrived-sends_block b (_ ∷ before) after = arrived-sends_block b before after

  Sent-arrived :
      (b : Block) (effects : List Effect)
      → Sent (to_peer, b) effects
      → arrived b.cid (coming from_peer (sent_to to_peer effects)) ≡ true
  Sent-arrived b effects (before, after, e) =
      ap (λ l. arrived b.cid (coming from_peer (sent_to to_peer l))) e
      ∙ arrived-sends_block b before after

  -- All that was wanted comes.
  all_arrived-held_wants :
      (e : BlockExchange) (effects : List Effect) (cids : List Cid)
      → All (λ c. Found (get_block e c)) cids
      → All (λ x. Sent x effects) (held_wants e (wants_by to_peer cids))
      → all_arrived cids (coming from_peer (sent_to to_peer effects)) ≡ true
  all_arrived-held_wants e effects [] found sent = refl
  all_arrived-held_wants e effects (c ∷ cids) ((b, hit), found) sent =
      let (here, rest) : Sent (to_peer, b) effects
          × All (λ x. Sent x effects) (held_wants e (wants_by to_peer cids)) =
        rw hit at sent in
      let first =
        ap (λ d. arrived d (coming from_peer (sent_to to_peer effects)))
          (sym (get_block-cid e c b hit))
        ∙ Sent-arrived b effects here in
      rw (first, all_arrived-held_wants e effects cids found rest) refl

-- The task has sent its commands; and either the peer can cancel another want, or the task has
-- reported the segment.
abbrev pub Delivers : World → World → PeerId → PeerId → List Cid → ℕ → ℕ → Ipfs → Service → Type 0
Delivers world near from_peer to_peer cids count timestamp n u =
    (c : IpfsClient) × (ks : List Sender) × (request_all cids n.client ≡ ok (c, ks))
    × (((v : Service) × Cancel world u v)
        ⊎ (fetch count timestamp ks (
              brought near (coming from_peer (sent_to to_peer u.effects))
                (take_times near (length cids) (with_client n c)))
            ≡ some (ok (count, timestamp))))

-- A peer holds all the blocks of a segment; nobody wanted anything of it, it has nothing on its way,
-- and it may send at least one block at a time. Another node's task gets the blocks. If its wants
-- reach the peer, are cancelled as the blocks come, and all that the peer has sent comes: then the
-- task sends its commands without a panic; as long as something is on its way another cancel can
-- follow, and when nothing is, the task has reported the segment to its player. (The other node's
-- service had received all commands before, its exchange is valid, and whoever waits for a block
-- there listens.)
pub fetch-Delivers :
    (world near : World) (s : Service) (n : Ipfs) (from_peer to_peer : PeerId) (cids : List Cid)
    (priority count timestamp m : ℕ) (u : Service)
    → Represents s.block_exchange []
    → s.pending_send_block ≡ []
    → 0 < s.max_concurrent_send
    → All (λ c. Found (get_block s.block_exchange c)) cids
    → CancelsAfter world (run s (wants_of world priority (wants_by to_peer cids))) m u
    → AllListen near
    → Idle n
    → IsValid n.service.block_exchange
    → Delivers world near from_peer to_peer cids count timestamp n u
fetch-Delivers world near s n from_peer to_peer cids priority count timestamp m u r nothing room
      found chain listen idle valid =
    let coming_blocks = coming from_peer (sent_to to_peer u.effects) in
    let (c, ks, asked, fetched) =
      fetch-all_arrived near cids coming_blocks count timestamp n listen idle valid in
    let (_, _, outcome) =
      CancelsAfter-Empties world s priority (wants_by to_peer cids) m u r nothing room chain in
    (
      c,
      ks,
      asked,
      elim outcome [
        | inl another ↦ inl another
        | inr (_, sent) ↦
            let all =
              all_arrived-held_wants from_peer to_peer s.block_exchange u.effects cids found sent in
            inr (fetched ∙ rw all refl)
      ],
    )
