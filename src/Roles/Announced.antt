-- ===== src/Roles/Announced.antt =====
-- The service has the blocks of a segment before it announces them.
use mathlib.Core.List.{append-nil}
use live_tests.Base.{
  ℕ, suc, ◌<◌, ◌≡◌, refl, ap, sym, subst, ◌∙◌, List, [], ◌∷◌, ◌++◌, map, true, ok, length, All,
  All-mono, Bool-cases, inl, inr, add64, if◌then◌else◌,
}
use live_tests.Exchange.{PeerId, Cid, Bytes, Block, BlockExchange, get_block}
use live_tests.Exchange.Represents.{Represents}
use live_tests.Exchange.Full.{Full, first_with, Found, first_with-Found, or_else-Found}
use live_tests.Client.{Topic, Command}
use live_tests.Client.Handle
use live_tests.Client.Handle.{IpfsClient, send_command}
use live_tests.Service.{command}
use live_tests.Service.Events.{World, Effect, publishes, replies, publish_reply}
use live_tests.Blocks.{total, blocks_made}
use live_tests.Blocks.Sizes.{generate_blocks_some}
use live_tests.Params.{TestCaseParams}
use live_tests.VideoPlayer.{StreamerMessage}
use live_tests.Ipfs.{Ipfs, take, take_times}
use live_tests.Roles.Video.{Generated, generate_video}
use live_tests.Roles.Queued.{add_all-sent, Stores, take-stored}

module _ {R : Type 0} (fill_bytes : R → ℕ → R × List ℕ) (digest : List ℕ → Cid)
    (to_vec : StreamerMessage → Bytes) (gossipsub_topic : Topic) (world : World) (n : Ipfs)
    (w : List (PeerId × Cid)) (rng : R) (counter : ℕ) (p : TestCaseParams) (timestamp : ℕ) where
  abbrev pub segment_blocks : List Block
  segment_blocks =
      (blocks_made fill_bytes digest rng p.video_bitrate p.segment_length p.max_size_block).1

  abbrev pub cids_of : List Block → List Cid
  cids_of blocks = map (λ b. b.cid) blocks

  abbrev pub announced : Bytes
  announced =
      to_vec (record { count = counter; timestamp = timestamp; cids = cids_of segment_blocks })

  -- The answer to the announcement is sent if somebody waits for it.
  abbrev pub answered : List Effect
  answered =
      if world.listening n.client.next_channel
      then replies n.client.next_channel
          (publish_reply (world.publish_answer gossipsub_topic announced))
        ∷ []
      else []

  abbrev pub Announces : Type 0
  Announces =
      (g : Generated R) × (after : BlockExchange) × (generate_video fill_bytes digest to_vec
          gossipsub_topic n.client rng counter p timestamp
        ≡ ok g)
      × (g.answer ≡ n.client.next_channel)
      × (g.counter ≡ add64 counter 1)
      × Stores segment_blocks n.service.block_exchange w after
      × All (λ b. Found (get_block after b.cid)) segment_blocks
      × (let before = take_times world (length segment_blocks) (record n { client = g.client }) in
          let published = take world before in
          (before.service ≡ record n.service { block_exchange = after })
          × (published.service.block_exchange ≡ after)
          × (published.service.effects
              ≡ (n.service.effects ++ publishes gossipsub_topic announced ∷ []) ++ answered)
          × (published.client.sent ≡ []))

  -- The client after its calls.
  abbrev pub called : IpfsClient
  called = record n.client {
    next_channel = suc n.client.next_channel;
    sent =
        map (λ b. Command.block_add b) segment_blocks
        ++ Command.publish gossipsub_topic announced n.client.next_channel ∷ [];
  }

  pub generate_video-called :
      0 < total p.video_bitrate p.segment_length
      → n.client.service_alive ≡ true
      → n.client.sent ≡ []
      → generate_video fill_bytes digest to_vec gossipsub_topic n.client rng counter p timestamp
        ≡ ok (record {
          client = called;
          answer = n.client.next_channel;
          rng =
              (blocks_made fill_bytes digest rng p.video_bitrate p.segment_length
                p.max_size_block).0;
          counter = add64 counter 1;
        })
  unfolding generate_video Handle.publish
  generate_video-called some_bytes alive received =
      rw
        (
          generate_blocks_some fill_bytes digest rng p.video_bitrate p.segment_length
              p.max_size_block some_bytes,
          add_all-sent segment_blocks n.client alive,
          received,
          alive,
        )
        refl

  -- The service publishes the announcement.
  pub publish-answered :
      (t : Ipfs)
      → t.client.sent ≡ Command.publish gossipsub_topic announced n.client.next_channel ∷ []
      → ((take world t).service.block_exchange ≡ t.service.block_exchange)
        × ((take world t).service.effects
            ≡ (t.service.effects ++ publishes gossipsub_topic announced ∷ []) ++ answered)
        × ((take world t).client.sent ≡ [])
        × ((take world t).client.service_alive ≡ t.client.service_alive)
        × ((take world t).service.pending_send_block ≡ t.service.pending_send_block)
        × ((take world t).service.max_concurrent_send ≡ t.service.max_concurrent_send)
  unfolding take command
  publish-answered t queue = elim (Bool-cases (world.listening n.client.next_channel)) [
    | inl there ↦ rw (queue, there) (refl, refl, refl, refl, refl, refl)
    | inr gone ↦ rw (queue, gone) (refl, sym (append-nil _), refl, refl, refl, refl)
  ]

  -- If a segment has at least one byte, and the service is there, has received every command and its exchange has the data of every CID
  -- that it knows: the blocks of a segment are in the exchange, each found under its CID, before the
  -- service publishes the announcement of the CIDs. What was held is found as before, no want
  -- changes, and the exchange again has the data of every CID that it knows.
  pub generate_video-Announces :
      0 < total p.video_bitrate p.segment_length
      → n.client.service_alive ≡ true
      → n.client.sent ≡ []
      → Represents n.service.block_exchange w
      → Full n.service.block_exchange
      → Announces
  generate_video-Announces some_bytes alive received r full =
      let (after, stores, taken) =
        take-stored world segment_blocks
          (Command.publish gossipsub_topic announced n.client.next_channel ∷ [])
          (record n { client = called }) w refl r full in
      let (kept, told, empty, _, _, _) = publish-answered _ (ap (λ t. t.client.sent) taken) in
      (
        _,
        after,
        generate_video-called some_bytes alive received,
        refl,
        refl,
        stores,
        All-mono (λ b. Found (first_with b.cid segment_blocks)) (λ b. Found (get_block after b.cid))
            (λ b found. subst Found (sym (stores.2 b.cid)) (
              or_else-Found (get_block n.service.block_exchange b.cid)
                (first_with b.cid segment_blocks) found))
            segment_blocks (first_with-Found segment_blocks),
        (
          ap (λ t. t.service) taken,
          kept ∙ ap (λ t. t.service.block_exchange) taken,
          told
              ∙ ap
                  (λ t. (t.service.effects ++ publishes gossipsub_topic announced ∷ []) ++ answered)
                  taken,
          empty,
        ),
      )
