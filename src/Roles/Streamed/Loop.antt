-- ===== src/Roles/Streamed/Loop.antt =====
-- The loop of the streamer over the ticks of its interval (roles/streamer.rs).
use live_tests.Base.{
  ℕ, ◌<◌, ◌≡◌, refl, sym, ap, subst, ◌∙◌, List, [], ◌∷◌, ◌++◌, map, length, All, All-mono, add64,
}
use mathlib.Core.List.{append_assoc, append-nil}
use live_tests.Exchange.{PeerId, Cid, Bytes, Block, get_block}
use live_tests.Exchange.Full.{or_else, first_with, Found, first_with-Found, or_else-Found}
use live_tests.Client.{Topic}
use live_tests.Service.Events.{World}
use live_tests.Service.Stuck.{AllListen}
use live_tests.Blocks.{total}
use live_tests.Params.{TestCaseParams}
use live_tests.VideoPlayer.{StreamerMessage}
use live_tests.Ipfs.{Ipfs, take_times}
use live_tests.Roles.Talk.{Environment, Node, done}
use live_tests.Roles.Announced.{generate_video-called}
use live_tests.Roles.Streamer.{Turn, sleep, tick, stream_video}
use live_tests.Roles.Streamed.{published, Segment, Ready, made, segment, video, announcement}
use live_tests.Roles.Streamed.Step.{settled, settled-NextReady}

-- The ticks, and then the end of the simulation.
abbrev pub ticks : List ℕ → List Turn
ticks timestamps = map (λ t. tick t) timestamps ++ sleep ∷ []

-- The blocks of a segment are found.
abbrev pub Held : Ipfs → Segment → Type 0
Held n s = All (λ b. Found (get_block n.service.block_exchange b.cid)) s.blocks

module _ {R : Type 0} (fill_bytes : R → ℕ → R × List ℕ) (digest : List ℕ → Cid)
    (to_vec : StreamerMessage → Bytes) (gossipsub_topic : Topic) (p : TestCaseParams)
    (env : Environment) (world : World) where
  abbrev pub Streams : List (PeerId × Cid) → R → ℕ → List ℕ → Node → Type 0
  Streams w rng counter timestamps n =
      let segments = video fill_bytes digest to_vec gossipsub_topic p rng counter timestamps in
      (m : Node) × (stream_video fill_bytes digest to_vec gossipsub_topic env p rng counter
          (ticks timestamps) n
        ≡ done tt m)
      × (m.requests ≡ n.requests)
      × (published m.ipfs.service.effects
          ≡ published n.ipfs.service.effects
            ++ map (announcement fill_bytes digest to_vec gossipsub_topic p) segments)
      × (m.ipfs.service.pending_send_block ≡ n.ipfs.service.pending_send_block)
      × (m.ipfs.service.max_concurrent_send ≡ n.ipfs.service.max_concurrent_send)
      × Ready m.ipfs w
      × ((c : Cid)
          → Found (get_block n.ipfs.service.block_exchange c)
          → Found (get_block m.ipfs.service.block_exchange c))
      × All (Held m.ipfs) segments

  module _ (listen : AllListen world)
      (takes : (t : Ipfs) → env.meanwhile t ≡ take_times world (length t.client.sent) t)
      (some_bytes : 0 < total p.video_bitrate p.segment_length) (w : List (PeerId × Cid)) where
    -- One tick more.
    ticked :
        (rng : R) (counter timestamp : ℕ) (turns : List Turn) (n : Node) (ready : Ready n.ipfs w)
        → stream_video fill_bytes digest to_vec gossipsub_topic env p rng counter
            (tick timestamp ∷ turns)
            n
          ≡ stream_video fill_bytes digest to_vec gossipsub_topic env p
              (made fill_bytes digest to_vec gossipsub_topic p rng).0
              (add64 counter 1)
              turns
              (record n {
                ipfs =
                    settled fill_bytes digest to_vec gossipsub_topic p world listen some_bytes
                      n.ipfs w ready rng counter timestamp;
              })
    unfolding stream_video
    ticked rng counter timestamp turns n ready =
        let i = ready.idle in
        let next =
          settled-NextReady fill_bytes digest to_vec gossipsub_topic p world listen some_bytes
            n.ipfs w ready rng counter timestamp in
        let (r, answered) = next.answered in
        rw
          (
            generate_video-called fill_bytes digest to_vec gossipsub_topic world n.ipfs w rng
                counter p timestamp some_bytes i.alive i.received,
            takes _,
            answered,
          )
          refl

    -- If a segment has at least one byte, and the service goes on to receive the commands while the streamer waits for an answer, has the
    -- data of every CID that it knows, and the clients listen: the streamer publishes one
    -- announcement for each tick and no other, in order, numbered on from `counter` (modulo 2^64) and
    -- with the time of the tick; when the simulation ends its loop is done, the service finds a block
    -- for every CID that was announced, and also for every one that it found before. The wants, the
    -- blocks on their way and their limit stay as they were.
    pub stream_video-Streams :
        (rng : R) (counter : ℕ) (timestamps : List ℕ) (n : Node)
        → Ready n.ipfs w
        → Streams w rng counter timestamps n
    unfolding stream_video
    stream_video-Streams rng counter [] n ready =
        (n, refl, refl, sym (append-nil _), refl, refl, ready, λ c found. found, tt)
    stream_video-Streams rng counter (timestamp ∷ timestamps) n ready =
        let (rng', blocks) = made fill_bytes digest to_vec gossipsub_topic p rng in
        let announce = announcement fill_bytes digest to_vec gossipsub_topic p in
        let now = segment fill_bytes digest to_vec gossipsub_topic p rng counter timestamp in
        let later =
          map announce
            (video fill_bytes digest to_vec gossipsub_topic p rng' (add64 counter 1) timestamps) in
        let next =
          settled-NextReady fill_bytes digest to_vec gossipsub_topic p world listen some_bytes
            n.ipfs w ready rng counter timestamp in
        let n' : Node = record n {
          ipfs =
              settled fill_bytes digest to_vec gossipsub_topic p world listen some_bytes n.ipfs w
                ready rng counter timestamp;
        } in
        let (m, returns, requests, told, on_way, limit, ready', keeps, held) =
          stream_video-Streams rng' (add64 counter 1) timestamps n' next.ready in
        (
          m,
          ticked rng counter timestamp (ticks timestamps) n ready ∙ returns,
          requests,
          told
              ∙ ap (λ l. l ++ later) next.told
              ∙ append_assoc (published n.ipfs.service.effects) (announce now ∷ []) later,
          on_way ∙ next.on_way,
          limit ∙ next.limit,
          ready',
          λ c (b, e). keeps c (b, next.finds c ∙ ap (λ o. or_else o (first_with c blocks)) e),
          (
            All-mono (λ (b : Block). Found (first_with b.cid blocks)) _
                (λ b found.
                  keeps b.cid (subst Found (sym (next.finds b.cid)) (or_else-Found _ _ found)))
                blocks (first_with-Found blocks),
            held,
          ),
        )
