-- ===== src/Roles/Streamed/Fetched.antt =====
-- From the streamer to a viewer: an announced segment, and the task that fetches it
-- (roles/streamer.rs, `play` of video_player.rs, and the services of both nodes).
use live_tests.Base.{
  ℕ, ◌<◌, ◌≡◌, refl, sym, subst, ◌∙◌, List, [], ◌∷◌, ◌++◌, map, All, All-map, add64, length, inl,
  inr, Bool-cases, ltb, ltb→lt, ltb→le, arith,
}
use live_tests.Exchange.{PeerId, Cid, Bytes, Block, get_block}
use live_tests.Exchange.Full.{Found}
use live_tests.Exchange.Ops.{IsValid}
use live_tests.Client.{Topic}
use live_tests.Service.{Service}
use live_tests.Service.Events.{World}
use live_tests.Service.Run.{run}
use live_tests.Service.Stuck.{AllListen}
use live_tests.Service.Filled.Emptied.{wants_of, CancelsAfter}
use live_tests.Blocks.{total}
use live_tests.Blocks.Sizes.{generate_blocks_none}
use live_tests.Roles.Video.{generate_video}
use live_tests.Params.{TestCaseParams}
use live_tests.VideoPlayer.{StreamerMessage}
use live_tests.Ipfs.{Ipfs, take_times}
use live_tests.Ipfs.Calls.{Idle}
use live_tests.Ipfs.Delivered.{wants_by, Delivers, fetch-Delivers}
use live_tests.Roles.Talk.{Environment, Node, End, done}
use live_tests.Roles.Streamer.{stream_video}
use live_tests.Roles.Streamed.{Segment, Ready, made, video}
use live_tests.Roles.Streamed.Loop.{ticks, Held, stream_video-Streams}

-- A member of a list.
All-middle :
    (P : Segment → Type 0) (before : List Segment) (s : Segment) (after : List Segment)
    → All P (before ++ s ∷ after)
    → P s
All-middle P [] s after h = h.0
All-middle P (x ∷ before) s after h = All-middle P before s after h.1

module _ {R : Type 0} (fill_bytes : R → ℕ → R × List ℕ) (digest : List ℕ → Cid)
    (to_vec : StreamerMessage → Bytes) (gossipsub_topic : Topic) (p : TestCaseParams)
    (env : Environment) (world near : World) (listen : AllListen world)
    (takes : (t : Ipfs) → env.meanwhile t ≡ take_times world (length t.client.sent) t) where
  abbrev pub stream : R → ℕ → List ℕ → Node → End (Unit {0})
  stream rng counter timestamps =
      stream_video fill_bytes digest to_vec gossipsub_topic env p rng counter (ticks timestamps)

  abbrev pub segments : R → ℕ → List ℕ → List Segment
  segments rng counter timestamps =
      video fill_bytes digest to_vec gossipsub_topic p rng counter timestamps

  -- A segment announces the CIDs of its blocks.
  video-cids :
      (rng : R) (counter : ℕ) (timestamps : List ℕ)
      → All (λ s. s.message.cids ≡ map (λ b. b.cid) s.blocks) (segments rng counter timestamps)
  video-cids rng counter [] = tt
  video-cids rng counter (timestamp ∷ timestamps) = (
    refl,
    video-cids (made fill_bytes digest to_vec gossipsub_topic p rng).0 (add64 counter 1) timestamps,
  )

  -- A streamer that is done with a segment had a byte to make it of.
  done_some :
      (rng : R) (counter : ℕ) (timestamps : List ℕ) (start end : Node) (before after : List Segment)
      (s : Segment)
      → stream rng counter timestamps start ≡ done tt end
      → segments rng counter timestamps ≡ before ++ s ∷ after
      → 0 < total p.video_bitrate p.segment_length
  unfolding stream_video generate_video
  done_some rng counter [] start end [] after s returns member = cc
  done_some rng counter [] start end (x ∷ before) after s returns member = cc
  done_some rng counter (timestamp ∷ timestamps) start end before after s returns member =
      elim (Bool-cases (ltb 0 (total p.video_bitrate p.segment_length))) [
        | inl some_bytes ↦ ltb→lt 0 _ some_bytes
        | inr none_left ↦
            let empty = ltb→le 0 _ none_left in
            let ended =
              generate_blocks_none fill_bytes digest rng p.video_bitrate p.segment_length
                p.max_size_block (omega arith) in
            let panicked = rw ended at returns in absurd (cc)
      ]

  -- The streamer starts with a service that has the data of every CID that it knows, of which nobody
  -- wants anything, with nothing on its way and room for a block; the service receives its commands
  -- while it waits for an answer, and its clients listen. When its loop is done, a viewer's task gets
  -- the CIDs of an announcement. If its wants reach the streamer, are cancelled as the blocks come,
  -- and all that is sent comes: then as long as something is on its way another cancel can follow,
  -- and when nothing is, the task has reported the segment with the number and the time that were
  -- announced. (The viewer's service had received all commands before, its exchange is valid, and
  -- whoever waits for a block there listens.)
  pub segment-Delivers :
      (rng : R) (counter : ℕ) (timestamps : List ℕ) (start end : Node) (before after : List Segment)
      (s : Segment) (viewer : Ipfs) (from_peer to_peer : PeerId) (priority k : ℕ) (u : Service)
      → Ready start.ipfs []
      → start.ipfs.service.pending_send_block ≡ []
      → 0 < start.ipfs.service.max_concurrent_send
      → stream rng counter timestamps start ≡ done tt end
      → segments rng counter timestamps ≡ before ++ s ∷ after
      → CancelsAfter world
          (run end.ipfs.service (wants_of world priority (wants_by to_peer s.message.cids)))
          k
          u
      → AllListen near
      → Idle viewer
      → IsValid viewer.service.block_exchange
      → Delivers world near from_peer to_peer s.message.cids s.message.count s.message.timestamp
          viewer u
  segment-Delivers rng counter timestamps start end before after s viewer from_peer to_peer priority
        k u ready nothing room returns member chain near_listen idle valid =
      let (m, returns', _, _, on_way, limit, ready', _, held) =
        stream_video-Streams fill_bytes digest to_vec gossipsub_topic p env world listen takes
          (done_some rng counter timestamps start end before after s returns member) [] rng counter
          timestamps start ready in
      let same : m ≡ end = cc in
      let blocks = All-middle (Held end.ipfs) before s after (
        subst (λ n. All (Held n.ipfs) (before ++ s ∷ after)) same
          (subst (All (Held m.ipfs)) member held)) in
      let cids =
        All-middle (λ x. x.message.cids ≡ map (λ b. b.cid) x.blocks) before s after
          (subst (All (λ x. x.message.cids ≡ map (λ b. b.cid) x.blocks)) member
            (video-cids rng counter timestamps)) in
      let found =
        subst (All (λ c. Found (get_block end.ipfs.service.block_exchange c))) (sym cids) (
          All-map (λ c. Found (get_block end.ipfs.service.block_exchange c)) (λ (b : Block). b.cid)
            s.blocks blocks) in
      let clean = subst (λ n. Ready n.ipfs []) same ready' in
      let none_on_way =
        subst (λ n. n.ipfs.service.pending_send_block ≡ []) same (on_way ∙ nothing) in
      let some_room =
        subst (λ n. 0 < n.ipfs.service.max_concurrent_send) same (subst (◌<◌ 0) (sym limit) room) in
      fetch-Delivers world near end.ipfs.service viewer from_peer to_peer s.message.cids priority
        s.message.count s.message.timestamp k u clean.represents none_on_way some_room found chain
        near_listen idle valid
