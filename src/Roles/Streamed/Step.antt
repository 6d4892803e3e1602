-- ===== src/Roles/Streamed/Step.antt =====
-- One tick of the streamer: its segment is added and announced (`generate_video` of
-- roles/streamer.rs).
use live_tests.Base.{
  ℕ, zero, suc, ◌<◌, ◌≡◌, refl, sym, ap, subst, ◌∙◌, List, [], ◌∷◌, ◌++◌, map, some, length,
  length-append, length-map, if◌then◌else◌, arith,
}
use mathlib.Core.List.{append-nil}
use live_tests.Exchange.{PeerId, Cid, Bytes, Block, get_block}
use live_tests.Client.{Topic, Sender, Command}
use live_tests.Client.Handle.{IpfsClient}
use live_tests.Service.Events.{World, publishes, replies, Reply, publish_reply}
use live_tests.Service.Stuck.{AllListen}
use live_tests.Service.Uses.{uses_effects-append}
use live_tests.Blocks.{total}
use live_tests.Params.{TestCaseParams}
use live_tests.VideoPlayer.{StreamerMessage}
use live_tests.Ipfs.{Ipfs, take, take_times, receive, answer_to, awaited, held}
use live_tests.Ipfs.Answers.{answer_to_published}
use live_tests.Ipfs.Reach.{Fresh}
use live_tests.Ipfs.Reach.Kept.{Reach-StaysFresh, take_times-Fresh}
use live_tests.Roles.Queued.{take-stored}
use live_tests.Roles.Announced.{generate_video-called, publish-answered}
use live_tests.Roles.Moves.{Reaches, generate_video-Reaches}
use live_tests.Roles.Streamed.{
  published, published-append, Ready, made, segment, calling, NextReady,
}

take_times-suc :
    (world : World) (k : ℕ) (n : Ipfs)
    → take_times world (suc k) n ≡ take world (take_times world k n)
take_times-suc world zero n = refl
take_times-suc world (suc k) n = take_times-suc world k (take world n)

module _ {R : Type 0} (fill_bytes : R → ℕ → R × List ℕ) (digest : List ℕ → Cid)
    (to_vec : StreamerMessage → Bytes) (gossipsub_topic : Topic) (p : TestCaseParams)
    (world : World) (listen : AllListen world)
    (some_bytes : 0 < total p.video_bitrate p.segment_length) (n : Ipfs) (w : List (PeerId × Cid))
    (ready : Ready n w) (rng : R) (counter timestamp : ℕ) where
  abbrev c : IpfsClient
  c = calling fill_bytes digest to_vec gossipsub_topic p world n w rng counter timestamp

  abbrev k : Sender
  k = n.client.next_channel

  abbrev blocks : List Block
  blocks = (made fill_bytes digest to_vec gossipsub_topic p rng).1

  abbrev content : Bytes
  content =
      to_vec (segment fill_bytes digest to_vec gossipsub_topic p rng counter timestamp).message

  calls-Fresh : Fresh (record n { client = c })
  calls-Fresh =
      let reached =
        generate_video-Reaches fill_bytes digest to_vec gossipsub_topic n rng counter p timestamp in
      let i = ready.idle in
      let made_so =
        generate_video-called fill_bytes digest to_vec gossipsub_topic world n w rng counter p
          timestamp some_bytes i.alive i.received in
      Reach-StaysFresh (subst (Reaches (λ g. g.client) n) made_so reached) i.fresh

  commands : length c.sent ≡ suc (length blocks)
  commands = omega (
    arith,
    length-append (map (λ b. Command.block_add b) blocks)
        (Command.publish gossipsub_topic content k ∷ []),
    length-map (λ (b : Block). Command.block_add b) blocks,
  )

  abbrev reply : Reply
  reply = publish_reply (world.publish_answer gossipsub_topic content)

  -- The answer to the announcement is the first use of its channel.
  answered_so :
      answer_to k
        ((n.service.effects ++ publishes gossipsub_topic content ∷ []) ++ replies k reply ∷ [])
      ≡ some reply
  answered_so =
      let free = ready.idle.fresh.unused k (omega arith) in
      answer_to_published k (n.service.effects ++ publishes gossipsub_topic content ∷ [])
        (world.publish_answer gossipsub_topic content)
        (omega (arith, uses_effects-append k n.service.effects (publishes gossipsub_topic content)))

  published_so :
      published
        ((n.service.effects ++ publishes gossipsub_topic content ∷ []) ++ replies k reply ∷ [])
      ≡ published n.service.effects ++ (gossipsub_topic, content) ∷ []
  published_so =
      published-append (n.service.effects ++ publishes gossipsub_topic content ∷ [])
        (replies k reply ∷ [])
      ∙ append-nil _
      ∙ published-append n.service.effects (publishes gossipsub_topic content ∷ [])

  abbrev pub settled : Ipfs
  settled = take_times world (length c.sent) (record n { client = c })

  pub settled-NextReady :
      NextReady fill_bytes digest to_vec gossipsub_topic p world n w rng counter timestamp settled
  unfolding receive
  settled-NextReady =
      let u : Ipfs = record n { client = c } in
      let last = Command.publish gossipsub_topic content k ∷ [] in
      let (after, (represents, full, finds), taken) =
        take-stored world blocks last u w refl ready.represents ready.full in
      let t : Ipfs = record {
        client = record c { sent = last };
        service = record n.service { block_exchange = after };
      } in
      let (kept, told, empty, alive, on_way, limit) =
        publish-answered fill_bytes digest to_vec gossipsub_topic world n w rng counter p timestamp
          t refl in
      let path =
        ap (λ m. take_times world m u) commands
        ∙ take_times-suc world (length blocks) u
        ∙ ap (take world) taken in
      let effects : (take world t).service.effects
          ≡ (n.service.effects ++ publishes gossipsub_topic content ∷ []) ++ replies k reply ∷ [] =
        told
        ∙ ap
            (λ b.
              (n.service.effects ++ publishes gossipsub_topic content ∷ [])
              ++ (if b then replies k reply ∷ [] else []))
            (listen k) in
      let i = ready.idle in
      subst (NextReady fill_bytes digest to_vec gossipsub_topic p world n w rng counter timestamp)
        (sym path)
        (record {
          ready = record {
            idle = record {
              fresh = subst Fresh path (take_times-Fresh world (length c.sent) u calls-Fresh);
              alive = alive ∙ i.alive;
              received = empty;
            };
            represents = rw kept represents;
            full = rw kept full;
          };
          answered = (
            reply,
            ap (λ o. awaited o (held k (take world t))) (ap (answer_to k) effects ∙ answered_so),
          );
          on_way = on_way;
          limit = limit;
          told = ap published effects ∙ published_so;
          finds = λ d. ap (λ e. get_block e d) kept ∙ finds d;
        })
