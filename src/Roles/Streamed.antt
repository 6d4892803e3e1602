-- ===== src/Roles/Streamed.antt =====
-- The segments that the streamer makes, one after the other (`generate_video` and the loop of
-- roles/streamer.rs), and one of them with its announcement.
pub mod Step
pub mod Loop
pub mod Fetched
mod Tests
use live_tests.Base.{
  ℕ, zero, suc, ◌+◌, ◌≡◌, refl, sym, ap, subst, ◌∙◌, List, [], ◌∷◌, ◌++◌, map, true, none, some, ok,
  length, length-append, length-map, All, add64, if◌then◌else◌, ==_refl, arith,
}
use mathlib.Core.List.{append_assoc, append-nil}
use live_tests.Exchange.{PeerId, Cid, Bytes, Block, get_block}
use live_tests.Exchange.Represents.{Represents}
use live_tests.Exchange.Full.{Full, or_else, first_with}
use live_tests.Client.{Topic, Sender, Command}
use live_tests.Client.Handle.{IpfsClient}
use live_tests.Service.Events.{World, Effect, publishes, replies, Reply, publish_reply}
use live_tests.Service.Stuck.{AllListen}
use live_tests.Service.Uses.{uses_effects, uses_effects-append}
use live_tests.Blocks.{blocks_made}
use live_tests.Params.{TestCaseParams}
use live_tests.VideoPlayer.{StreamerMessage}
use live_tests.Ipfs.{Ipfs, take, take_times, receive, answer_to}
use live_tests.Ipfs.Answers.{answer_to-append}
use live_tests.Ipfs.Reach.{Fresh, here}
use live_tests.Ipfs.Reach.Kept.{Reach-StaysFresh, take_times-Fresh}
use live_tests.Ipfs.Calls.{Idle}
use live_tests.Roles.Talk.{Environment}
use live_tests.Roles.Video.{Generated, generate_video}
use live_tests.Roles.Queued.{Stores, take-stored}
use live_tests.Roles.Announced
use live_tests.Roles.Announced.{generate_video-called, publish-answered}
use live_tests.Roles.Moves.{Reaches, generate_video-Reaches}

-- What was published, in order.
abbrev pub published : List Effect → List (Topic × Bytes)
published [] = []
published (publishes topic content ∷ effects) = (topic, content) ∷ published effects
published (_ ∷ effects) = published effects

pub published-append :
    (before after : List Effect) → published (before ++ after) ≡ published before ++ published after
published-append [] after = refl
published-append (publishes topic content ∷ before) after =
    ap (◌∷◌ (topic, content)) (published-append before after)
published-append (_ ∷ before) after = published-append before after

pub record Segment : Type 0 where
  pub message : StreamerMessage
  pub blocks : List Block

-- A service with its client, between two segments.
pub record Ready (n : Ipfs) (w : List (PeerId × Cid)) : Type 0 where
  pub idle : Idle n
  pub represents : Represents n.service.block_exchange w
  pub full : Full n.service.block_exchange

module _ {R : Type 0} (fill_bytes : R → ℕ → R × List ℕ) (digest : List ℕ → Cid)
    (to_vec : StreamerMessage → Bytes) (gossipsub_topic : Topic) (p : TestCaseParams) where
  abbrev pub made : R → R × List Block
  made rng = blocks_made fill_bytes digest rng p.video_bitrate p.segment_length p.max_size_block

  abbrev pub segment : R → ℕ → ℕ → Segment
  segment rng counter timestamp = record {
    message = record {
      count = counter;
      timestamp = timestamp;
      cids = map (λ (b : Block). b.cid) (made rng).1;
    };
    blocks = (made rng).1;
  }

  -- The segments at the times of some ticks, numbered from `counter`.
  abbrev pub video : R → ℕ → List ℕ → List Segment
  video rng counter [] = []
  video rng counter (timestamp ∷ timestamps) =
      segment rng counter timestamp ∷ video (made rng).0 (add64 counter 1) timestamps

  abbrev pub announcement : Segment → Topic × Bytes
  announcement s = (gossipsub_topic, to_vec s.message)

  module _ (world : World) (n : Ipfs) (w : List (PeerId × Cid)) (rng : R)
      (counter timestamp : ℕ) where
    abbrev pub calling : IpfsClient
    calling =
        Announced.called fill_bytes digest to_vec gossipsub_topic world n w rng counter p timestamp

    pub record NextReady (m : Ipfs) : Type 0 where
      pub ready : Ready m w
      pub answered : (r : Reply) × (receive n.client.next_channel m ≡ some (ok r))
      pub on_way : m.service.pending_send_block ≡ n.service.pending_send_block
      pub limit : m.service.max_concurrent_send ≡ n.service.max_concurrent_send
      pub told :
          published m.service.effects
          ≡ published n.service.effects ++ announcement (segment rng counter timestamp) ∷ []
      pub finds :
          (c : Cid)
          → get_block m.service.block_exchange c
            ≡ or_else (get_block n.service.block_exchange c) (first_with c (made rng).1)
