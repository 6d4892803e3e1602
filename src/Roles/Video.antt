-- ===== src/Roles/Video.antt =====
-- A segment of the video (`generate_video` of roles/streamer.rs), up to the wait for the answer to
-- the announcement. The random generator, the hash and the encoding of an announcement are
-- libraries'.
use live_tests.Base.{ℕ, List, [], ◌∷◌, map, Outcome, ok, ◌>>=◌, add64}
use live_tests.Exchange.{Cid, Bytes, Block}
use live_tests.Client.{Topic, Sender}
use live_tests.Client.Handle
use live_tests.Client.Handle.{IpfsClient}
use live_tests.Blocks.{generate_blocks}
use live_tests.Params.{TestCaseParams}
use live_tests.VideoPlayer.{StreamerMessage}

-- `join_all` polls the calls of `add_block` in their order, and none of them waits.
unfoldable pub add_all : List Block → IpfsClient → Outcome IpfsClient
unfolding Handle.add_block
add_all [] c = ok c
add_all (block ∷ blocks) c = do c' ← Handle.add_block block c; add_all blocks c'

-- What `generate_video` leaves: the client, the channel of the answer that it waits for, the
-- generator and the counter.
pub record Generated (R : Type 0) : Type 0 where
  pub client : IpfsClient
  pub answer : Sender
  pub rng : R
  pub counter : ℕ

module _ {R : Type 0} (fill_bytes : R → ℕ → R × List ℕ) (digest : List ℕ → Cid)
    (to_vec : StreamerMessage → Bytes) (gossipsub_topic : Topic) where
  unfoldable pub generate_video : IpfsClient → R → ℕ → TestCaseParams → ℕ → Outcome (Generated R)
  unfolding generate_blocks add_all Handle.publish add64
  generate_video ipfs rng counter test_case_params timestamp = do
    made ←
        generate_blocks fill_bytes digest rng test_case_params.video_bitrate
          test_case_params.segment_length test_case_params.max_size_block
    let msg : StreamerMessage = record {
      count = counter;
      timestamp = timestamp;
      cids = map (λ (b : Block). b.cid) made.1;
    }
    added ← add_all made.1 ipfs
    (ipfs', answer) ← Handle.publish gossipsub_topic (to_vec msg) added
    ok (record { client = ipfs'; answer = answer; rng = made.0; counter = add64 counter 1 })
