-- ===== src/Roles/Streamed/Tests.antt =====
-- A streamer that makes two segments of three bytes.
use live_tests.Base.{
  ℕ, zero, suc, ◌+◌, refl, List, [], ◌∷◌, length, true, false, ◌≡◌, Outcome, ok, panic, position,
  mul64, arith,
}
use live_tests.Exchange.Represents.{default-Represents}
use live_tests.Client.Handle
use live_tests.Service
use live_tests.Service.Events.{World, accepted, refused, received_cancel}
use live_tests.Params.{TestCaseParams}
use live_tests.Ipfs.{compose_network, take, take_times, receive}
use live_tests.Ipfs.Reach.{here}
use live_tests.Ipfs.Reach.Kept.{Reach-Fresh}
use live_tests.Roles.Talk.{Environment, Node, End, done}
use live_tests.Exchange.{add_block, add_want, remove_want, iter_wanted_blocks, get_block}
use live_tests.Blocks.{blocks_from, size_at, generate_blocks}
use live_tests.VideoPlayer.{StreamerMessage}
use live_tests.Service.{Service, command}
use live_tests.Service.Run.{run, event}
use live_tests.Service.Bitswap.{bitswap}
use live_tests.Service.Table.{contains, discard}
use live_tests.Service.Drain.{cancels, none_yet, one_more}
use live_tests.Service.Filled.Emptied.{wants_of, CancelsAfter, after}
use live_tests.Ipfs.Delivered.{Delivers}
use live_tests.Roles.Streamer.{stream_video}
use live_tests.Roles.Streamed.Fetched.{stream, segment-Delivers}
use live_tests.Roles.Streamed.{Ready, Segment, segment}
use live_tests.Ipfs.Calls.{Idle}
use live_tests.Roles.Streamed.Loop.{Streams, stream_video-Streams}

abbrev world : World
world = record {
  publish_answer = λ _ _. accepted 0;
  subscribe_answer = λ _. accepted true;
  bootstrap_answer = refused 1;
  listen_answer = λ _. accepted 4;
  topic_hash = λ t. t;
  listening = λ _. true;
}

abbrev env : Environment
env = record { accepts = λ _. true; meanwhile = λ t. take_times world (length t.client.sent) t }

abbrev small : TestCaseParams
small = record {
  log = false;
  log_id = 1;
  max_concurrent_send = 4;
  max_size_block = false;
  segment_length = 1;
  sim_time = 1;
  video_bitrate = 24;
  network_bandwidth = 100;
}

-- A generator of zeros, and the length as the hash.
abbrev zeros : ℕ → List ℕ
zeros zero = []
zeros (suc n) = 0 ∷ zeros n

abbrev fill_bytes : ℕ → ℕ → ℕ × List ℕ
fill_bytes rng n = (rng + n, zeros n)

abbrev digest : List ℕ → ℕ
digest [] = 0
digest (b ∷ bytes) = digest bytes + 1

abbrev start : Node
start = record { ipfs = compose_network 2; requests = [] }

start-Ready : Ready start.ipfs []
unfolding compose_network Handle.new Service.new
start-Ready = record {
  idle = record { fresh = Reach-Fresh 2 start.ipfs here; alive = refl; received = refl };
  represents = default-Represents;
  full = refl;
}

stream_video-Streams_example :
    Streams fill_bytes digest (λ msg. msg.count ∷ []) 5 small env world [] 11 1 (50 ∷ 51 ∷ []) start
unfolding mul64
stream_video-Streams_example =
    stream_video-Streams fill_bytes digest (λ msg. msg.count ∷ []) 5 small env world (λ k. refl)
      (λ t. refl) (omega arith) [] 11 1 (50 ∷ 51 ∷ []) start start-Ready

-- One segment, which viewer 2 fetches from node 1.
abbrev node_of : End (Unit {0}) → Node
node_of (done a n) = n
node_of _ = start

abbrev service_of : Outcome Service → Service
service_of (ok s) = s
service_of (panic e) = start.ipfs.service

abbrev to_vec : StreamerMessage → List ℕ
to_vec msg = msg.count ∷ []

abbrev ended : End (Unit {0})
ended =
    stream fill_bytes digest to_vec 5 small env world world (λ k. refl) (λ t. refl) 11 1 (50 ∷ [])
      start

abbrev wanting : Outcome Service
wanting = run (node_of ended).ipfs.service (wants_of world 0 ((2, 3) ∷ []))

abbrev served : Outcome Service
served = bitswap world (service_of wanting) (received_cancel 2 3)

ended-done : ended ≡ done tt (node_of ended)
unfolding stream_video compose_network Handle.new receive take command Service.new blocks_from
    size_at mul64 add_block
ended-done = refl

served-After : CancelsAfter world wanting 1 (service_of served)
unfolding stream_video compose_network Handle.new receive take command Service.new blocks_from
    size_at mul64 add_block run event bitswap contains discard add_want remove_want
    iter_wanted_blocks get_block position
served-After = after (service_of wanting) refl (one_more none_yet (cancels 2 3 refl refl))

abbrev only : Segment
only = segment fill_bytes digest to_vec 5 small 11 1 50

viewer-Idle : Idle (compose_network 2)
unfolding compose_network Handle.new
viewer-Idle = record {
  fresh = Reach-Fresh 2 (compose_network 2) here;
  alive = refl;
  received = refl;
}

segment-Delivers_example :
    Delivers world world 1 2 only.message.cids 1 50 (compose_network 2) (service_of served)
unfolding compose_network Service.new blocks_from size_at mul64 generate_blocks
segment-Delivers_example =
    segment-Delivers fill_bytes digest to_vec 5 small env world world (λ k. refl) (λ t. refl) 11 1
      (50 ∷ []) start (node_of ended) [] [] only (compose_network 2) 1 2 0 1 (service_of served)
      start-Ready refl (omega arith) ended-done refl served-After (λ k. refl) viewer-Idle
      ([], default-Represents)
