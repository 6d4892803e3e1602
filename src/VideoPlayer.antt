-- ===== src/VideoPlayer.antt =====
-- The viewer's video player: announced segments, a buffer of fetched ones, and playing
-- (plans/streaming_test/src/video_player.rs). Times are given by the caller, in milliseconds;
-- `u64` arithmetic wraps, as in the release build that the Dockerfile makes.
pub mod Buffer
pub mod Skip
pub mod Advance
pub mod Early
pub mod Stall
pub mod Run
pub mod Kept
mod Tests
use live_tests.Base.{
  ℕ, suc, ◌+◌, ◌-◌, ◌*◌, ◌/◌, List, [], ◌∷◌, ◌++◌, Bool, true, false, not, Option, none, some,
  Outcome, ok, panic, unwrapped, ◌>>=◌, length, retain, pop_front, ltb, leb, ◌==◌, if◌then◌else◌,
  add64, sub64, mul64,
}
use live_tests.Parallel.{sort}
use live_tests.Exchange.{Cid}

pub record StreamerMessage : Type 0 where
  pub count : ℕ
  pub timestamp : ℕ
  pub cids : List Cid

-- The handles of the client, of the test runner and of the channel back are left out; what is
-- sent over them is returned.
pub record VideoStream : Type 0 where
  pub segment_length : ℕ
  pub last_gossip_time : ℕ
  pub gossips : List StreamerMessage
  pub fetching : List ℕ
  pub last_segment_time : ℕ
  pub timestamps : List ℕ
  pub segments : List ℕ
  pub current_segment : ℕ
  pub stopped : ℕ
  pub buffering : ℕ
  pub buffer_size : ℕ

unfoldable pub new : ℕ → VideoStream
new segment_length = record {
  segment_length = segment_length;
  last_gossip_time = 0;
  gossips = [];
  fetching = [];
  last_segment_time = 0;
  timestamps = [];
  segments = [];
  current_segment = 0;
  stopped = 0;
  buffering = 0;
  buffer_size = 30;
}

-- A metric of the measurements `gossips` and `blocks`.
pub record Delay : Type 0 where
  pub latency : ℕ
  pub jitter : ℕ
  pub segment_number : ℕ

-- The lateness against the segment length, since the last time if there was one.
unfoldable pub jitter_since : ℕ → ℕ → ℕ → ℕ
jitter_since last_time segment_length receive_time =
    if last_time == 0 then 0 else sub64 (sub64 receive_time last_time) (mul64 segment_length 1000)

-- `none` is data that does not deserialize.
unfoldable pub add_gossip : VideoStream → ℕ → Option StreamerMessage → Outcome (VideoStream × Delay)
unfolding jitter_since
add_gossip s receive_time none = panic unwrapped
add_gossip s receive_time (some msg) = ok (
  record s { last_gossip_time = receive_time; gossips = s.gossips ++ msg ∷ [] },
  record {
    latency = sub64 receive_time msg.timestamp;
    jitter = jitter_since s.last_gossip_time s.segment_length receive_time;
    segment_number = msg.count;
  },
)

-- `set.remove(&index)` and `set.insert(index)`
abbrev pub discard : ℕ → List ℕ → List ℕ
discard i = retain (λ k. not (k == i))

abbrev pub include : ℕ → List ℕ → List ℕ
include i set = i ∷ discard i set

unfoldable pub add_segment : VideoStream → ℕ → ℕ → ℕ → Outcome (VideoStream × Delay)
unfolding jitter_since
add_segment s receive_time segment_index timestamp = do
  (segments, timestamps) ← sort (s.segments ++ segment_index ∷ []) (s.timestamps ++ timestamp ∷ [])
  ok (
    record s {
      fetching = discard segment_index s.fetching;
      last_segment_time = receive_time;
      segments = segments;
      timestamps = timestamps;
    },
    record {
      latency = sub64 receive_time timestamp;
      jitter = jitter_since s.last_segment_time s.segment_length receive_time;
      segment_number = segment_index;
    },
  )

-- What is about to be played, what stays buffered, and how many segments were skipped.
pub record Head : Type 0 where
  pub segment_idx : ℕ
  pub timestamp : ℕ
  pub segments : List ℕ
  pub timestamps : List ℕ
  pub skipped_segments : ℕ

-- The last element of a queue that begins with `x`.
abbrev pub last_of : ℕ → List ℕ → ℕ
last_of x [] = x
last_of x (y ∷ ys) = last_of y ys

-- The loop that skips towards the middle of the buffer.
unfoldable pub skip_to : ℕ → List ℕ → List ℕ → ℕ → ℕ → ℕ → Outcome Head
skip_to half [] timestamps segment_idx timestamp skipped = ok (record {
  segment_idx = segment_idx;
  timestamp = timestamp;
  segments = [];
  timestamps = timestamps;
  skipped_segments = skipped;
})
skip_to half (x ∷ xs) timestamps segment_idx timestamp skipped =
    let next = (do (t, ts) ← pop_front timestamps; skip_to half xs ts x t (suc skipped)) in
    if ltb segment_idx (sub64 (last_of x xs) half)
    then next
    else ok (record {
      segment_idx = segment_idx;
      timestamp = timestamp;
      segments = x ∷ xs;
      timestamps = timestamps;
      skipped_segments = skipped;
    })

-- The test on the head of the buffer: too far behind its end.
abbrev pub too_far : ℕ → ℕ → List ℕ → Bool
too_far buffer_size segment_idx [] = false
too_far buffer_size segment_idx (x ∷ xs) = ltb segment_idx (sub64 (last_of x xs) buffer_size)

unfoldable pub pop_head : VideoStream → Outcome Head
unfolding skip_to
pop_head s = do
  (segment_idx, segments) ← pop_front s.segments
  (timestamp, timestamps) ← pop_front s.timestamps
  let skip = skip_to (s.buffer_size / 2) segments timestamps segment_idx timestamp 0
  if too_far s.buffer_size segment_idx segments
      then skip
      else ok (record {
        segment_idx = segment_idx;
        timestamp = timestamp;
        segments = segments;
        timestamps = timestamps;
        skipped_segments = 0;
      })

-- The metric `video`: the sizes of the queues before the step, and the fields of a played segment.
pub record Progress : Type 0 where
  pub gossips : ℕ
  pub fetch : ℕ
  pub buffer : ℕ
  pub stop : ℕ
  pub played : Option (record { latency : ℕ; skip : ℕ })

unfoldable pub progress : VideoStream → ℕ → Option (record { latency : ℕ; skip : ℕ }) → Progress
progress s stop played = record {
  gossips = length s.gossips;
  fetch = length s.fetching;
  buffer = length s.segments;
  stop = stop;
  played = played;
}

unfoldable pub advance_stream : VideoStream → ℕ → Outcome (VideoStream × Progress)
unfolding pop_head progress
advance_stream s now_time =
    let stop = add64 s.stopped 1 in
    let playing = (do
      h ← pop_head s
      ok (
        record s {
          segments = h.segments;
          timestamps = h.timestamps;
          stopped = 0;
          current_segment = h.segment_idx;
          fetching = retain (λ index. not (ltb index h.segment_idx)) s.fetching;
        },
        progress s 0
            (some (record { latency = sub64 now_time h.timestamp; skip = h.skipped_segments })),
      )) in
    if ltb 0 s.buffering
    then ok (record s { buffering = s.buffering - 1; stopped = stop }, progress s stop none)
    else if length s.segments == 0
    then ok (record s { stopped = stop; buffering = 2 }, progress s stop none)
    else playing

-- The size is at most 30, so the sum does not wrap where it matters.
unfoldable pub buffer_space : VideoStream → ℕ
buffer_space s = s.buffer_size - (length s.segments + length s.fetching)

-- The announcement that is taken from the queue is the one whose blocks are fetched.
unfoldable pub start_fetch :
    List StreamerMessage → VideoStream → VideoStream × Option StreamerMessage
start_fetch [] s = (s, none)
start_fetch (msg ∷ rest) s =
    (record s { gossips = rest; fetching = include msg.count s.fetching }, some msg)

unfoldable pub play : VideoStream → ℕ → Outcome (VideoStream × Option StreamerMessage × Progress)
unfolding start_fetch advance_stream
play s now_time = do
  let (s', fetch) = start_fetch s.gossips s
  (t, metric) ← advance_stream s' now_time
  ok (t, fetch, metric)
