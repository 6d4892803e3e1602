-- ===== src/VideoPlayer/Tests.antt =====
-- The player on small buffers.
use live_tests.Base.{◌≤◌, refl, List, [], ◌∷◌, ◌++◌, map, some, arith}
use live_tests.VideoPlayer.{VideoStream, StreamerMessage}
use live_tests.VideoPlayer.Run.{Turn, sleep, recv, tick, next}
use live_tests.VideoPlayer.Kept.Turns.{RunKeeps, run-Keeps}
use live_tests.VideoPlayer.Buffer.{Entry, segment, stamp, Buffered, Added, add_segment-Buffered}
use live_tests.VideoPlayer.Advance.{Plays, advance_stream-Plays}
use live_tests.VideoPlayer.Early.{PlaysLast, advance_stream_early}
use live_tests.VideoPlayer.Stall.Turns.{Stalls, run-Stalls}

-- A player that buffers the given entries.
abbrev player : List Entry → VideoStream
player es = record {
  segment_length = 1;
  last_gossip_time = 0;
  gossips = [];
  fetching = 7 ∷ [];
  last_segment_time = 0;
  timestamps = map stamp es;
  segments = map segment es;
  current_segment = 0;
  stopped = 0;
  buffering = 0;
  buffer_size = 30;
}

-- Two entries in order.
abbrev pair : Entry → Entry → List Entry
pair x y = x ∷ y ∷ []

pair-Buffered : (x y : Entry) → segment x ≤ segment y → Buffered (player (pair x y)) (pair x y)
pair-Buffered x y le = record {
  segments = refl;
  timestamps = refl;
  ascending = ((le, tt), (tt, tt));
}

add_segment-Buffered_example : Added (player (pair (3, 30) (5, 50))) (pair (3, 30) (5, 50)) 70 4 40
add_segment-Buffered_example =
    add_segment-Buffered (player (pair (3, 30) (5, 50))) (pair (3, 30) (5, 50)) 70 4 40
      (pair-Buffered (3, 30) (5, 50) (omega arith))

-- The head is 40 segments behind the end of the buffer, so it is skipped.
advance_stream-Plays_example : Plays (player (pair (3, 30) (43, 430))) 500 (3, 30) ((43, 430) ∷ [])
advance_stream-Plays_example =
    advance_stream-Plays (player (pair (3, 30) (43, 430))) 500 (3, 30) ((43, 430) ∷ [])
      (pair-Buffered (3, 30) (43, 430) (omega arith)) refl refl (omega arith) (omega arith)

advance_stream_early_example : PlaysLast (player (pair (3, 30) (4, 40))) 50 (pair (3, 30) (4, 40))
advance_stream_early_example =
    advance_stream_early (player (pair (3, 30) (4, 40))) 50 (3, 30) (4, 40) []
      (pair-Buffered (3, 30) (4, 40) (omega arith)) refl refl (omega arith)

abbrev announcement : StreamerMessage
announcement = record { count = 4; timestamp = 40; cids = 9 ∷ [] }

-- Announced, fetched at a tick while the head is played, received, and played.
abbrev turns : List Turn
turns = next 10 (some announcement) ∷ tick 20 ∷ recv 30 4 40 ∷ tick 40 ∷ sleep ∷ tick 50 ∷ []

run-Keeps_example : RunKeeps (player (pair (1, 10) (2, 20))) (pair (1, 10) (2, 20)) turns
run-Keeps_example =
    run-Keeps (player (pair (1, 10) (2, 20))) (pair (1, 10) (2, 20)) turns
      (pair-Buffered (1, 10) (2, 20) (omega arith))
      (refl, (refl, (refl, (refl, (refl, (refl, tt))))))

-- Between the three ticks a segment comes and an announcement.
run-Stalls_example :
    Stalls
      (player [])
      (tick 10
        ∷ ((recv 15 9 12 ∷ []) ++ (tick 20 ∷ ((next 25 (some announcement) ∷ []) ++ tick 30 ∷ []))))
      3
run-Stalls_example =
    run-Stalls (player []) 10 20 30 (recv 15 9 12 ∷ []) (next 25 (some announcement) ∷ [])
      (record { segments = refl; timestamps = refl; ascending = tt }) refl (omega arith) (refl, tt)
      (refl, tt)
