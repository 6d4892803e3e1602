-- ===== src/VideoPlayer/Run.antt =====
-- The loop of the player (in `VideoStream::run` of plans/streaming_test/src/video_player.rs).
use live_tests.Base.{ℕ, List, [], ◌∷◌, Option, Outcome, ok, ◌>>=◌}
use live_tests.VideoPlayer.{
  VideoStream, StreamerMessage, Delay, Progress, add_gossip, add_segment, play,
}

-- What `select!` takes next, with the time at which it is handled: the end of the simulation, a
-- segment whose blocks were fetched, a tick of the interval, or a message on the topic, which is
-- `none` if it does not deserialize.
pub data Turn : Type 0 where
  sleep : Turn
  recv : ℕ → ℕ → ℕ → Turn
  tick : ℕ → Turn
  next : ℕ → Option StreamerMessage → Turn

-- What goes out in a turn: the metrics, and the announcement whose blocks are fetched.
pub data Output : Type 0 where
  gossips blocks : Delay → Output
  video : Option StreamerMessage → Progress → Output

unfoldable pub run : VideoStream → List Turn → Outcome (VideoStream × List Output)
unfolding add_segment add_gossip play
run s [] = ok (s, [])
run s (sleep ∷ turns) = ok (s, [])
run s (recv receive_time block_count timestamp ∷ turns) = do
  (t, metric) ← add_segment s receive_time block_count timestamp
  (u, out) ← run t turns
  ok (u, blocks metric ∷ out)
run s (tick now_time ∷ turns) = do
  (t, fetch, metric) ← play s now_time
  (u, out) ← run t turns
  ok (u, video fetch metric ∷ out)
run s (next receive_time msg ∷ turns) = do
  (t, metric) ← add_gossip s receive_time msg
  (u, out) ← run t turns
  ok (u, gossips metric ∷ out)
