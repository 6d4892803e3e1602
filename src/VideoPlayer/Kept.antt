-- ===== src/VideoPlayer/Kept.antt =====
-- What the player keeps over a whole run: its buffer in order, the number of segments, and the
-- announcements in their order.
pub mod Turns
use live_tests.Base.{
  ℕ, suc, ◌+◌, ◌-◌, ◌≡◌, inl, inr, refl, sym, ap, subst, ◌∙◌, List, [], ◌∷◌, ◌++◌, Bool, true,
  false, Option, none, some, All, Outcome, ok, ◌>>=◌, length, length-append, ltb, ltb→le, ◌==◌,
  Bool-cases, add64, sub64, arith,
}
use mathlib.Core.List
use mathlib.Core.List.Perm
use mathlib.Core.List.{append-nil, append_assoc}
use live_tests.Parallel.Insertion.{Ascending}
use live_tests.VideoPlayer.{
  VideoStream, StreamerMessage, Delay, Progress, jitter_since, progress, include, add_gossip,
  start_fetch, advance_stream, play,
}
use live_tests.VideoPlayer.Buffer.{Entry, segment, stamp, Buffered, add_segment-Buffered}
use live_tests.VideoPlayer.Advance.{
  Ascending-split, pop_head-Stopped, advance_stream-pop, after_play, play_metric,
}
use live_tests.VideoPlayer.Run.{Turn, sleep, recv, tick, next, Output, gossips, blocks, video, run}

-- What a step at `now_time` took out of the buffer, by the metric of a played segment: nothing, or the
-- skipped entries and the played one behind them, whose latency counts from its own timestamp.
abbrev pub TakenOff : ℕ → Option (record { latency : ℕ; skip : ℕ }) → List Entry → Type 0
TakenOff now_time none gone = gone ≡ []
TakenOff now_time (some played) gone =
    (skipped : List Entry) × (y : Entry) × (gone ≡ skipped ++ y ∷ [])
    × (played.skip ≡ length skipped)
    × (played.latency ≡ sub64 now_time (stamp y))

abbrev pub Advances : VideoStream → List Entry → ℕ → Type 0
Advances s es now_time =
    (t : VideoStream) × (metric : Progress) × (gone left : List Entry) × (advance_stream s now_time
      ≡ ok (t, metric))
    × Buffered t left
    × (es ≡ gone ++ left)
    × TakenOff now_time metric.played gone
    × (t.gossips ≡ s.gossips)

-- The buffer of a state that differs from `s` elsewhere.
pub same_buffer :
    (s t : VideoStream) (es : List Entry)
    → t.segments ≡ s.segments
    → t.timestamps ≡ s.timestamps
    → Buffered s es
    → Buffered t es
same_buffer s t es k h b = record {
  segments = k ∙ b.segments;
  timestamps = h ∙ b.timestamps;
  ascending = b.ascending;
}

advance_stream-waits :
    (s : VideoStream) (es : List Entry) (now_time : ℕ)
    → Buffered s es
    → ltb 0 s.buffering ≡ true
    → Advances s es now_time
unfolding advance_stream progress
advance_stream-waits s es now_time b waits =
    let stop = add64 s.stopped 1 in
    let t = record s { buffering = s.buffering - 1; stopped = stop } in
    (
      t,
      progress s stop none,
      [],
      es,
      rw waits refl,
      same_buffer s t es refl refl b,
      refl,
      refl,
      refl,
    )

advance_stream-plays :
    (s : VideoStream) (x : Entry) (es : List Entry) (now_time : ℕ)
    → Buffered s (x ∷ es)
    → s.buffering ≡ 0
    → Advances s (x ∷ es) now_time
unfolding progress
advance_stream-plays s x es now_time b idle = elim (pop_head-Stopped s x es b) [
  | inl (_, popped) ↦ (
    after_play s x es,
    play_metric s now_time x 0,
    x ∷ [],
    es,
    advance_stream-pop s now_time x x es es 0 b idle popped,
    record { segments = refl; timestamps = refl; ascending = b.ascending.1 },
    refl,
    ([], x, refl, refl, refl),
    refl,
  )
  | inr (_, st) ↦
      let tail = subst (Ascending segment) st.split b.ascending in
      (
        after_play s st.y st.left,
        play_metric s now_time st.y (0 + length st.skipped),
        st.skipped ++ st.y ∷ [],
        st.left,
        advance_stream-pop s now_time x st.y es st.left _ b idle st.returns,
        record {
          segments = refl;
          timestamps = refl;
          ascending = (Ascending-split st.y st.left st.skipped tail).1;
        },
        st.split ∙ sym (append_assoc st.skipped (st.y ∷ []) st.left),
        (st.skipped, st.y, refl, omega arith, refl),
        refl,
      )
]

advance_stream-Advances :
    (s : VideoStream) (es : List Entry) (now_time : ℕ) → Buffered s es → Advances s es now_time
unfolding advance_stream progress
advance_stream-Advances s es now_time b = elim (Bool-cases (ltb 0 s.buffering)) [
  | inl waits ↦ advance_stream-waits s es now_time b waits
  | inr ready ↦ ready_to_play es b ready
]
  where
    ready_to_play :
        (fs : List Entry) → Buffered s fs → ltb 0 s.buffering ≡ false → Advances s fs now_time
    ready_to_play [] c ready =
        let stop = add64 s.stopped 1 in
        let t = record s { buffering = 2; stopped = stop } in
        let empty : (length s.segments == 0) ≡ true = rw c.segments (ground arith) in
        (
          t,
          progress s stop none,
          [],
          [],
          rw (ready, empty) refl,
          same_buffer s t [] refl refl c,
          refl,
          refl,
          refl,
        )
    ready_to_play (x ∷ fs) c ready =
        let h = ltb→le 0 s.buffering ready in advance_stream-plays s x fs now_time c (omega arith)

-- The announcement that a tick takes.
abbrev pub taken : Option StreamerMessage → List StreamerMessage
taken none = []
taken (some msg) = msg ∷ []

abbrev pub Ticks : VideoStream → List Entry → ℕ → Type 0
Ticks s es now_time =
    (t : VideoStream) × (fetch : Option StreamerMessage) × (metric : Progress) × (gone left : List
      Entry)
    × (play s now_time ≡ ok (t, fetch, metric))
    × Buffered t left
    × (es ≡ gone ++ left)
    × TakenOff now_time metric.played gone
    × (s.gossips ≡ taken fetch ++ t.gossips)

-- `play` with a given queue of announcements.
abbrev pub played_from :
    VideoStream
    → ℕ
    → List StreamerMessage
    → Outcome (VideoStream × Option StreamerMessage × Progress)
played_from s now_time queue = advance_stream (start_fetch queue s).0 now_time >>= λ (t, metric).
    ok (t, (start_fetch queue s).1, metric)

pub play-played_from :
    (s : VideoStream) (now_time : ℕ) → play s now_time ≡ played_from s now_time s.gossips
unfolding play
play-played_from s now_time = refl

pub play-Ticks :
    (s : VideoStream) (es : List Entry) (now_time : ℕ) → Buffered s es → Ticks s es now_time
unfolding start_fetch
play-Ticks s es now_time b = started s.gossips refl
  where
    started : (queue : List StreamerMessage) → s.gossips ≡ queue → Ticks s es now_time
    started [] e =
        let (t, metric, gone, left, advanced, c, split, taken_off, same) =
          advance_stream-Advances s es now_time b in
        (
          t,
          none,
          metric,
          gone,
          left,
          play-played_from s now_time
              ∙ ap (played_from s now_time) e
              ∙ ap (λ r. r >>= λ (t, metric). ok (t, none, metric)) advanced,
          c,
          split,
          taken_off,
          e ∙ sym (same ∙ e),
        )
    started (msg ∷ rest) e =
        let s' = record s { gossips = rest; fetching = include msg.count s.fetching } in
        let (t, metric, gone, left, advanced, c, split, taken_off, same) =
          advance_stream-Advances s' es now_time (same_buffer s s' es refl refl b) in
        (
          t,
          some msg,
          metric,
          gone,
          left,
          play-played_from s now_time
              ∙ ap (played_from s now_time) e
              ∙ ap (λ r. r >>= λ (t, metric). ok (t, some msg, metric)) advanced,
          c,
          split,
          taken_off,
          e ∙ ap (◌∷◌ msg) (sym same),
        )
