-- ===== src/VideoPlayer/Early.antt =====
-- What a step of playing does while the stream has only just begun.
use live_tests.Base.{
  ℕ, ◌+◌, ◌/◌, ◌<◌, ◌≡◌, inl, inr, ap, subst, ◌∙◌, List, [], ◌∷◌, ◌++◌, ok, length, ltb→le, sub64,
  sub64-eq_of_lt, arith,
}
use live_tests.Parallel.Insertion.{Ascending}
use live_tests.VideoPlayer.{VideoStream, pop_head, advance_stream}
use live_tests.VideoPlayer.Buffer.{Entry, segment, Buffered}
use live_tests.VideoPlayer.Skip.{newest, head_of}
use live_tests.VideoPlayer.Advance.{
  le-newest, newest-split, Ascending-split, pop_head-Stopped, advance_stream-pop, after_play,
  play_metric,
}

abbrev pub PlaysLast : VideoStream → ℕ → List Entry → Type 0
PlaysLast s now_time es =
    (skipped : List Entry) × (y : Entry) × (es ≡ skipped ++ y ∷ [])
    × (advance_stream s now_time
        ≡ ok (after_play s y [], play_metric s now_time y (length skipped)))

-- While the end of the buffer is a segment below 15 and at least two segments are buffered, a step
-- of a player that is not stalled skips all of the buffer but its last segment: it plays that one
-- and leaves the buffer empty. The bounds of the skipping loop wrapped around.
pub advance_stream_early :
    (s : VideoStream) (now_time : ℕ) (x y : Entry) (ys : List Entry)
    → Buffered s (x ∷ y ∷ ys)
    → s.buffering ≡ 0
    → s.buffer_size ≡ 30
    → newest y ys < 15
    → PlaysLast s now_time (x ∷ y ∷ ys)
advance_stream_early s now_time x y ys b idle size early = elim (pop_head-Stopped s x (y ∷ ys) b) [
  | inl (near, popped) ↦
      let h = ltb→le (segment x) _ near in
      let d =
        ap (sub64 (newest y ys)) size
        ∙ sub64-eq_of_lt (newest y ys) 30 (omega arith) (omega arith) in
      let le = le-newest x (y ∷ ys) b.ascending in absurd (omega arith)
  | inr (far, st) ↦
      let d =
        ap (λ k. sub64 (newest y ys) (k / 2)) size
        ∙ sub64-eq_of_lt (newest y ys) 15 (omega arith) early in
      let tail = subst (Ascending segment) st.split b.ascending in
      let le = le-newest st.y st.left (Ascending-split st.y st.left st.skipped tail) in
      let end = newest-split st.y st.left x (y ∷ ys) st.skipped st.split in
      elim st.stops [
        | inl last ↦ (
          st.skipped,
          st.y,
          subst (λ l. x ∷ y ∷ ys ≡ st.skipped ++ st.y ∷ l) last st.split,
          advance_stream-pop s now_time x st.y (y ∷ ys) [] _ b idle (
              subst (λ l. pop_head s ≡ ok (head_of st.y l (0 + length st.skipped))) last st.returns
              ∙ ap (λ n. ok (head_of st.y [] n)) (omega arith)),
        )
        | inr high ↦ absurd (omega arith)
      ]
]
