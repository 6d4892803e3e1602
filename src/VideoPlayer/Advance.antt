-- ===== src/VideoPlayer/Advance.antt =====
-- What one step of playing does, on every path.
use live_tests.Base.{
  ℕ, ◌+◌, ◌-◌, ◌/◌, ◌≤◌, ◌<◌, ◌≡◌, ◌⊎◌, inl, inr, refl, ap, subst, ◌∙◌, List, [], ◌∷◌, ◌++◌, map,
  true, false, not, some, All, All-mono, ok, length, retain, ltb, ltb→lt, ltb→le, ◌==◌, Bool-cases,
  word, sub64, sub64-eq_of_le, arith,
}
use live_tests.Parallel.Insertion.{Ascending}
use live_tests.VideoPlayer.{
  VideoStream, Progress, progress, skip_to, pop_head, too_far, advance_stream,
}
use live_tests.VideoPlayer.Buffer.{Entry, segment, stamp, Buffered}
use live_tests.VideoPlayer.Skip.{newest, head_of, Stopped, skip_to-Stopped}

-- The end of an ascending buffer is its greatest segment, and stays the end while the head moves.
pub le-newest : (x : Entry) (es : List Entry) → Ascending segment (x ∷ es) → segment x ≤ newest x es
le-newest x [] a = omega arith
le-newest x (e ∷ es) a = let h = a.0.0 in omega (arith, le-newest e es a.1)

All-newest :
    (x : Entry) (es : List Entry)
    → Ascending segment (x ∷ es)
    → All (λ e. segment e ≤ newest x es) (x ∷ es)
All-newest x [] a = (omega arith, tt)
All-newest x (e ∷ es) a = (le-newest x (e ∷ es) a, All-newest e es a.1)

-- A split of a buffer behind its head.
module _ (y : Entry) (left : List Entry) where
  pub newest-split :
      (x : Entry) (es skipped : List Entry)
      → x ∷ es ≡ skipped ++ y ∷ left
      → newest x es ≡ newest y left
  newest-split x es [] e = ground arith
  newest-split x [] (s ∷ []) e = cc
  newest-split x [] (s ∷ z ∷ skipped) e = cc
  newest-split x (f ∷ es) (s ∷ skipped) e = newest-split f es skipped (ground arith)

  pub Ascending-split :
      (skipped : List Entry)
      → Ascending segment (skipped ++ y ∷ left)
      → Ascending segment (y ∷ left)
  Ascending-split [] a = a
  Ascending-split (s ∷ skipped) a = Ascending-split skipped a.1

-- The test on the head, where the end of the buffer is segment 30 or later.
module _ (size : ℕ) (sized : size ≡ 30) where
  near-le :
      (x : Entry) (es : List Entry)
      → 30 ≤ newest x es
      → newest x es < word
      → too_far size (segment x) (map segment es) ≡ false
      → newest x es ≤ segment x + 30
  near-le x [] late fits near = omega arith
  near-le x (e ∷ es) late fits near =
      let h = ltb→le (segment x) _ near in
      let d = ap (sub64 (newest e es)) sized ∙ sub64-eq_of_le (newest e es) 30 fits late in
      omega arith

  far-lt :
      (x : Entry) (es : List Entry)
      → 30 ≤ newest x es
      → newest x es < word
      → too_far size (segment x) (map segment es) ≡ true
      → segment x + 30 < newest x es
  far-lt x [] late fits far = cc
  far-lt x (e ∷ es) late fits far =
      let h = ltb→lt (segment x) _ far in
      let d = ap (sub64 (newest e es)) sized ∙ sub64-eq_of_le (newest e es) 30 fits late in
      omega arith

  half-eq : (n : ℕ) → 30 ≤ n → n < word → sub64 n (size / 2) ≡ n - 15
  half-eq n late fits = ap (λ k. sub64 n (k / 2)) sized ∙ sub64-eq_of_le n 15 fits (omega arith)

module _ (s : VideoStream) (x : Entry) (es : List Entry) (b : Buffered s (x ∷ es)) where
  -- Near the end of the buffer its head is popped alone.
  pop_near :
      too_far s.buffer_size (segment x) (map segment es) ≡ false → pop_head s ≡ ok (head_of x es 0)
  unfolding pop_head
  pop_near near = rw (b.segments, b.timestamps, near) refl

  pub pop_far :
      too_far s.buffer_size (segment x) (map segment es) ≡ true
      → pop_head s
        ≡ skip_to (s.buffer_size / 2) (map segment es) (map stamp es) (segment x) (stamp x) 0
  unfolding pop_head
  pop_far far = rw (b.segments, b.timestamps, far) refl

  -- The head is popped, and then entries as long as the loop runs.
  pub pop_head-Stopped :
      ((too_far s.buffer_size (segment x) (map segment es) ≡ false)
        × (pop_head s ≡ ok (head_of x es 0)))
      ⊎ ((too_far s.buffer_size (segment x) (map segment es) ≡ true)
          × Stopped (sub64 (newest x es) (s.buffer_size / 2)) (x ∷ es) 0 (pop_head s))
  pop_head-Stopped = elim (Bool-cases (too_far s.buffer_size (segment x) (map segment es))) [
    | inl far ↦ inr (far, rw (pop_far far) (skip_to-Stopped (s.buffer_size / 2) x es 0))
    | inr near ↦ inl (near, pop_near near)
  ]

-- The state and the metric after the entry `y` was popped, with `left` behind it.
abbrev pub after_play : VideoStream → Entry → List Entry → VideoStream
after_play s y left = record s {
  segments = map segment left;
  timestamps = map stamp left;
  stopped = 0;
  current_segment = segment y;
  fetching = retain (λ index. not (ltb index (segment y))) s.fetching;
}

abbrev pub play_metric : VideoStream → ℕ → Entry → ℕ → Progress
play_metric s now_time y skip =
    progress s 0 (some (record { latency = sub64 now_time (stamp y); skip = skip }))

pub advance_stream-pop :
    (s : VideoStream) (now_time : ℕ) (x y : Entry) (es left : List Entry) (skip : ℕ)
    → Buffered s (x ∷ es)
    → s.buffering ≡ 0
    → pop_head s ≡ ok (head_of y left skip)
    → advance_stream s now_time ≡ ok (after_play s y left, play_metric s now_time y skip)
unfolding advance_stream
advance_stream-pop s now_time x y es left skip b idle popped =
    let full : (length s.segments == 0) ≡ false = rw b.segments (ground arith) in
    let ready : ltb 0 s.buffering ≡ false = rw idle refl in rw (ready, full, popped) refl

-- What `y` is to the buffer `x ∷ es` whose end is far enough from zero: its head, if that is at
-- most 30 segments behind the end, and else the first entry at most 15 segments behind it.
abbrev pub InTime : Entry → List Entry → List Entry → Entry → Type 0
InTime x es skipped y =
    ((skipped ≡ []) × (newest x es ≤ segment x + 30))
    ⊎ ((segment x + 30 < newest x es)
        × All (λ e. segment e + 15 < newest x es) skipped
        × (newest x es ≤ segment y + 15))

abbrev pub Plays : VideoStream → ℕ → Entry → List Entry → Type 0
Plays s now_time x es =
    (skipped : List Entry) × (y : Entry) × (left : List Entry) × (x ∷ es ≡ skipped ++ y ∷ left)
    × (advance_stream s now_time
        ≡ ok (after_play s y left, play_metric s now_time y (length skipped)))
    × Buffered (after_play s y left) left
    × InTime x es skipped y

-- When the player is not stalled and the end of the buffer is segment 30 or later, a step plays the
-- head if that is at most 30 segments behind the end; if not, it skips all entries more than 15
-- segments behind the end and plays the next one. The rest stays buffered, in order.
pub advance_stream-Plays :
    (s : VideoStream) (now_time : ℕ) (x : Entry) (es : List Entry)
    → Buffered s (x ∷ es)
    → s.buffering ≡ 0
    → s.buffer_size ≡ 30
    → 30 ≤ newest x es
    → newest x es < word
    → Plays s now_time x es
advance_stream-Plays s now_time x es b idle size late fits = elim (pop_head-Stopped s x es b) [
  | inl (near, popped) ↦ (
    [],
    x,
    es,
    refl,
    advance_stream-pop s now_time x x es es 0 b idle popped,
    record { segments = refl; timestamps = refl; ascending = b.ascending.1 },
    inl (refl, near-le s.buffer_size size x es late fits near),
  )
  | inr (far, st) ↦ (
    st.skipped,
    st.y,
    st.left,
    st.split,
    advance_stream-pop s now_time x st.y es st.left _ b idle
        (st.returns ∙ ap (λ n. ok (head_of st.y st.left n)) (omega arith)),
    record {
      segments = refl;
      timestamps = refl;
      ascending =
          (Ascending-split st.y st.left st.skipped
            (subst (Ascending segment) st.split b.ascending)).1;
    },
    inr (
      far-lt s.buffer_size size x es late fits far,
      All-mono (λ e. segment e < sub64 (newest x es) (s.buffer_size / 2))
          (λ e. segment e + 15 < newest x es)
          (λ e h. let d = half-eq s.buffer_size size (newest x es) late fits in omega arith)
          st.skipped st.below,
      elim st.stops [
        | inl last ↦
            let n = newest-split st.y st.left x es st.skipped st.split in
            let m : newest st.y st.left ≡ segment st.y = ap (newest st.y) last in omega arith
        | inr high ↦ let d = half-eq s.buffer_size size (newest x es) late fits in omega arith
      ],
    ),
  )
]
