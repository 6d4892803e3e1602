-- ===== src/VideoPlayer/Stall.antt =====
-- What the player does once its buffer ran empty.
pub mod Turns
use live_tests.Base.{
  ℕ, ◌+◌, ◌-◌, ◌<◌, ◌≡◌, true, refl, [], Outcome, ok, ◌>>=◌, none, some, Option, List, ◌∷◌, subst,
  ap, ◌∙◌, word, add64, ltb, arith,
}
use live_tests.VideoPlayer.{
  VideoStream, StreamerMessage, Progress, progress, include, start_fetch, advance_stream, play,
}
use live_tests.VideoPlayer.Buffer.{Entry, Buffered}
use live_tests.VideoPlayer.Kept.{same_buffer, played_from, play-played_from}

advance_stream-empty :
    (s : VideoStream) (now : ℕ)
    → s.buffering ≡ 0
    → s.segments ≡ []
    → s.stopped + 1 < word
    → advance_stream s now
      ≡ ok (record s { stopped = s.stopped + 1; buffering = 2 }, progress s (s.stopped + 1) none)
unfolding advance_stream add64
advance_stream-empty s now idle empty fits =
    let one : add64 s.stopped 1 ≡ s.stopped + 1 = omega arith in rw (idle, empty, one) refl

advance_stream-waiting :
    (s : VideoStream) (now : ℕ)
    → 0 < s.buffering
    → s.stopped + 1 < word
    → advance_stream s now
      ≡ ok (
        record s { buffering = s.buffering - 1; stopped = s.stopped + 1 },
        progress s (s.stopped + 1) none,
      )
unfolding advance_stream add64
advance_stream-waiting s now waits fits =
    let one : add64 s.stopped 1 ≡ s.stopped + 1 = omega arith in
    let ready : ltb 0 s.buffering ≡ true = ground arith in rw (ready, one) refl

-- A step that plays nothing leaves the buffer, counts itself as stopped, and then waits for so many.
abbrev pub Idles : VideoStream → List Entry → ℕ → VideoStream × Progress → Type 0
Idles s es waits (t, metric) =
    Buffered t es
    × (t.buffering ≡ waits)
    × (t.stopped ≡ s.stopped + 1)
    × (metric.played ≡ none)
    × (metric.stop ≡ s.stopped + 1)

abbrev IdleStep : VideoStream → List Entry → ℕ → ℕ → Type 0
IdleStep s es now waits =
    (t : VideoStream) × (metric : Progress) × (advance_stream s now ≡ ok (t, metric))
    × Idles s es waits (t, metric)

abbrev pub IdlePlay : VideoStream → List Entry → ℕ → ℕ → Type 0
IdlePlay s es now waits =
    (t : VideoStream) × (fetch : Option StreamerMessage) × (metric : Progress) × (play s now
      ≡ ok (t, fetch, metric))
    × Idles s es waits (t, metric)

module _ (s : VideoStream) (now : ℕ) (fits : s.stopped + 1 < word) where
  empty-IdleStep : Buffered s [] → s.buffering ≡ 0 → IdleStep s [] now 2
  unfolding progress
  empty-IdleStep b idle = (
    record s { stopped = s.stopped + 1; buffering = 2 },
    progress s (s.stopped + 1) none,
    advance_stream-empty s now idle b.segments fits,
    (
      same_buffer s (record s { stopped = s.stopped + 1; buffering = 2 }) [] refl refl b,
      refl,
      refl,
      refl,
      refl,
    ),
  )

  waiting-IdleStep :
      (es : List Entry) → Buffered s es → 0 < s.buffering → IdleStep s es now (s.buffering - 1)
  unfolding progress
  waiting-IdleStep es b waits =
      let t = record s { buffering = s.buffering - 1; stopped = s.stopped + 1 } in
      (
        t,
        progress s (s.stopped + 1) none,
        advance_stream-waiting s now waits fits,
        (same_buffer s t es refl refl b, refl, refl, refl, refl),
      )

  -- `play` takes an announcement first, which leaves the buffer and the counters.
  play-IdlePlay :
      (es : List Entry) (waits : ℕ)
      → Buffered s es
      → ((v : VideoStream)
          → Buffered v es
          → v.buffering ≡ s.buffering
          → v.stopped ≡ s.stopped
          → IdleStep v es now waits)
      → IdlePlay s es now waits
  unfolding start_fetch
  play-IdlePlay es waits b step = started s.gossips refl
    where
      started : (queue : List StreamerMessage) → s.gossips ≡ queue → IdlePlay s es now waits
      started [] e =
          let (t, metric, advanced, idles) = step s b refl refl in
          (
            t,
            none,
            metric,
            play-played_from s now
                ∙ ap (played_from s now) e
                ∙ ap (λ r. r >>= λ (t, metric). ok (t, none, metric)) advanced,
            idles,
          )
      started (msg ∷ rest) e =
          let v = record s { gossips = rest; fetching = include msg.count s.fetching } in
          let (t, metric, advanced, idles) = step v (same_buffer s v es refl refl b) refl refl in
          (
            t,
            some msg,
            metric,
            play-played_from s now
                ∙ ap (played_from s now) e
                ∙ ap (λ r. r >>= λ (t, metric). ok (t, some msg, metric)) advanced,
            idles,
          )

-- A tick on an empty buffer, and one in a stall.
module _ (s : VideoStream) (now : ℕ) (fits : s.stopped + 1 < word) where
  pub empty-IdlePlay : Buffered s [] → s.buffering ≡ 0 → IdlePlay s [] now 2
  empty-IdlePlay b idle =
      play-IdlePlay s now fits [] 2 b
        (λ v bv wv kv. empty-IdleStep v now (omega arith) bv (wv ∙ idle))

  pub waiting-IdlePlay :
      (es : List Entry) → Buffered s es → 0 < s.buffering → IdlePlay s es now (s.buffering - 1)
  waiting-IdlePlay es b waits = play-IdlePlay s now fits es (s.buffering - 1) b (λ v bv wv kv.
      subst (IdleStep v es now) (ap (λ m. m - 1) wv)
        (waiting-IdleStep v now (omega arith) es bv (omega arith)))
