-- ===== src/VideoPlayer/Stall/Turns.antt =====
-- A stall over the turns of the player's loop (`VideoStream::run` of
-- plans/streaming_test/src/video_player.rs).
use live_tests.Base.{
  ℕ, suc, ◌+◌, ◌-◌, ◌<◌, ◌≡◌, refl, ap, subst, ◌∙◌, List, [], ◌∷◌, ◌++◌, Bool, true, false, none,
  some, All, ok, sub64, word, arith,
}
use live_tests.VideoPlayer.{VideoStream, Delay, jitter_since, add_gossip}
use live_tests.VideoPlayer.Buffer.{Entry, Buffered, add_segment-Buffered}
use live_tests.VideoPlayer.Run.{Turn, sleep, recv, tick, next, Output, gossips, blocks, video, run}
use live_tests.VideoPlayer.Kept.{same_buffer}
use live_tests.VideoPlayer.Stall.{IdlePlay, empty-IdlePlay, waiting-IdlePlay}

-- A segment or a message that deserializes.
abbrev pub arrives : Turn → Bool
arrives (recv _ _ _) = true
arrives (next _ (some _)) = true
arrives (next _ none) = false
arrives sleep = false
arrives (tick _) = false

-- The ticks of the turns play nothing and count on from `stopped`.
abbrev pub PlaysNothing : ℕ → List Output → Type 0
PlaysNothing stopped [] = Unit
PlaysNothing stopped (gossips _ ∷ out) = PlaysNothing stopped out
PlaysNothing stopped (blocks _ ∷ out) = PlaysNothing stopped out
PlaysNothing stopped (video _ metric ∷ out) =
    (metric.played ≡ none) × (metric.stop ≡ stopped + 1) × PlaysNothing (stopped + 1) out

-- The turns are run, their ticks play nothing, and there are `count` of them; then none is waited for.
abbrev pub Stalls : VideoStream → List Turn → ℕ → Type 0
Stalls s turns count =
    (t : VideoStream) × (out : List Output) × (run s turns ≡ ok (t, out))
    × PlaysNothing s.stopped out
    × (t.buffering ≡ 0)
    × (t.stopped ≡ s.stopped + count)

-- What arrives before the turns `later`, which stall from any state with the same counters.
arrivals-Stall :
    (later : List Turn) (waits stopped count : ℕ)
    → ((u : VideoStream) (es : List Entry)
        → Buffered u es
        → u.buffering ≡ waits
        → u.stopped ≡ stopped
        → Stalls u later count)
    → (s : VideoStream) (es : List Entry) (turns : List Turn) → Buffered s es
    → s.buffering ≡ waits
    → s.stopped ≡ stopped
    → All (λ turn. arrives turn ≡ true) turns
    → Stalls s (turns ++ later) count
unfolding run add_gossip
arrivals-Stall later waits stopped count go s es [] b w k h = go s es b w k
arrivals-Stall later waits stopped count go s es (sleep ∷ turns) b w k h = cc
arrivals-Stall later waits stopped count go s es (tick now_time ∷ turns) b w k h = cc
arrivals-Stall later waits stopped count go s es (next receive_time none ∷ turns) b w k h = cc
arrivals-Stall later waits stopped count go s es (recv receive_time i timestamp ∷ turns) b w k h =
    let (u, metric, es', added, c, _, _, _, _, buffering, stops) =
      add_segment-Buffered s es receive_time i timestamp b in
    let (t, out, returns, nothing, idle, n) =
      arrivals-Stall later waits stopped count go u es' turns c (buffering ∙ w) (stops ∙ k) h.1 in
    (
      t,
      blocks metric ∷ out,
      rw (added, returns) refl,
      subst (λ m. PlaysNothing m out) stops nothing,
      idle,
      n ∙ ap (λ m. m + count) stops,
    )
arrivals-Stall later waits stopped count go s es (next receive_time (some msg) ∷ turns) b w k h =
    let u = record s { last_gossip_time = receive_time; gossips = s.gossips ++ msg ∷ [] } in
    let (t, out, returns, nothing, idle, n) =
      arrivals-Stall later waits stopped count go u es turns (same_buffer s u es refl refl b) w k
        h.1 in
    let metric : Delay = record {
      latency = sub64 receive_time msg.timestamp;
      jitter = jitter_since s.last_gossip_time s.segment_length receive_time;
      segment_number = msg.count;
    } in
    (t, gossips metric ∷ out, rw returns refl, nothing, idle, n)

-- A tick that plays nothing, before turns that stall.
tick-Stall :
    (s : VideoStream) (es : List Entry) (now waits count : ℕ) (later : List Turn)
    → IdlePlay s es now waits
    → ((u : VideoStream)
        → Buffered u es
        → u.buffering ≡ waits
        → u.stopped ≡ s.stopped + 1
        → Stalls u later count)
    → Stalls s (tick now ∷ later) (suc count)
unfolding run
tick-Stall s es now waits count later (t, fetch, metric, plays, idles) go =
    let (b, w, k, nothing, counted) = idles in
    let (u, out, returns, nothing_later, idle, n) = go t b w k in
    (
      u,
      video fetch metric ∷ out,
      rw (plays, returns) refl,
      (nothing, counted, subst (λ m. PlaysNothing m out) k nothing_later),
      idle,
      omega arith,
    )

-- A tick in a stall.
waiting-Stall :
    (s : VideoStream) (es : List Entry) (now waits count : ℕ) (later : List Turn)
    → Buffered s es
    → s.buffering ≡ suc waits
    → s.stopped + 1 < word
    → ((u : VideoStream)
        → Buffered u es
        → u.buffering ≡ waits
        → u.stopped ≡ s.stopped + 1
        → Stalls u later count)
    → Stalls s (tick now ∷ later) (suc count)
waiting-Stall s es now waits count later b w fits =
    let less : s.buffering - 1 ≡ waits = omega arith in
    tick-Stall s es now waits count later
      (subst (IdlePlay s es now) less (waiting-IdlePlay s now fits es b (omega arith)))

-- What arrives before the last tick of a stall, and before the last two.
last-Stall :
    (s : VideoStream) (es : List Entry) (c : ℕ) (turns : List Turn)
    → Buffered s es
    → s.buffering ≡ 1
    → s.stopped + 1 < word
    → All (λ turn. arrives turn ≡ true) turns
    → Stalls s (turns ++ tick c ∷ []) 1
unfolding run
last-Stall s es c turns b w fits =
    arrivals-Stall (tick c ∷ []) 1 s.stopped 1
      (λ u fs bu wu ku.
        waiting-Stall u fs c 0 0 [] bu wu (omega arith)
          (λ v bv wv kv. (v, [], refl, tt, wv, omega arith)))
      s es turns b w refl

last_two-Stall :
    (s : VideoStream) (es : List Entry) (b c : ℕ) (first second : List Turn)
    → Buffered s es
    → s.buffering ≡ 2
    → s.stopped + 2 < word
    → All (λ turn. arrives turn ≡ true) first
    → All (λ turn. arrives turn ≡ true) second
    → Stalls s (first ++ (tick b ∷ (second ++ tick c ∷ []))) 2
last_two-Stall s es b c first second bs w fits h1 h2 =
    arrivals-Stall (tick b ∷ (second ++ tick c ∷ [])) 2 s.stopped 2
      (λ u fs bu wu ku.
        waiting-Stall u fs b 1 1 (second ++ tick c ∷ []) bu wu (omega arith)
          (λ v bv wv kv. last-Stall v fs c second bv wv (omega arith) h2))
      s es first bs w refl h1

-- A player that does not wait and finds its buffer empty at a tick plays nothing at this tick and
-- the next two, whatever segments and announcements come between them. The three are counted as
-- stopped, one after the other, and then the player no longer waits. (The counter of the stopped
-- ticks is far enough from 2^64.)
pub run-Stalls :
    (s : VideoStream) (a b c : ℕ) (first second : List Turn)
    → Buffered s []
    → s.buffering ≡ 0
    → s.stopped + 3 < word
    → All (λ turn. arrives turn ≡ true) first
    → All (λ turn. arrives turn ≡ true) second
    → Stalls s (tick a ∷ (first ++ (tick b ∷ (second ++ tick c ∷ [])))) 3
run-Stalls s a b c first second empty idle fits h1 h2 =
    tick-Stall s [] a 2 2 (first ++ (tick b ∷ (second ++ tick c ∷ [])))
      (empty-IdlePlay s a (omega arith) empty idle)
      (λ u bu wu ku. last_two-Stall u [] b c first second bu wu (omega arith) h1 h2)
