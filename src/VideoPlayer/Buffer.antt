-- ===== src/VideoPlayer/Buffer.antt =====
-- The buffer as one list of segments with their timestamps.
use mathlib.Core.List.{map-append, Perm}
use live_tests.Base.{ℕ, ◌≡◌, refl, sym, ap, ◌∙◌, List, [], ◌∷◌, ◌++◌, map, ok, sub64}
use live_tests.Parallel.{sort}
use live_tests.Parallel.Insertion.{Ascending, sorted, sorted-Ascending, sorted-perm}
use live_tests.Parallel.Laws.{sort-sorted}
use live_tests.VideoPlayer.{VideoStream, Delay, discard, jitter_since, add_segment}

abbrev pub Entry : Type 0
Entry = ℕ × ℕ

abbrev pub segment : Entry → ℕ
segment e = e.0

abbrev pub stamp : Entry → ℕ
stamp e = e.1

-- The two queues hold the segments of `es` and their timestamps, the earliest segment first.
pub record Buffered (s : VideoStream) (es : List Entry) : Type 0 where
  pub segments : s.segments ≡ map segment es
  pub timestamps : s.timestamps ≡ map stamp es
  pub ascending : Ascending segment es

abbrev pub Added : VideoStream → List Entry → ℕ → ℕ → ℕ → Type 0
Added s es receive_time i t =
    (after : VideoStream) × (metric : Delay) × (out : List Entry) × (add_segment s receive_time i t
      ≡ ok (after, metric))
    × Buffered after out
    × Perm out (es ++ (i, t) ∷ [])
    × (after.fetching ≡ discard i s.fetching)
    × (metric.latency ≡ sub64 receive_time t)
    × (after.gossips ≡ s.gossips)
    × (after.buffering ≡ s.buffering)
    × (after.stopped ≡ s.stopped)

-- A fetched segment is put into the buffer with its timestamp, which stays in order and loses
-- nothing, and is no longer being fetched; its latency is measured from its timestamp. The
-- announcements and the counters of a stall stay.
pub add_segment-Buffered :
    (s : VideoStream) (es : List Entry) (receive_time i t : ℕ)
    → Buffered s es
    → Added s es receive_time i t
unfolding add_segment
add_segment-Buffered s es receive_time i t b =
    let given = es ++ (i, t) ∷ [] in
    let out = sorted segment given in
    let ks : s.segments ++ i ∷ [] ≡ map segment given =
      ap (λ v. v ++ i ∷ []) b.segments ∙ sym (map-append segment es ((i, t) ∷ [])) in
    let ts : s.timestamps ++ t ∷ [] ≡ map stamp given =
      ap (λ v. v ++ t ∷ []) b.timestamps ∙ sym (map-append stamp es ((i, t) ∷ [])) in
    let done = (λ j. sort (ks j) (ts j)) ∙ sort-sorted segment stamp given in
    (
      record s {
        fetching = discard i s.fetching;
        last_segment_time = receive_time;
        segments = map segment out;
        timestamps = map stamp out;
      },
      record {
        latency = sub64 receive_time t;
        jitter = jitter_since s.last_segment_time s.segment_length receive_time;
        segment_number = i;
      },
      out,
      rw done refl,
      record { segments = refl; timestamps = refl; ascending = sorted-Ascending segment given },
      sorted-perm segment given,
      refl,
      refl,
      refl,
      refl,
      refl,
    )
