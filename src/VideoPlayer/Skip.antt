-- ===== src/VideoPlayer/Skip.antt =====
-- Where the skipping loop stops.
use live_tests.Base.{
  ℕ, suc, ◌+◌, ◌≤◌, ◌<◌, ◌≡◌, ◌⊎◌, inl, inr, refl, ap, ◌∙◌, List, [], ◌∷◌, ◌++◌, map, All, Outcome,
  ok, length, ltb, ltb→lt, ltb→le, Bool-cases, sub64, arith,
}
use live_tests.VideoPlayer.{Head, last_of, skip_to}
use live_tests.VideoPlayer.Buffer.{Entry, segment, stamp}

abbrev pub newest : Entry → List Entry → ℕ
newest x es = last_of (segment x) (map segment es)

abbrev pub head_of : Entry → List Entry → ℕ → Head
head_of y left skipped = record {
  segment_idx = segment y;
  timestamp = stamp y;
  segments = map segment left;
  timestamps = map stamp left;
  skipped_segments = skipped;
}

-- The loop stopped at `y`: every entry before it was below the bound, and it is not, or it is the
-- last of the buffer.
pub record Stopped (bound : ℕ) (es : List Entry) (k : ℕ) (out : Outcome Head) : Type 0 where
  pub skipped : List Entry
  pub y : Entry
  pub left : List Entry
  pub split : es ≡ skipped ++ y ∷ left
  pub returns : out ≡ ok (head_of y left (k + length skipped))
  pub below : All (λ e. segment e < bound) skipped
  pub stops : (left ≡ []) ⊎ (bound ≤ segment y)

pub skip_to-Stopped :
    (half : ℕ) (x : Entry) (es : List Entry) (k : ℕ)
    → Stopped
        (sub64 (newest x es) half)
        (x ∷ es)
        k
        (skip_to half (map segment es) (map stamp es) (segment x) (stamp x) k)
unfolding skip_to
skip_to-Stopped half x [] k = record {
  skipped = [];
  y = x;
  left = [];
  split = refl;
  returns = ap (λ n. ok (head_of x [] n)) (omega arith);
  below = tt;
  stops = inl refl;
}
skip_to-Stopped half x (e ∷ es) k =
    let bound = sub64 (newest e es) half in
    elim (Bool-cases (ltb (segment x) bound)) [
      | inl low ↦
          let rest = skip_to-Stopped half e es (suc k) in
          record {
            skipped = x ∷ rest.skipped;
            y = rest.y;
            left = rest.left;
            split = ap (◌∷◌ x) rest.split;
            returns =
                rw low (rest.returns ∙ ap (λ n. ok (head_of rest.y rest.left n)) (omega arith));
            below = (ltb→lt (segment x) bound low, rest.below);
            stops = rest.stops;
          }
      | inr high ↦ record {
        skipped = [];
        y = x;
        left = e ∷ es;
        split = refl;
        returns = rw high (ap (λ n. ok (head_of x (e ∷ es) n)) (omega arith));
        below = tt;
        stops = inr (ltb→le (segment x) bound high);
      }
    ]
