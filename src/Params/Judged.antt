-- ===== src/Params/Judged.antt =====
-- When the parameters are refused.
use live_tests.Base.{
  ℕ, ◌≡◌, ◌⊎◌, inl, inr, refl, sym, subst, ap, ◌∙◌, List, Bool, Option, none, some, Outcome, ok,
  panic, unwrapped, ◌>>=◌,
}
use live_tests.Params.{TestCaseParams, split, expect, parse_at, custom_instance_params}
use live_tests.Params.Dict.{Text, codes}
use live_tests.Params.Numbers.{parse_bool, parse_usize}
use live_tests.Params.Parts.{WithoutBars, write_items, split-WithoutBars, write_items-split}
use live_tests.Params.Written.{last_value, table_of, get-table_of}

-- What the last value of the name says, if there is one and it can be read.
abbrev pub and_parse : {A : Type 0} → (Text → Option A) → Option Text → Option A
and_parse parse (some value) = parse value
and_parse parse none = none

abbrev pub read : {A : Type 0} → (Text → Option A) → Text → List Text → Option A
read parse name items = and_parse parse (last_value name items)

-- The eight values that the items give, if any.
pub record Readings : Type 0 where
  pub log : Option Bool
  pub log_id : Option ℕ
  pub max_concurrent_send : Option ℕ
  pub max_size_block : Option Bool
  pub segment_length : Option ℕ
  pub sim_time : Option ℕ
  pub video_bitrate : Option ℕ
  pub network_bandwidth : Option ℕ

abbrev pub readings : List Text → Readings
readings items = record {
  log = read parse_bool (codes "log") items;
  log_id = read parse_usize (codes "log_id") items;
  max_concurrent_send = read parse_usize (codes "max_concurrent_send") items;
  max_size_block = read parse_bool (codes "max_size_block") items;
  segment_length = read parse_usize (codes "segment_length") items;
  sim_time = read parse_usize (codes "sim_time") items;
  video_bitrate = read parse_usize (codes "video_bitrate") items;
  network_bandwidth = read parse_usize (codes "network_bandwidth") items;
}

-- All eight are there, and they are those of `p`.
abbrev pub Complete : Readings → TestCaseParams → Type 0
Complete r p =
    (r.log ≡ some p.log)
    × (r.log_id ≡ some p.log_id)
    × (r.max_concurrent_send ≡ some p.max_concurrent_send)
    × (r.max_size_block ≡ some p.max_size_block)
    × (r.segment_length ≡ some p.segment_length)
    × (r.sim_time ≡ some p.sim_time)
    × (r.video_bitrate ≡ some p.video_bitrate)
    × (r.network_bandwidth ≡ some p.network_bandwidth)

abbrev pub Judged : Readings → Outcome TestCaseParams → Type 0
Judged r out =
    ((p : TestCaseParams) × (out ≡ ok p) × Complete r p)
    ⊎ ((out ≡ panic unwrapped) × ((p : TestCaseParams) → ¬ Complete r p))

-- `from_table` on what is read, value by value.
abbrev assembled :
    Option Bool
    → Option ℕ
    → Option ℕ
    → Option Bool
    → Option ℕ
    → Option ℕ
    → Option ℕ
    → Option ℕ
    → Outcome TestCaseParams
assembled o0 o1 o2 o3 o4 o5 o6 o7 = do
  log ← expect o0
  log_id ← expect o1
  max_concurrent_send ← expect o2
  max_size_block ← expect o3
  segment_length ← expect o4
  sim_time ← expect o5
  video_bitrate ← expect o6
  network_bandwidth ← expect o7
  ok (record {
    log = log;
    log_id = log_id;
    max_concurrent_send = max_concurrent_send;
    max_size_block = max_size_block;
    segment_length = segment_length;
    sim_time = sim_time;
    video_bitrate = video_bitrate;
    network_bandwidth = network_bandwidth;
  })

assembled-Judged :
    (o0 : Option Bool) (o1 : Option ℕ) (o2 : Option ℕ) (o3 : Option Bool) (o4 : Option ℕ)
    (o5 : Option ℕ) (o6 : Option ℕ) (o7 : Option ℕ)
    → Judged
        (record {
          log = o0;
          log_id = o1;
          max_concurrent_send = o2;
          max_size_block = o3;
          segment_length = o4;
          sim_time = o5;
          video_bitrate = o6;
          network_bandwidth = o7;
        })
        (assembled o0 o1 o2 o3 o4 o5 o6 o7)
assembled-Judged none o1 o2 o3 o4 o5 o6 o7 = inr (refl, λ p h. let e = h.0 in cc)
assembled-Judged (some v0) none o2 o3 o4 o5 o6 o7 = inr (refl, λ p h. let e = h.1 in cc)
assembled-Judged (some v0) (some v1) none o3 o4 o5 o6 o7 = inr (refl, λ p h. let e = h.2 in cc)
assembled-Judged (some v0) (some v1) (some v2) none o4 o5 o6 o7 =
    inr (refl, λ p h. let e = h.3 in cc)
assembled-Judged (some v0) (some v1) (some v2) (some v3) none o5 o6 o7 =
    inr (refl, λ p h. let e = h.4 in cc)
assembled-Judged (some v0) (some v1) (some v2) (some v3) (some v4) none o6 o7 =
    inr (refl, λ p h. let e = h.5 in cc)
assembled-Judged (some v0) (some v1) (some v2) (some v3) (some v4) (some v5) none o7 =
    inr (refl, λ p h. let e = h.6 in cc)
assembled-Judged (some v0) (some v1) (some v2) (some v3) (some v4) (some v5) (some v6) none =
    inr (refl, λ p h. let e = h.7 in cc)
assembled-Judged (some v0) (some v1) (some v2) (some v3) (some v4) (some v5) (some v6) (some v7) =
    inl (
      record {
        log = v0;
        log_id = v1;
        max_concurrent_send = v2;
        max_size_block = v3;
        segment_length = v4;
        sim_time = v5;
        video_bitrate = v6;
        network_bandwidth = v7;
      },
      refl,
      (refl, refl, refl, refl, refl, refl, refl, refl),
    )

module _ (items : List Text) (w : WithoutBars items) where
  parse_at-read :
      {A : Type 0} (parse : Text → Option A) (name : Text)
      → parse_at parse (table_of (write_items items)) name ≡ expect (read parse name items)
  parse_at-read parse name =
      ap (λ o. expect o >>= λ v. expect (parse v)) (get-table_of name items w)
      ∙ found (last_value name items)
    where
      found : (o : Option Text) → (expect o >>= λ v. expect (parse v)) ≡ expect (and_parse parse o)
      found (some value) = refl
      found none = refl

  write_items-Judged : Judged (readings items) (custom_instance_params (write_items items))
  unfolding custom_instance_params
  write_items-Judged =
      rw
        (
          parse_at-read parse_bool (codes "log"),
          parse_at-read parse_usize (codes "log_id"),
          parse_at-read parse_usize (codes "max_concurrent_send"),
          parse_at-read parse_bool (codes "max_size_block"),
          parse_at-read parse_usize (codes "segment_length"),
          parse_at-read parse_usize (codes "sim_time"),
          parse_at-read parse_usize (codes "video_bitrate"),
          parse_at-read parse_usize (codes "network_bandwidth"),
        )
        (assembled-Judged (read parse_bool (codes "log") items)
          (read parse_usize (codes "log_id") items)
          (read parse_usize (codes "max_concurrent_send") items)
          (read parse_bool (codes "max_size_block") items)
          (read parse_usize (codes "segment_length") items)
          (read parse_usize (codes "sim_time") items)
          (read parse_usize (codes "video_bitrate") items)
          (read parse_usize (codes "network_bandwidth") items))

-- The parameters in a text, by the items without bars that it is written of.
abbrev pub JudgedText : Text → Type 0
JudgedText params =
    (items : List Text) × WithoutBars items
    × (params ≡ write_items items)
    × Judged (readings items) (custom_instance_params params)

-- For any text, which is made of items without bars, with bars between them: `custom_instance_params`
-- returns parameters exactly when each of the eight names is given a value by an item, and the last
-- such value is accepted by `parse_bool` or `parse_usize`; these are the values returned. In all
-- other cases it panics. An item without an equality sign gives no value, and the value of an item
-- with several ends at the second.
pub custom_instance_params-Judged : (params : Text) → JudgedText params
custom_instance_params-Judged params =
    let items = split b'|' params in
    let bars = split-WithoutBars params in
    let written = write_items-split params in
    (
      items,
      bars,
      sym written,
      subst (λ text. Judged (readings items) (custom_instance_params text)) written
          (write_items-Judged items bars),
    )
