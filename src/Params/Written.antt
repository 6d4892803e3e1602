-- ===== src/Params/Written.antt =====
-- What `custom_instance_params` (plans/streaming_test/src/utils.rs) finds at a name, for any items.
use live_tests.Base.{
  ℕ, ◌<◌, ◌≡◌, refl, ap, ◌∙◌, List, [], ◌∷◌, Bool, Option, none, some, ok, ◌>>=◌, if◌then◌else◌,
  word, arith,
}
use live_tests.Params.{
  TestCaseParams, split, insert_item, table_from, expect, parse_at, custom_instance_params,
}
use live_tests.Params.Dict.{Text, codes, text_eq, get, get-insert}
use live_tests.Params.Parts.{
  WithoutBars, write_items, split-write_items, before, behind, parts_behind, split_lem,
}
use live_tests.Params.Numbers.{
  parse_bool, parse_usize, write_bool, write_usize, parse_bool-write_bool, parse_usize-write_usize,
}

-- The name that an item gives a value is what stands in front of its first equality sign, and the
-- value is what stands behind it, up to a second one. An item without an equality sign gives none.
abbrev pub value_behind : Option Text → Option Text
value_behind none = none
value_behind (some text) = some (before b'=' text)

abbrev pub value_in : Text → Text → Option Text
value_in name item =
    if text_eq (before b'=' item) name then value_behind (behind b'=' item) else none

abbrev pub first_of : Option Text → Option Text → Option Text
first_of (some value) other = some value
first_of none other = other

-- The value of the last item that gives the name one.
abbrev pub last_value : Text → List Text → Option Text
last_value name [] = none
last_value name (item ∷ items) = first_of (last_value name items) (value_in name item)

-- What an item does to the value of a name.
get-insert_item :
    (name item : Text) (table : List (Text × Text))
    → get name (insert_item (split b'=' item) table)
      ≡ first_of (value_in name item) (get name table)
get-insert_item name item table =
    ap (λ parts. get name (insert_item parts table)) (split_lem b'=' item)
    ∙ by_value (before b'=' item) (behind b'=' item)
  where
    by_value :
        (first : Text) (rest : Option Text)
        → get name (insert_item (first ∷ parts_behind b'=' rest) table)
          ≡ first_of (if text_eq first name then value_behind rest else none) (get name table)
    by_value first none = ground arith
    by_value first (some text) =
        ap (λ parts. get name (insert_item (first ∷ parts) table)) (split_lem b'=' text)
        ∙ get-insert first name (before b'=' text) table
        ∙ ground arith

first_of_assoc : (a b c : Option Text) → first_of a (first_of b c) ≡ first_of (first_of a b) c
first_of_assoc none b c = refl
first_of_assoc (some value) b c = refl

get-table_from :
    (name : Text) (items : List Text) (table : List (Text × Text))
    → get name (table_from items table) ≡ first_of (last_value name items) (get name table)
unfolding table_from
get-table_from name [] table = refl
get-table_from name (item ∷ items) table =
    get-table_from name items (insert_item (split b'=' item) table)
    ∙ ap (first_of (last_value name items)) (get-insert_item name item table)
    ∙ first_of_assoc (last_value name items) (value_in name item) (get name table)

-- The table that `custom_instance_params` makes of the text.
abbrev pub table_of : Text → List (Text × Text)
table_of params = table_from (split b'|' params) []

pub get-table_of :
    (name : Text) (items : List Text)
    → WithoutBars items
    → get name (table_of (write_items items)) ≡ last_value name items
unfolding table_from split get
get-table_of name [] h = ground arith
get-table_of name (item ∷ items) h =
    ap (λ parts. get name (table_from parts [])) (split-write_items item items h)
    ∙ get-table_from name (item ∷ items) []
    ∙ alone (last_value name (item ∷ items))
  where
    alone : (o : Option Text) → first_of o none ≡ o
    alone (some value) = refl
    alone none = refl

-- The last values of the eight names are those of `p`, in any order and with any items around them;
-- its numbers are words.
pub record Describes (items : List Text) (p : TestCaseParams) : Type 0 where
  pub log : last_value (codes "log") items ≡ some (write_bool p.log)
  pub log_id : last_value (codes "log_id") items ≡ some (write_usize p.log_id)
  pub max_concurrent_send :
      last_value (codes "max_concurrent_send") items ≡ some (write_usize p.max_concurrent_send)
  pub max_size_block :
      last_value (codes "max_size_block") items ≡ some (write_bool p.max_size_block)
  pub segment_length :
      last_value (codes "segment_length") items ≡ some (write_usize p.segment_length)
  pub sim_time : last_value (codes "sim_time") items ≡ some (write_usize p.sim_time)
  pub video_bitrate : last_value (codes "video_bitrate") items ≡ some (write_usize p.video_bitrate)
  pub network_bandwidth :
      last_value (codes "network_bandwidth") items ≡ some (write_usize p.network_bandwidth)
  pub words :
      (p.log_id < word)
      × (p.max_concurrent_send < word)
      × (p.segment_length < word)
      × (p.sim_time < word)
      × (p.video_bitrate < word)
      × (p.network_bandwidth < word)

module _ (items : List Text) (w : WithoutBars items) where
  -- What is read at a name is the parsed last value of that name.
  read_at :
      {A : Type 0} (parse : Text → Option A) (name value : Text) (a : A)
      → last_value name items ≡ some value
      → parse value ≡ some a
      → parse_at parse (table_of (write_items items)) name ≡ ok a
  read_at parse name value a there readable =
      ap (λ o. expect o >>= λ v. expect (parse v)) (get-table_of name items w ∙ there)
      ∙ ap expect readable

  -- For items without bars, which may hold any number of equality signs: if the last values that the
  -- items give the eight names are those of `p` as they are written, and its numbers are words,
  -- then `custom_instance_params` on the items with bars between them returns `p`.
  pub custom_instance_params-write_items :
      (p : TestCaseParams) → Describes items p → custom_instance_params (write_items items) ≡ ok p
  unfolding custom_instance_params
  custom_instance_params-write_items p d =
      rw
        (
          flag (codes "log") p.log d.log,
          number (codes "log_id") p.log_id d.log_id d.words.0,
          number (codes "max_concurrent_send") p.max_concurrent_send d.max_concurrent_send
              d.words.1,
          flag (codes "max_size_block") p.max_size_block d.max_size_block,
          number (codes "segment_length") p.segment_length d.segment_length d.words.2,
          number (codes "sim_time") p.sim_time d.sim_time d.words.3,
          number (codes "video_bitrate") p.video_bitrate d.video_bitrate d.words.4,
          number (codes "network_bandwidth") p.network_bandwidth d.network_bandwidth d.words.5,
        )
        refl
    where
      flag :
          (name : Text) (b : Bool)
          → last_value name items ≡ some (write_bool b)
          → parse_at parse_bool (table_of (write_items items)) name ≡ ok b
      flag name b there = read_at parse_bool name (write_bool b) b there (parse_bool-write_bool b)

      number :
          (name : Text) (n : ℕ)
          → last_value name items ≡ some (write_usize n)
          → n < word
          → parse_at parse_usize (table_of (write_items items)) name ≡ ok n
      number name n there fits =
          read_at parse_usize name (write_usize n) n there (parse_usize-write_usize n fits)
