-- ===== src/Params.antt =====
-- The parameters of a test case, read from the text that the test runner passes on
-- (`custom_instance_params` of plans/streaming_test/src/utils.rs). A text is a list of code points.
pub mod Dict
pub mod Numbers
pub mod Parts
pub mod Written
pub mod Judged
mod Tests
use live_tests.Base.{
  ℕ, ◌<◌, List, [], ◌∷◌, Bool, true, false, Option, none, some, Outcome, ok, panic, unwrapped,
  ◌>>=◌, ◌==◌, if◌then◌else◌, word,
}
use Dict.{Text, codes, get, insert}
use Numbers.{parse_usize, parse_bool}

pub record TestCaseParams : Type 0 where
  pub log : Bool
  pub log_id : ℕ
  pub max_concurrent_send : ℕ
  pub max_size_block : Bool
  pub segment_length : ℕ
  pub sim_time : ℕ
  pub video_bitrate : ℕ
  pub network_bandwidth : ℕ

-- A character in front of the first part.
abbrev pub into_first : ℕ → List Text → List Text
into_first c [] = (c ∷ []) ∷ []
into_first c (part ∷ parts) = (c ∷ part) ∷ parts

-- `text.split(separator)`: there is always one part, which may be empty.
unfoldable pub split : ℕ → Text → List Text
split separator [] = [] ∷ []
split separator (c ∷ text) =
    let parts = split separator text in if c == separator then [] ∷ parts else into_first c parts

-- An item with a name and a value is inserted, and any other is passed over.
abbrev pub insert_item : List Text → List (Text × Text) → List (Text × Text)
insert_item (name ∷ value ∷ _) table = insert name value table
insert_item _ table = table

-- The loop over the items.
unfoldable pub table_from : List Text → List (Text × Text) → List (Text × Text)
unfolding split insert
table_from [] table = table
table_from (item ∷ items) table = table_from items (insert_item (split b'=' item) table)

-- `expect` on a parsed value, and `table[name]`.
abbrev pub expect {ℓ} : {A : Type ℓ} → Option A → Outcome A
expect (some a) = ok a
expect none = panic unwrapped

abbrev pub parse_at {ℓ} : {A : Type ℓ} → (Text → Option A) → List (Text × Text) → Text → Outcome A
parse_at parse table name = do value ← expect (get name table); expect (parse value)

unfoldable pub from_table : List (Text × Text) → Outcome TestCaseParams
unfolding get parse_usize parse_bool
from_table table = do
  log ← parse_at parse_bool table (codes "log")
  log_id ← parse_at parse_usize table (codes "log_id")
  max_concurrent_send ← parse_at parse_usize table (codes "max_concurrent_send")
  max_size_block ← parse_at parse_bool table (codes "max_size_block")
  segment_length ← parse_at parse_usize table (codes "segment_length")
  sim_time ← parse_at parse_usize table (codes "sim_time")
  video_bitrate ← parse_at parse_usize table (codes "video_bitrate")
  network_bandwidth ← parse_at parse_usize table (codes "network_bandwidth")
  ok (record {
    log = log;
    log_id = log_id;
    max_concurrent_send = max_concurrent_send;
    max_size_block = max_size_block;
    segment_length = segment_length;
    sim_time = sim_time;
    video_bitrate = video_bitrate;
    network_bandwidth = network_bandwidth;
  })

unfoldable pub custom_instance_params : Text → Outcome TestCaseParams
unfolding split table_from from_table
custom_instance_params params = from_table (table_from (split b'|' params) [])
