-- ===== src/Params/Tests.antt =====
-- The text of the source's own test, and one without the second name.
use live_tests.Base.{◌≡◌, refl, List, [], ◌∷◌, false, ok, arith}
use live_tests.Params.{TestCaseParams, custom_instance_params}
use live_tests.Params.Dict.{Text, codes, text_eq}
use live_tests.Params.Numbers.{write_usize}
use live_tests.Params.Parts.{WithoutBars, write_items}
use live_tests.Params.Written.{Describes, custom_instance_params-write_items}
use live_tests.Params.Judged.{JudgedText, custom_instance_params-Judged}

abbrev values : TestCaseParams
values = record {
  log = false;
  log_id = 12;
  max_concurrent_send = 4;
  max_size_block = false;
  segment_length = 1;
  sim_time = 600;
  video_bitrate = 6000000;
  network_bandwidth = 10000000;
}

-- An item without a value and one with two are written too.
abbrev items : List Text
items =
    codes "bare"
    ∷ codes "log=false"
    ∷ codes "log_id=12"
    ∷ codes "max_concurrent_send=4=5"
    ∷ codes "max_size_block=false"
    ∷ codes "segment_length=1"
    ∷ codes "sim_time=600"
    ∷ codes "video_bitrate=6000000"
    ∷ codes "network_bandwidth=10000000"
    ∷ codes "log"
    ∷ []

items-text :
    write_items items
    ≡ codes
        "bare|log=false|log_id=12|max_concurrent_send=4=5|max_size_block=false|segment_length=1|sim_time=600|video_bitrate=6000000|network_bandwidth=10000000|log"
items-text = refl

items-WithoutBars : WithoutBars items
items-WithoutBars = omega arith

items-Describes : Describes items values
unfolding text_eq write_usize
items-Describes = record {
  log = refl;
  log_id = refl;
  max_concurrent_send = refl;
  max_size_block = refl;
  segment_length = refl;
  sim_time = refl;
  video_bitrate = refl;
  network_bandwidth = refl;
  words = omega arith;
}

custom_instance_params-write_items_example : custom_instance_params (write_items items) ≡ ok values
custom_instance_params-write_items_example =
    custom_instance_params-write_items items items-WithoutBars values items-Describes

custom_instance_params-Judged_example : JudgedText (codes "log=true|log_id|sim_time=1=2")
custom_instance_params-Judged_example =
    custom_instance_params-Judged (codes "log=true|log_id|sim_time=1=2")
