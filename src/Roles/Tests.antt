-- ===== src/Roles/Tests.antt =====
-- Two nodes that meet, and a segment of three bytes.
use live_tests.Base.{
  ℕ, zero, suc, ◌+◌, ◌-◌, ◌≡◌, refl, ap, List, [], ◌∷◌, ◌++◌, map, Bool, true, false, Option, none,
  some, ok, panic, out_of_range, mul64, Distinct, Distinct-push, position, arith,
}
use live_tests.Exchange.{add_block}
use live_tests.Exchange.Represents.{default-Represents}
use live_tests.Client.Handle
use live_tests.Service
use live_tests.Service.Events.{World, accepted, refused, new_listen_addr}
use live_tests.Params.{TestCaseParams, split}
use live_tests.Params.Dict.{Text, codes}
use live_tests.VideoPlayer.Run.{sleep}
use live_tests.Ipfs.{compose_network, take, hear, receive}
use live_tests.Service.Run.{event}
use live_tests.Service.Table.{get, insert, delete}
use live_tests.Roles.Addresses.{announcement, collected, collect_addresses}
use live_tests.Roles.Collected.{
  Heard, failure, from, Readable, message_of, collect_addresses-first_nodes,
}
use live_tests.Roles.Everyone.{heard_peers, collect_addresses_everyone}
use live_tests.Roles.Unreadable.{no_second, collect_addresses-Unreadable}
use live_tests.Roles.Announced.{Announces, generate_video-Announces}
use live_tests.Blocks.{blocks_from, size_at}
use live_tests.Roles.Streamer
use live_tests.Roles.Talk.{Environment, End, done}
use live_tests.Roles.Enter.{RunParameters, Libp2p, Machine}
use live_tests.Roles.Main.{main}
use live_tests.Roles.Follows.{Follows}
use live_tests.Roles.Ends.{main_script, main-Follows}

-- Texts of one character.
abbrev to_text : ℕ → Text
to_text n = (n + 33) ∷ []

abbrev parse_text : Text → Option ℕ
parse_text [] = none
parse_text (c ∷ text) = some (c - 33)

texts-Readable : Readable to_text to_text parse_text parse_text
texts-Readable = record {
  peer_id = λ p. ap some (omega arith);
  multiaddr = λ a. ap some (omega arith);
  peer_id_word = λ p. (omega arith, tt);
  multiaddr_word = λ a. (omega arith, tt);
}

-- The node's own message comes back, and an error, before those of two others.
abbrev heard : List Heard
heard = from (7, 70) ∷ failure 1 ∷ from (8, 80) ∷ from (9, 90) ∷ []

collect_addresses-first_nodes_example :
    collect_addresses parse_text parse_text 7 2 false
      (map (message_of to_text to_text parse_text parse_text texts-Readable) heard)
    ≡ ok (collected (8 ∷ []) (80 ∷ []))
collect_addresses-first_nodes_example =
    collect_addresses-first_nodes to_text to_text parse_text parse_text texts-Readable 7 2 false
      heard (omega arith) (omega arith)

-- The announcements of all three nodes, and an error.
abbrev all_heard : List Heard
all_heard = from (7, 70) ∷ failure 1 ∷ from (8, 80) ∷ from (9, 90) ∷ []

all_heard-Distinct : Distinct (heard_peers all_heard)
unfolding position
all_heard-Distinct =
    Distinct-push (7 ∷ 8 ∷ []) 9
      (Distinct-push (7 ∷ []) 8 (Distinct-push [] 7 (λ i j a h k. cc) refl) refl) refl

collect_addresses_everyone_example :
    collect_addresses parse_text parse_text 7 3 false
      (map (message_of to_text to_text parse_text parse_text texts-Readable) all_heard)
    ≡ ok (collected (8 ∷ 9 ∷ []) (80 ∷ 90 ∷ []))
collect_addresses_everyone_example =
    collect_addresses_everyone to_text to_text parse_text parse_text texts-Readable 7 false
      all_heard 0 (omega arith) (omega arith) all_heard-Distinct refl

-- A payload without a second part.
collect_addresses-Unreadable_example :
    collect_addresses parse_text parse_text 7 3 false (
      map (message_of to_text to_text parse_text parse_text texts-Readable) (from (8, 80) ∷ [])
      ++ accepted (codes "x") ∷ [])
    ≡ panic out_of_range
unfolding split
collect_addresses-Unreadable_example =
    collect_addresses-Unreadable to_text to_text parse_text parse_text texts-Readable 7 3 false
      (from (8, 80) ∷ []) (codes "x") [] out_of_range (omega arith) (omega arith)
      (no_second 87 refl refl)

abbrev world : World
world = record {
  publish_answer = λ _ _. accepted 0;
  subscribe_answer = λ _. accepted true;
  bootstrap_answer = refused 1;
  listen_answer = λ _. accepted 4;
  topic_hash = λ t. t;
  listening = λ _. true;
}

abbrev small : TestCaseParams
small = record {
  log = false;
  log_id = 1;
  max_concurrent_send = 4;
  max_size_block = false;
  segment_length = 1;
  sim_time = 1;
  video_bitrate = 24;
  network_bandwidth = 100;
}

-- A generator of zeros, and the length as the hash.
abbrev zeros : ℕ → List ℕ
zeros zero = []
zeros (suc n) = 0 ∷ zeros n

abbrev fill_bytes : ℕ → ℕ → ℕ × List ℕ
fill_bytes rng n = (rng + n, zeros n)

abbrev digest : List ℕ → ℕ
digest [] = 0
digest (b ∷ bytes) = digest bytes + 1

generate_video-Announces_example :
    Announces fill_bytes digest (λ msg. msg.count ∷ []) 5 world (compose_network 2) [] 11 1 small 99
unfolding compose_network Handle.new Service.new mul64
generate_video-Announces_example =
    generate_video-Announces fill_bytes digest (λ msg. msg.count ∷ []) 5 world (compose_network 2)
      [] 11 1 small 99 (omega arith) refl refl default-Represents refl

-- The test runner accepts everything; while a role waits, its service receives the commands and
-- hears of the address that it listens on.
abbrev env : Environment
env = record {
  accepts = λ _. true;
  meanwhile = λ n. hear world (new_listen_addr 4 70) (take world (take world (take world n)));
}

abbrev lib : Libp2p
lib = record {
  to_base58 = to_text;
  to_string = to_text;
  parse_peer_id = parse_text;
  parse_multiaddr = parse_text;
  with_tcp = λ ip port. 70;
}

abbrev two_nodes : RunParameters
two_nodes = record {
  test_sidecar = false;
  test_subnet = λ _. false;
  test_instance_count = 2;
  test_instance_params =
      codes
        "log=false|log_id=1|max_concurrent_send=4|max_size_block=false|segment_length=1|sim_time=1|video_bitrate=24|network_bandwidth=100";
}

abbrev machine : Machine
machine = record {
  interfaces = [];
  local_peer_id = 7;
  messages = accepted (announcement to_text to_text (8, 80)) ∷ [];
  ended = false;
}

abbrev viewing : End (Unit {0})
viewing =
    main fill_bytes digest (λ msg. []) 5 env (λ n. n) lib two_nodes machine true 2 [] (sleep ∷ [])

abbrev is_done : End (Unit {0}) → Bool
is_done (done _ _) = true
is_done _ = false

-- The viewer comes to its end.
viewing-done : is_done viewing ≡ true
unfolding main compose_network Handle.new receive hear take Service.command event get insert
    Service.new delete
viewing-done = refl

-- So does a streamer, after two segments.
abbrev streaming : End (Unit {0})
streaming =
    main fill_bytes digest (λ msg. []) 5 env (λ n. n) lib two_nodes machine true 1
      (Streamer.tick 50 ∷ Streamer.tick 51 ∷ Streamer.sleep ∷ []) []

streaming-done : is_done streaming ≡ true
unfolding main compose_network Handle.new receive hear take Service.command event get insert
    Service.new delete blocks_from size_at mul64 Handle.subscribed add_block
streaming-done = refl

main-Follows_example :
    Follows env []
      (main_script env fill_bytes digest (λ msg. []) 5 (λ n. n) lib two_nodes machine)
      viewing
main-Follows_example =
    main-Follows env fill_bytes digest (λ msg. []) 5 (λ n. n) lib two_nodes machine true 2 []
      (sleep ∷ [])
