-- ===== src/Roles/Joins/Tests.antt =====
-- A neutral node that joins the others through the one it hears of.
use live_tests.Base.{ℕ, ◌+◌, ◌-◌, ◌≡◌, refl, [], ◌∷◌, Bool, true, false, Option, none, some, sub64}
use live_tests.Client.Handle
use live_tests.Service
use live_tests.Service.Events.{
  World, accepted, new_listen_addr, behaviour, kademlia_event, routing_updated,
  outbound_query_completed, bootstrap_result,
}
use live_tests.Service.Run.{event}
use live_tests.Service.Table.{get, insert, delete}
use live_tests.Params.Dict.{Text}
use live_tests.Ipfs.{Ipfs, compose_network, take, hear, receive}
use live_tests.Roles.Addresses.{announcement, collect}
use live_tests.Roles.Talk.{Environment, End, done}
use live_tests.Roles.Enter.{RunParameters, Libp2p, Machine}
use live_tests.Roles.Neutral.{neutral}
use live_tests.Roles.Follows.{Follows}
use live_tests.Roles.Joins.{neutral_script, neutral-Follows}

abbrev world : World
world = record {
  publish_answer = λ _ _. accepted 0;
  subscribe_answer = λ _. accepted true;
  bootstrap_answer = accepted 3;
  listen_answer = λ _. accepted 4;
  topic_hash = λ t. t;
  listening = λ _. true;
}

-- While the role waits, its service receives a command, and hears of the address it listens on, of
-- the peer in the DHT, and of the end of the bootstrap.
abbrev later : Ipfs → Ipfs
later n =
    let listens = hear world (new_listen_addr 4 70) (take world n) in
    let routed = hear world (behaviour (kademlia_event (routing_updated 8))) listens in
    hear world
      (behaviour (
        kademlia_event (
          outbound_query_completed 3
            (bootstrap_result (accepted (record { peer = 8; num_remaining = 0 }))))))
      routed

abbrev env : Environment
env = record { accepts = λ _. true; meanwhile = later }

-- Texts of one character.
abbrev to_text : ℕ → Text
to_text n = (n + 33) ∷ []

abbrev parse_text : Text → Option ℕ
parse_text [] = none
parse_text (c ∷ text) = some (c - 33)

abbrev lib : Libp2p
lib = record {
  to_base58 = to_text;
  to_string = to_text;
  parse_peer_id = parse_text;
  parse_multiaddr = parse_text;
  with_tcp = λ ip port. 70;
}

abbrev eight_nodes : RunParameters
eight_nodes = record {
  test_sidecar = false;
  test_subnet = λ _. false;
  test_instance_count = 8;
  test_instance_params = [];
}

abbrev machine : Machine
machine = record {
  interfaces = [];
  local_peer_id = 7;
  messages = accepted (announcement to_text to_text (8, 80)) ∷ [];
  ended = false;
}

abbrev joining : End (Unit {0})
joining = neutral (λ seed n. 0) env lib eight_nodes machine 2 []

abbrev is_done : End (Unit {0}) → Bool
is_done (done _ _) = true
is_done _ = false

joining-done : is_done joining ≡ true
unfolding neutral collect compose_network Handle.new receive hear take Service.command event get
    insert Service.new delete sub64
joining-done = refl

neutral-Follows_example :
    Follows env [] (neutral_script env (λ seed n. 0) lib eight_nodes machine) joining
neutral-Follows_example = neutral-Follows env (λ seed n. 0) lib eight_nodes machine 2 []
