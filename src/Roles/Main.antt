-- ===== src/Roles/Main.antt =====
-- The start of a node and the choice of its role (plans/streaming_test/src/main.rs).
use live_tests.Base.{ℕ, List, [], ◌∷◌, Bool, ◌==◌, if◌then◌else◌}
use live_tests.Exchange.{Cid, Bytes}
use live_tests.Client.{Topic}
use live_tests.VideoPlayer.{StreamerMessage}
use live_tests.VideoPlayer.Run.{Turn}
use live_tests.Roles.Talk.{
  id, wait_network_initialized, signal, Environment, by_runner, not_connected, End, fails,
}
use live_tests.Roles.Enter.{RunParameters, Libp2p, Machine}
use live_tests.Roles.Streamer
use live_tests.Roles.Streamer.{streamer}
use live_tests.Roles.Viewer.{viewer}

module _ {R : Type 0} (fill_bytes : R → ℕ → R × List ℕ) (digest : List ℕ → Cid)
    (to_vec : StreamerMessage → Bytes) (gossipsub_topic : Topic) (env : Environment)
    (seed_from_u64 : ℕ → R) (lib : Libp2p) (runenv : RunParameters) (machine : Machine) where
  -- `connected` says whether `Client::new` succeeds, and `sim_id` is the count of the state `id`.
  unfoldable pub main : Bool → ℕ → List Streamer.Turn → List Turn → End (Unit {0})
  unfolding streamer viewer
  main connected sim_id streamed watched =
      let requests = wait_network_initialized ∷ signal id ∷ [] in
      let role =
        if sim_id == 1
        then streamer fill_bytes digest to_vec gossipsub_topic env seed_from_u64 lib runenv machine
            sim_id streamed requests
        else viewer gossipsub_topic env lib runenv machine watched requests in
      let signalled = if env.accepts (signal id) then role else fails by_runner requests in
      let initialized =
        if env.accepts wait_network_initialized
        then signalled
        else fails by_runner (wait_network_initialized ∷ []) in
      if connected then initialized else fails not_connected []
