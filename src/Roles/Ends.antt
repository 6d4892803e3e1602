-- ===== src/Roles/Ends.antt =====
-- Every role follows the same script of requests, whatever happens.
use live_tests.Base.{
  ℕ, unwrapped, inl, inr, refl, List, [], ◌∷◌, ◌++◌, Bool, true, false, if◌then◌else◌, Outcome, ok,
  panic, ◌==◌, Bool-cases,
}
use live_tests.Exchange.{Cid, Bytes}
use live_tests.Client.{Topic, Sender}
use live_tests.Client.Handle
use live_tests.Service.Events.{
  accepted, refused, Reply, publish_reply, subscribe_reply, routed_reply, bootstrap_reply,
  listen_reply, block_reply, message_reply,
}
use live_tests.Params.{TestCaseParams, custom_instance_params}
use live_tests.VideoPlayer
use live_tests.VideoPlayer.{StreamerMessage, VideoStream}
use live_tests.VideoPlayer.Run.{Turn, Output}
use live_tests.Roles.Talk.{
  Request, id, wait_network_initialized, signal, Environment, End, Role, panics, fails, by_runner,
  not_connected,
}
use live_tests.Roles.Enter.{RunParameters, Libp2p, Machine, with_params, close_if, interval}
use live_tests.Roles.Streamer
use live_tests.Roles.Streamer.{with_answer, stream_video, streamer_with, streamer}
use live_tests.Roles.Viewer
use live_tests.Roles.Viewer.{sleeps, played, run_video, viewer_with, viewer}
use live_tests.Roles.Main.{main}
use live_tests.Roles.Follows.{
  Follows, Follows-behind, Writes, bind-Writes, quiet-Writes, nothing-PartOf, done-Follows,
  call-Writes, await-Writes,
}
use live_tests.Roles.Script.{enter_script, leave_script, enter-Writes, leave-Writes}

-- Parameters that are not read give no script.
abbrev pub script_of : (TestCaseParams → List Request) → Outcome TestCaseParams → List Request
script_of script (ok p) = script p
script_of script (panic e) = []

module _ (env : Environment) where
  stops : Writes env {A = Unit {0}} [] (λ n. panics unwrapped n.requests)
  stops n = nothing-PartOf env n.requests []

  close_if-Writes : (status : Bool) (stream : Sender) → Writes env [] (close_if status stream)
  close_if-Writes status stream n =
      done-Follows env tt (record n {
        ipfs = record n.ipfs { client = Handle.subscribed status stream n.ipfs.client };
      })

  streamer_subscribed-Writes :
      (r : Reply) (stream : Sender) → Writes env [] (Streamer.subscribed r stream)
  streamer_subscribed-Writes (subscribe_reply (accepted status)) stream =
      close_if-Writes status stream
  streamer_subscribed-Writes (subscribe_reply (refused e)) stream = done-Follows env tt
  streamer_subscribed-Writes (listen_reply a) stream = done-Follows env tt
  streamer_subscribed-Writes (publish_reply a) stream = done-Follows env tt
  streamer_subscribed-Writes routed_reply stream = done-Follows env tt
  streamer_subscribed-Writes (bootstrap_reply a) stream = done-Follows env tt
  streamer_subscribed-Writes (block_reply a) stream = done-Follows env tt
  streamer_subscribed-Writes (message_reply m) stream = done-Follows env tt

  viewer_subscribed-Writes :
      (r : Reply) (stream : Sender) → Writes env [] (Viewer.subscribed r stream)
  viewer_subscribed-Writes (subscribe_reply (accepted status)) stream =
      close_if-Writes status stream
  viewer_subscribed-Writes (subscribe_reply (refused e)) stream = stops
  viewer_subscribed-Writes (listen_reply a) stream = stops
  viewer_subscribed-Writes (publish_reply a) stream = stops
  viewer_subscribed-Writes routed_reply stream = stops
  viewer_subscribed-Writes (bootstrap_reply a) stream = stops
  viewer_subscribed-Writes (block_reply a) stream = stops
  viewer_subscribed-Writes (message_reply m) stream = stops

  played-Writes :
      (over : Bool) (out : Outcome (VideoStream × List Output)) → Writes env [] (played over out)
  played-Writes true (ok x) n = done-Follows env tt n
  played-Writes false (ok x) n = nothing-PartOf env n.requests []
  played-Writes true (panic e) n = nothing-PartOf env n.requests []
  played-Writes false (panic e) n = nothing-PartOf env n.requests []

  interval-Writes : (period : ℕ) → Writes env [] (interval period)
  interval-Writes period n = elim (Bool-cases (period == 0)) [
    | inl none_there ↦ rw none_there (nothing-PartOf env n.requests [])
    | inr some_there ↦ rw some_there (done-Follows env tt n)
  ]

  with_params-Follows :
      (out : Outcome TestCaseParams) (max : TestCaseParams → ℕ)
      (role : TestCaseParams → Role (Unit {0})) (script : TestCaseParams → List Request)
      (log : List Request)
      → ((p : TestCaseParams) → Writes env (script p) (role p))
      → Follows env log (script_of script out) (with_params out max role log)
  with_params-Follows (ok p) max role script log h = h p _
  with_params-Follows (panic e) max role script log h = nothing-PartOf env log []

  either-Follows :
      (first : Bool) (script : List Request) (x y : End (Unit {0}))
      → Follows env (wait_network_initialized ∷ signal id ∷ []) script x
      → Follows env (wait_network_initialized ∷ signal id ∷ []) script y
      → Follows env (wait_network_initialized ∷ signal id ∷ []) script (if first then x else y)
  either-Follows true script x y h k = h
  either-Follows false script x y h k = k

  -- The requests before a role.
  started-Follows :
      (script : List Request) (role : End (Unit {0}))
      → Follows env (wait_network_initialized ∷ signal id ∷ []) script role
      → (connected : Bool)
      → Follows env [] (wait_network_initialized ∷ signal id ∷ script) (
          let requests = wait_network_initialized ∷ signal id ∷ [] in
          let signalled = if env.accepts (signal id) then role else fails by_runner requests in
          let initialized =
            if env.accepts wait_network_initialized
            then signalled
            else fails by_runner (wait_network_initialized ∷ []) in
          if connected then initialized else fails not_connected [])
  started-Follows script role h false =
      nothing-PartOf env [] (wait_network_initialized ∷ signal id ∷ script)
  started-Follows script role h true = elim (Bool-cases (env.accepts wait_network_initialized)) [
    | inr declined ↦ rw declined ([], wait_network_initialized, _, refl, refl, tt, declined)
    | inl ready ↦ elim (Bool-cases (env.accepts (signal id))) [
      | inr declined ↦
          rw (ready, declined)
            (
              wait_network_initialized ∷ [],
              signal id,
              script,
              refl,
              refl,
              (rw ready refl, tt),
              declined,
            )
      | inl signalled ↦
          rw (ready, signalled)
            (Follows-behind env [] (wait_network_initialized ∷ signal id ∷ []) script role
              (rw ready refl, (rw signalled refl, tt)) h)
    ]
  ]

  module _ {R : Type 0} (fill_bytes : R → ℕ → R × List ℕ) (digest : List ℕ → Cid)
      (to_vec : StreamerMessage → Bytes) (gossipsub_topic : Topic) where
    stream_video-Writes :
        (p : TestCaseParams) (rng : R) (counter : ℕ) (turns : List Streamer.Turn)
        → Writes env []
            (stream_video fill_bytes digest to_vec gossipsub_topic env p rng counter turns)
    unfolding stream_video
    stream_video-Writes p rng counter [] = λ n. nothing-PartOf env n.requests []
    stream_video-Writes p rng counter (Streamer.sleep ∷ turns) = done-Follows env tt
    stream_video-Writes p rng counter (Streamer.tick timestamp ∷ turns) =
        quiet-Writes env _ _ _ (call-Writes env _) (λ g.
          quiet-Writes env _ _ _ (await-Writes env g.answer)
            (λ _. stream_video-Writes p g.rng g.counter turns))

    run_video-Writes :
        (turns : List Turn) (s : VideoStream)
        → Writes env [] (run_video gossipsub_topic env turns s)
    unfolding run_video
    run_video-Writes turns s = quiet-Writes env _ _ _ (interval-Writes s.segment_length) (λ _.
        quiet-Writes env _ _ _ (call-Writes env _) (λ k.
          quiet-Writes env _ _ _ (await-Writes env k.0) (λ reply.
            quiet-Writes env _ _ _ (viewer_subscribed-Writes reply k.1)
              (λ _. played-Writes (sleeps turns) _))))

    module _ (seed_from_u64 : ℕ → R) (lib : Libp2p) (runenv : RunParameters)
        (machine : Machine) where
      abbrev pub role_script : TestCaseParams → List Request
      role_script p = enter_script env lib runenv machine p ++ leave_script env lib runenv machine

      streamer_with-Writes :
          (sim_id : ℕ) (turns : List Streamer.Turn) (p : TestCaseParams)
          → Writes env (role_script p) (
              streamer_with fill_bytes digest to_vec gossipsub_topic env seed_from_u64 lib runenv
                machine sim_id turns p)
      unfolding streamer_with
      streamer_with-Writes sim_id turns p =
          bind-Writes env _ _ _ _ (enter-Writes env lib runenv machine p) (λ _.
            quiet-Writes env _ _ _ (call-Writes env _) (λ k.
              quiet-Writes env _ _ _ (await-Writes env k.0) (λ reply.
                quiet-Writes env _ _ _ (streamer_subscribed-Writes reply k.1) (λ _.
                  quiet-Writes env _ _ _ (interval-Writes p.segment_length) (λ _.
                    quiet-Writes env _ _ _ (stream_video-Writes p (seed_from_u64 sim_id) 1 turns)
                      (λ _. leave-Writes env lib runenv machine))))))

      viewer_with-Writes :
          (turns : List Turn) (p : TestCaseParams)
          → Writes env (role_script p) (viewer_with gossipsub_topic env lib runenv machine turns p)
      unfolding viewer_with
      viewer_with-Writes turns p =
          bind-Writes env _ _ _ _ (enter-Writes env lib runenv machine p) (λ _.
            quiet-Writes env _ _ _ (run_video-Writes turns (VideoPlayer.new p.segment_length))
              (λ _. leave-Writes env lib runenv machine))

      -- The requests of a node from its start.
      abbrev pub main_script : List Request
      main_script =
          wait_network_initialized
          ∷ signal id
          ∷ script_of role_script (custom_instance_params runenv.test_instance_params)

      -- Whatever its role, a node that comes to its end has made the requests of the script in
      -- their order. A node that returns early, panics or waits has made the first of them: if the
      -- test runner refused one, that was the last. None of the others was refused, unless its
      -- refusal is passed over.
      pub main-Follows :
          (connected : Bool) (sim_id : ℕ) (streamed : List Streamer.Turn) (watched : List Turn)
          → Follows env [] main_script (
              main fill_bytes digest to_vec gossipsub_topic env seed_from_u64 lib runenv machine
                connected sim_id streamed watched)
      unfolding main
      main-Follows connected sim_id streamed watched =
          let params = custom_instance_params runenv.test_instance_params in
          let requests = wait_network_initialized ∷ signal id ∷ [] in
          started-Follows _ _
            (either-Follows (sim_id == 1) _ _ _
              (with_params-Follows params _ _ role_script requests
                (streamer_with-Writes sim_id streamed))
              (with_params-Follows params _ _ role_script requests (viewer_with-Writes watched)))
            connected
