-- ===== src/Roles/Viewer.antt =====
-- The viewer (roles/viewer.rs): it joins the others, plays the video until the simulation ends, and
-- leaves. Then the choice of the role (main.rs).
use live_tests.Base.{List, [], ◌∷◌, Bool, true, false, Outcome, ok, panic, unwrapped}
use live_tests.Client.{Topic, Sender}
use live_tests.Client.Handle
use live_tests.Service.Events.{accepted, Reply, subscribe_reply}
use live_tests.Params.{TestCaseParams, custom_instance_params}
use live_tests.VideoPlayer
use live_tests.VideoPlayer.{VideoStream}
use live_tests.VideoPlayer.Run.{Turn, sleep, run, Output}
use live_tests.Roles.Talk.{
  Request, Environment, End, done, panics, awaits, Role, ◌>>=◌, ◌>>◌, await, call,
}
use live_tests.Roles.Enter.{
  RunParameters, Libp2p, Machine, enter, leave, with_params, close_if, with_stream, interval,
}

-- `expect` on the result of `subscribe`.
abbrev pub subscribed : Reply → Sender → Role (Unit {0})
subscribed (subscribe_reply (accepted status)) stream n = close_if status stream n
subscribed _ stream n = panics unwrapped n.requests

-- Whether the simulation ends in some turns.
abbrev pub sleeps : List Turn → Bool
sleeps [] = false
sleeps (sleep ∷ turns) = true
sleeps (_ ∷ turns) = sleeps turns

-- The end of the player's loop.
abbrev pub played : Bool → Outcome (VideoStream × List Output) → Role (Unit {0})
played true (ok _) n = done tt n
played false (ok _) n = awaits n.requests
played ended (panic e) n = panics e n.requests

module _ (gossipsub_topic : Topic) (env : Environment) where
  -- `VideoStream::run` of video_player.rs: the interval, the subscription and the loop, over the turns
  -- that come. What goes out in the turns, the announcements whose blocks a task of its own fetches
  -- and the metrics, is not followed further here.
  unfoldable pub run_video : List Turn → VideoStream → Role (Unit {0})
  unfolding Handle.subscribe run
  run_video turns s = do
    interval s.segment_length
    (k, stream) ← call (λ c. with_stream (Handle.subscribe gossipsub_topic c))
    reply ← await env k
    subscribed reply stream
    played (sleeps turns) (run s turns)

  module _ (lib : Libp2p) (runenv : RunParameters) (machine : Machine) where
    -- The role with its parameters.
    unfoldable pub viewer_with : List Turn → TestCaseParams → Role (Unit {0})
    unfolding enter run_video VideoPlayer.new leave
    viewer_with turns test_case_params = do
      enter env lib runenv machine test_case_params
      run_video turns (VideoPlayer.new test_case_params.segment_length)
      leave env lib runenv machine

    unfoldable pub viewer : List Turn → List Request → End (Unit {0})
    unfolding viewer_with custom_instance_params
    viewer turns requests =
        with_params (custom_instance_params runenv.test_instance_params)
          (λ p. p.max_concurrent_send) (viewer_with turns) requests
