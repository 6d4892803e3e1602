-- ===== src/Roles/Streamer.antt =====
-- The streamer (roles/streamer.rs): it joins the others, generates a segment at each tick of the
-- interval until the simulation ends, and leaves.
use live_tests.Base.{ℕ, List, [], ◌∷◌, Outcome, ok, panic, mul64}
use live_tests.Exchange.{Cid, Bytes}
use live_tests.Client.{Topic, Sender}
use live_tests.Client.Handle
use live_tests.Client.Handle.{IpfsClient}
use live_tests.Service.Events.{accepted, Reply, subscribe_reply}
use live_tests.Params.{TestCaseParams, custom_instance_params}
use live_tests.VideoPlayer.{StreamerMessage}
use live_tests.Roles.Talk.{
  Request, Environment, End, done, Role, ◌>>=◌, ◌>>◌, await, call, return, wait,
}
use live_tests.Roles.Enter.{
  RunParameters, Libp2p, Machine, enter, leave, with_params, close_if, with_stream, interval,
}
use live_tests.Roles.Video.{Generated, generate_video}

-- What `select!` takes next: the end of the simulation, or a tick with the time of day.
pub data Turn : Type 0 where
  sleep : Turn
  tick : ℕ → Turn

-- The result of `subscribe`: the stream is dropped, and a refusal is printed.
abbrev pub subscribed : Reply → Sender → Role (Unit {0})
subscribed (subscribe_reply (accepted status)) stream n = close_if status stream n
subscribed _ stream n = done tt n

abbrev pub with_answer : {R : Type 0} → Outcome (Generated R) → Outcome (IpfsClient × Generated R)
with_answer (ok g) = ok (g.client, g)
with_answer (panic e) = panic e

module _ {R : Type 0} (fill_bytes : R → ℕ → R × List ℕ) (digest : List ℕ → Cid)
    (to_vec : StreamerMessage → Bytes) (gossipsub_topic : Topic) (env : Environment) where
  -- The loop, over the turns that come.
  unfoldable pub stream_video : TestCaseParams → R → ℕ → List Turn → Role (Unit {0})
  unfolding generate_video
  stream_video test_case_params rng counter [] = wait
  stream_video test_case_params rng counter (sleep ∷ turns) = return tt
  stream_video test_case_params rng counter (tick timestamp ∷ turns) = do
    g ← call (λ c. with_answer (
        generate_video fill_bytes digest to_vec gossipsub_topic c rng counter test_case_params
          timestamp))
    _ ← await env g.answer
    stream_video test_case_params g.rng g.counter turns

  module _ (seed_from_u64 : ℕ → R) (lib : Libp2p) (runenv : RunParameters) (machine : Machine) where
    -- The role with its parameters.
    unfoldable pub streamer_with : ℕ → List Turn → TestCaseParams → Role (Unit {0})
    unfolding enter Handle.subscribe stream_video leave
    streamer_with sim_id turns test_case_params = do
      enter env lib runenv machine test_case_params
      (k, stream) ← call (λ c. with_stream (Handle.subscribe gossipsub_topic c))
      reply ← await env k
      subscribed reply stream
      interval test_case_params.segment_length
      stream_video test_case_params (seed_from_u64 sim_id) 1 turns
      leave env lib runenv machine

    unfoldable pub streamer : ℕ → List Turn → List Request → End (Unit {0})
    unfolding streamer_with custom_instance_params
    streamer sim_id turns requests =
        with_params (custom_instance_params runenv.test_instance_params)
          (λ p. mul64 2 p.max_concurrent_send) (streamer_with sim_id turns) requests
