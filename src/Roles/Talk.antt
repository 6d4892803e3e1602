-- ===== src/Roles/Talk.antt =====
-- What a role does with the test runner and with its client handle (plans/streaming_test/src/roles/
-- and main.rs). The test runner is not part of the repository: whether it accepts a request, and
-- what the service does while a role waits, are an Environment.
use live_tests.Base.{
  ℕ, List, [], ◌∷◌, ◌++◌, Bool, Option, none, some, Outcome, ok, panic, Fault, if◌then◌else◌,
}
use live_tests.Client.{Sender}
use live_tests.Client.Handle.{IpfsClient}
use live_tests.Params.Dict.{Text}
use live_tests.Service.Events.{Reply}
use live_tests.Ipfs.{Ipfs, receive}

-- INIT_STATE, NET_STATE, BOOTSTRAP_STATE, STOP_STATE, and the state whose count is the `sim_id`.
pub data State : Type 0 where
  init net bootstrapped stop id : State

-- The fields that are the same in every role, the name of the network and the rates of loss, are
-- left out.
pub record NetworkConfiguration : Type 0 where
  pub latency : ℕ
  pub jitter : ℕ
  pub bandwidth : ℕ

-- A request to the test runner. `subscribe` and `publish` are on REDIS_TOPIC.
pub data Request : Type 0 where
  wait_network_initialized : Request
  configure_network : NetworkConfiguration → Request
  subscribe : Request
  signal_and_wait : State → ℕ → Request
  publish : Text → Request
  signal : State → Request
  barrier : State → ℕ → Request
  record_success : Request

pub record Environment : Type 0 where
  pub accepts : Request → Bool
  pub meanwhile : Ipfs → Ipfs

-- `requests` are those made so far, oldest first.
pub record Node : Type 0 where
  pub ipfs : Ipfs
  pub requests : List Request

-- What a `?` then returns: a refusal of the test runner or of libp2p, or that there is no runner.
pub data Refusal : Type 0 where
  by_runner by_libp2p not_connected : Refusal

-- How far a role has come: past some statements, or, with the requests made so far, to an early
-- return, to a panic, or to a wait that does not end.
pub data End (A : Type 0) : Type 0 where
  done : A → Node → End A
  fails : Refusal → List Request → End A
  panics : Fault → List Request → End A
  awaits : List Request → End A

abbrev pub Role : Type 0 → Type 0
Role A = Node → End A

abbrev pub continue : {A B : Type 0} → End A → (A → Role B) → End B
continue (done a n) f = f a n
continue (fails e log) f = fails e log
continue (panics e log) f = panics e log
continue (awaits log) f = awaits log

infixl 5 ◌>>=◌ ◌>>◌
abbrev pub ◌>>=◌ : {A B : Type 0} → Role A → (A → Role B) → Role B
◌>>=◌ m f n = continue (m n) f

abbrev pub ◌>>◌ : {B : Type 0} → Role (Unit {0}) → Role B → Role B
m >> k = m >>= λ _. k

abbrev pub return : {A : Type 0} → A → Role A
return a n = done a n

-- A wait that does not end.
abbrev pub wait : {A : Type 0} → Role A
wait n = awaits n.requests

abbrev pub requested : Request → Node → Node
requested r n = record n { requests = n.requests ++ r ∷ [] }

-- A call that cannot be refused, or whose refusal is only printed.
abbrev pub tell : Request → Role (Unit {0})
tell r n = done tt (requested r n)

abbrev pub answered : Node → Option (Outcome Reply) → End Reply
answered n none = awaits n.requests
answered n (some (ok r)) = done r n
answered n (some (panic e)) = panics e n.requests

abbrev pub called : {A : Type 0} → Node → Outcome (IpfsClient × A) → End A
called n (ok (c, a)) = done a (record n { ipfs = record n.ipfs { client = c } })
called n (panic e) = panics e n.requests

-- A method without an answer.
abbrev pub no_answer : Outcome IpfsClient → Outcome (IpfsClient × Unit {0})
no_answer (ok c) = ok (c, tt)
no_answer (panic e) = panic e

-- A method of the client handle, up to its await.
abbrev pub call : {A : Type 0} → (IpfsClient → Outcome (IpfsClient × A)) → Role A
call f n = called n (f n.ipfs.client)

module _ (env : Environment) where
  -- A call of the test runner with a `?`.
  abbrev pub ask : Request → Role (Unit {0})
  ask r n =
      if env.accepts r then done tt (requested r n) else fails by_runner (requested r n).requests

  -- An answer of the service.
  abbrev pub await : Sender → Role Reply
  await k n =
      let ipfs = env.meanwhile n.ipfs in answered (record n { ipfs = ipfs }) (receive k ipfs)
