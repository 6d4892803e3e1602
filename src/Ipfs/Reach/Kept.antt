-- ===== src/Ipfs/Reach/Kept.antt =====
-- The channels for answers over the steps of a client and its service (ipfs/mod.rs).
use live_tests.Base.{
  ℕ, zero, suc, ◌+◌, ◌≤◌, ◌≡◌, inl, inr, refl, ap, List, [], ◌∷◌, Bool, true, false, some, Outcome,
  ok, panic, if◌then◌else◌, ltb, ltb→lt, ltb→le, Bool-cases, arith,
}
use live_tests.Client.{Sender, Command}
use live_tests.Client.Handle
use live_tests.Client.Handle.{IpfsClient, send_command, request}
use live_tests.Service
use live_tests.Service.{Service, command}
use live_tests.Service.Events.{SwarmEvent, World}
use live_tests.Service.Run.{event}
use live_tests.Service.Uses.{uses, uses_command, Spends}
use live_tests.Service.Uses.Commands.{command-Spends}
use live_tests.Service.Uses.Turns.{event-Spends}
use live_tests.Ipfs.{Ipfs, compose_network, take, take_times, take_from, hear, settle}
use live_tests.Ipfs.Answers.{uses_commands, uses_ipfs}
use live_tests.Ipfs.Reach.{Step, calls, takes, hears, Reach, here, after, Fresh}
use live_tests.Ipfs.Reach.Extends.{Call-Extends}

-- The service uses no channel that is not used already.
settle-uses :
    (k : Sender) (budget : ℕ) (out : Outcome Service) (n : Ipfs)
    → Spends k budget out
    → uses k n.service ≤ budget
    → uses_ipfs k (settle out n) ≤ uses_commands k n.client.sent + budget
settle-uses k budget (ok t) n h le = omega arith
settle-uses k budget (panic e) n h le = omega arith

take-uses : (k : Sender) (world : World) (n : Ipfs) → uses_ipfs k (take world n) ≤ uses_ipfs k n
unfolding take
take-uses k world n = taken n.client.sent refl
  where
    taken :
        (queue : List Command)
        → n.client.sent ≡ queue
        → uses_ipfs k (take_from world n queue) ≤ uses_ipfs k n
    taken [] e = omega arith
    taken (cmd ∷ rest) e =
        let same = ap (uses_commands k) e in
        omega (
          arith,
          settle-uses k (uses k n.service + uses_command k cmd) (command world n.service cmd)
              (record n { client = record n.client { sent = rest } })
              (command-Spends k world n.service cmd) (omega arith),
        )

hear-uses :
    (k : Sender) (world : World) (e : SwarmEvent) (n : Ipfs)
    → uses_ipfs k (hear world e n) ≤ uses_ipfs k n
unfolding hear
hear-uses k world e n = heard n.client.service_alive
  where
    heard :
        (alive : Bool)
        → uses_ipfs k (if alive then settle (event world n.service (some e)) n else n)
          ≤ uses_ipfs k n
    heard true =
        settle-uses k (uses k n.service) (event world n.service (some e)) n
          (event-Spends k world n.service (some e)) (omega arith)
    heard false = omega arith

-- No step of the service uses a channel more often, and none makes one.
settle-next :
    (out : Outcome Service) (n : Ipfs) → (settle out n).client.next_channel ≡ n.client.next_channel
settle-next (ok t) n = refl
settle-next (panic e) n = refl

take-next : (world : World) (n : Ipfs) → (take world n).client.next_channel ≡ n.client.next_channel
unfolding take
take-next world n = taken n.client.sent
  where
    taken :
        (queue : List Command)
        → (take_from world n queue).client.next_channel ≡ n.client.next_channel
    taken [] = refl
    taken (cmd ∷ rest) = settle-next (command world n.service cmd) _

hear-next :
    (world : World) (e : SwarmEvent) (n : Ipfs)
    → (hear world e n).client.next_channel ≡ n.client.next_channel
unfolding hear
hear-next world e n = heard n.client.service_alive
  where
    heard :
        (alive : Bool)
        → (if alive then settle (event world n.service (some e)) n else n).client.next_channel
          ≡ n.client.next_channel
    heard true = settle-next (event world n.service (some e)) n
    heard false = refl

pub Step-Fresh : (n t : Ipfs) → Step n t → Fresh n → Fresh t
Step-Fresh n _ (calls c call) f =
    let x = Call-Extends n.client c call in
    record {
      once = λ k. elim (Bool-cases (ltb k n.client.next_channel)) [
        | inl low ↦ omega (arith, x.old k (ltb→lt _ _ low), f.once k)
        | inr high ↦ omega (arith, x.once k, f.unused k (ltb→le _ _ high))
      ];
      unused = λ k h. omega (arith, x.grows, x.beyond k h, f.unused k);
    }
Step-Fresh n _ (takes world) f = record {
  once = λ k. omega (arith, take-uses k world n, f.once k);
  unused = λ k h. omega (arith, take-uses k world n, take-next world n, f.unused k);
}
Step-Fresh n _ (hears world e) f = record {
  once = λ k. omega (arith, hear-uses k world e n, f.once k);
  unused = λ k h. omega (arith, hear-uses k world e n, hear-next world e n, f.unused k);
}

pub take_times-Fresh : (world : World) (k : ℕ) (n : Ipfs) → Fresh n → Fresh (take_times world k n)
take_times-Fresh world zero n f = f
take_times-Fresh world (suc k) n f =
    take_times-Fresh world k (take world n) (Step-Fresh n _ (takes world) f)

pub Reach-StaysFresh : {s t : Ipfs} → Reach s t → Fresh s → Fresh t
Reach-StaysFresh here f = f
Reach-StaysFresh (after r st) f = Step-Fresh _ _ st (Reach-StaysFresh r f)

compose_network-Fresh : (max_concurrent_send : ℕ) → Fresh (compose_network max_concurrent_send)
unfolding compose_network Handle.new Service.new
compose_network-Fresh max = record { once = λ k. omega arith; unused = λ k h. omega arith }

-- Whatever the order of the client's calls, of the service's receiving and of the swarm's events:
-- every channel for an answer is used at most once, by a waiting command, a table of the service or
-- an answer that was sent, so no channel is answered twice; and none is used before it is made.
pub Reach-Fresh :
    (max_concurrent_send : ℕ) (n : Ipfs) → Reach (compose_network max_concurrent_send) n → Fresh n
Reach-Fresh max n r = Reach-StaysFresh r (compose_network-Fresh max)
