-- ===== src/Ipfs/Reach/Extends.antt =====
-- What a call of the client does to the channels for answers (ipfs/client.rs).
use live_tests.Base.{
  suc, ◌+◌, ◌≤◌, ◌<◌, ◌≡◌, inl, inr, refl, ap, ◌∙◌, List, [], ◌∷◌, ◌++◌, Bool, true, false, ok,
  if◌then◌else◌, not, subst, Bool-cases, arith,
}
use live_tests.Client.{Topic, Sender, Command}
use live_tests.Client.Handle
use live_tests.Client.Handle.{IpfsClient, send_command, request}
use live_tests.Service.Uses.{one, uses_command}
use live_tests.Ipfs.Answers.{uses_commands}
use live_tests.Ipfs.Reach.{
  Call, dials, listens, adds_address, bootstraps, publishes, subscribes, closes, gets_block,
  adds_block,
}

uses_commands-append :
    (k : Sender) (cmds : List Command) (cmd : Command)
    → uses_commands k (cmds ++ cmd ∷ []) ≡ uses_commands k cmds + uses_command k cmd
uses_commands-append k [] cmd = omega arith
uses_commands-append k (c ∷ cmds) cmd = omega (arith, uses_commands-append k cmds cmd)

-- What a call does to the channels: it uses none that was made before, and a new one once.
pub record Extends (c c' : IpfsClient) : Type 0 where
  pub grows : c.next_channel ≤ c'.next_channel
  pub once : (k : Sender) → uses_commands k c'.sent ≤ uses_commands k c.sent + 1
  pub old : (k : Sender) → k < c.next_channel → uses_commands k c'.sent ≡ uses_commands k c.sent
  pub beyond : (k : Sender) → c'.next_channel ≤ k → uses_commands k c'.sent ≡ uses_commands k c.sent

-- A command without a channel, and one with a channel that is made for it.
module _ (c c' : IpfsClient) (cmd : Command) (sent : c'.sent ≡ c.sent ++ cmd ∷ []) where
  more : (k : Sender) → uses_commands k c'.sent ≡ uses_commands k c.sent + uses_command k cmd
  more k = ap (uses_commands k) sent ∙ uses_commands-append k c.sent cmd

  quiet-Extends :
      c'.next_channel ≡ c.next_channel → ((k : Sender) → uses_command k cmd ≡ 0) → Extends c c'
  quiet-Extends same quiet = record {
    grows = omega arith;
    once = λ k. omega (arith, more k, quiet k);
    old = λ k h. omega (arith, more k, quiet k);
    beyond = λ k h. omega (arith, more k, quiet k);
  }

  made-Extends :
      (j : Sender)
      → c.next_channel ≤ j
      → j < c'.next_channel
      → ((k : Sender) → uses_command k cmd ≡ one k j)
      → Extends c c'
  made-Extends j low high made = record {
    grows = omega arith;
    once = λ k. ground (arith, more k, made k);
    old = λ k h. ground (arith, more k, made k);
    beyond = λ k h. ground (arith, more k, made k);
  }

send_command-sent :
    (cmd : Command) (c c' : IpfsClient)
    → send_command cmd c ≡ ok c'
    → (c'.next_channel ≡ c.next_channel) × (c'.sent ≡ c.sent ++ cmd ∷ [])
send_command-sent cmd c c' e = elim (Bool-cases c.service_alive) [
  | inl alive ↦ ground arith
  | inr dead ↦ ground arith
]

request-Extends :
    (cmd : Sender → Command) (c c' : IpfsClient) (k : Sender)
    → ((k j : Sender) → uses_command k (cmd j) ≡ one k j)
    → request cmd c ≡ ok (c', k)
    → Extends c c'
request-Extends cmd c c' k made e =
    let j = c.next_channel in
    let (count, sent) : (c'.next_channel ≡ suc j) × (c'.sent ≡ c.sent ++ cmd j ∷ []) =
      ground arith in
    made-Extends c c' (cmd j) sent j (omega arith) (omega arith) (λ k. made k j)

subscribe-Extends :
    (topic : Topic) (c c' : IpfsClient) (k stream : Sender)
    → Handle.subscribe topic c ≡ ok (c', k, stream)
    → Extends c c'
unfolding Handle.subscribe
subscribe-Extends topic c c' k stream e =
    let j = c.next_channel in
    let cmd = Command.subscribe topic (suc j) j in
    let (count, sent) : (c'.next_channel ≡ suc (suc j)) × (c'.sent ≡ c.sent ++ cmd ∷ []) =
      ground arith in
    made-Extends c c' cmd sent (suc j) (omega arith) (omega arith) (λ k. refl)

subscribed-Extends :
    (status : Bool) (stream : Sender) (c : IpfsClient)
    → Extends c (Handle.subscribed status stream c)
unfolding Handle.subscribed
subscribed-Extends status stream c = closed status
  where
    closed :
        (new_topic : Bool)
        → Extends c (if not new_topic then record c { closed = stream ∷ c.closed } else c)
    closed true = record {
      grows = omega arith;
      once = λ k. omega arith;
      old = λ k h. refl;
      beyond = λ k h. refl;
    }
    closed false = record {
      grows = omega arith;
      once = λ k. omega arith;
      old = λ k h. refl;
      beyond = λ k h. refl;
    }

pub Call-Extends : (c c' : IpfsClient) → Call c c' → Extends c c'
unfolding Handle.dial Handle.listen_on Handle.dht_add_addr Handle.dht_bootstrap Handle.publish
    Handle.get_block Handle.add_block
Call-Extends c c' (dials a e) =
    let (count, sent) = send_command-sent (Command.dial a) c c' e in
    quiet-Extends c c' (Command.dial a) sent count (λ k. refl)
Call-Extends c c' (adds_block b e) =
    let (count, sent) = send_command-sent (Command.block_add b) c c' e in
    quiet-Extends c c' (Command.block_add b) sent count (λ k. refl)
Call-Extends c c' (listens a k e) =
    request-Extends (λ j. Command.listen_on a j) c c' k (λ k j. refl) e
Call-Extends c c' (adds_address p a k e) =
    request-Extends (λ j. Command.dht_add p a j) c c' k (λ k j. refl) e
Call-Extends c c' (bootstraps k e) =
    request-Extends (λ j. Command.bootstrap j) c c' k (λ k j. refl) e
Call-Extends c c' (publishes topic content k e) =
    request-Extends (λ j. Command.publish topic content j) c c' k (λ k j. refl) e
Call-Extends c c' (subscribes topic k stream e) = subscribe-Extends topic c c' k stream e
Call-Extends c c' (closes status stream e) =
    subst (Extends c) e (subscribed-Extends status stream c)
Call-Extends c c' (gets_block cid k e) =
    request-Extends (λ j. Command.block_get cid j) c c' k (λ k j. refl) e
