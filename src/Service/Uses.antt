-- ===== src/Service/Uses.antt =====
-- How often the service uses a channel for an answer: a sender that waits in a table, or an answer
-- that was sent. No step uses a channel more often than before, but for the command that brings it.
pub mod Commands
pub mod Turns
use live_tests.Base.{
  ℕ, suc, ◌+◌, ◌≤◌, ◌≡◌, inl, inr, refl, ap, List, [], ◌∷◌, ◌++◌, Bool, true, false, not, Option,
  none, some, Outcome, ok, panic, ◌>>=◌, length, leb, ◌==◌, if◌then◌else◌, Bool-cases, arith,
}
use live_tests.Exchange.{
  PeerId, Cid, Block, BlockExchange, add_block, remove_want, add_want, iter_wanted_blocks,
}
use live_tests.Client.{
  Sender, Command, listen_on, dht_add, bootstrap, publish, subscribe, block_get, block_add, dial,
}
use live_tests.Service.{
  Service, new, emit, send, displaced, command, answer_if, gossipsub, bootstrapped, kademlia,
}
use live_tests.Service.Table.{get, insert, delete, contains, discard}
use live_tests.Service.Events.{
  Answer, Answer-cases, accepted, refused, World, Reply, publish_reply, subscribe_reply,
  routed_reply, bootstrap_reply, listen_reply, block_reply, message_reply, Effect, publishes,
  subscribes, adds_address, bootstraps, listens_on, wants_block, dials, sends_block, replies,
  KademliaEvent, GossipsubEvent, BitswapEvent, SwarmEvent, ComposedEvent, received_block,
  received_want, received_cancel, message, outbound_query_completed, bootstrap_result,
  routing_updated, other_result, inbound_request, unroutable_peer, routable_peer,
  pending_routable_peer, subscribed, unsubscribed, not_supported, ping, kademlia_event,
  gossipsub_event, bitswap_event, behaviour, new_listen_addr, BootstrapOk,
}
use live_tests.Service.Bitswap.{send_first, serve, bitswap}
use live_tests.Service.Run.{composed, event, Turn, swarm_next, cmd_next, run}

abbrev pub one : Sender → Sender → ℕ
one k sender = if k == sender then 1 else 0

abbrev pub uses_option : Sender → Option Sender → ℕ
uses_option k none = 0
uses_option k (some sender) = one k sender

abbrev pub uses_table : Sender → List (ℕ × Sender) → ℕ
uses_table k [] = 0
uses_table k ((_, sender) ∷ m) = one k sender + uses_table k m

-- A message on a topic goes over a stream, and is no answer.
abbrev pub uses_reply : Sender → Sender → Reply → ℕ
uses_reply k sender (message_reply m) = 0
uses_reply k sender _ = one k sender

abbrev pub uses_effect : Sender → Effect → ℕ
uses_effect k (replies sender r) = uses_reply k sender r
uses_effect k _ = 0

abbrev pub uses_effects : Sender → List Effect → ℕ
uses_effects k [] = 0
uses_effects k (f ∷ effects) = uses_effect k f + uses_effects k effects

abbrev pub uses : Sender → Service → ℕ
uses k s =
    uses_table k s.routing_updates
    + uses_table k s.pending_bootstrap
    + uses_table k s.pending_listen
    + uses_table k s.pending_get_block
    + uses_effects k s.effects

-- The sender that a command brings.
abbrev pub uses_command : Sender → Command → ℕ
uses_command k (listen_on _ sender) = one k sender
uses_command k (dht_add _ _ sender) = one k sender
uses_command k (bootstrap sender) = one k sender
uses_command k (publish _ _ sender) = one k sender
uses_command k (subscribe _ sender _) = one k sender
uses_command k (block_get _ sender) = one k sender
uses_command k (block_add _) = 0
uses_command k (dial _) = 0

abbrev pub Spends : Sender → ℕ → Outcome Service → Type 0
Spends k budget (ok t) = uses k t ≤ budget
Spends k budget (panic e) = Unit

module _ (k : Sender) where
  pub uses_effects-append :
      (xs : List Effect) (f : Effect)
      → uses_effects k (xs ++ f ∷ []) ≡ uses_effects k xs + uses_effect k f
  uses_effects-append [] f = omega arith
  uses_effects-append (x ∷ xs) f = omega (arith, uses_effects-append xs f)

  -- What is put in replaces what is taken out.
  pub uses_table-insert :
      (key : ℕ) (sender : Sender) (m : List (ℕ × Sender))
      → uses_table k (insert key sender m) + uses_option k (get key m)
        ≤ uses_table k m + one k sender
  unfolding insert get
  uses_table-insert key sender [] = omega arith
  uses_table-insert key sender ((j, w) ∷ m) = elim (Bool-cases (j == key)) [
    | inl same ↦ rw same (omega arith)
    | inr other ↦ rw other (omega (arith, uses_table-insert key sender m))
  ]

  pub uses_table-delete :
      (key : ℕ) (m : List (ℕ × Sender))
      → uses_table k (delete key m) + uses_option k (get key m) ≤ uses_table k m
  unfolding delete get
  uses_table-delete key [] = omega arith
  uses_table-delete key ((j, w) ∷ m) = elim (Bool-cases (j == key)) [
    | inl same ↦ rw same (omega (arith, uses_table-delete key m))
    | inr other ↦ rw other (omega (arith, uses_table-delete key m))
  ]

  pub uses_reply-le : (sender : Sender) (r : Reply) → uses_reply k sender r ≤ one k sender
  uses_reply-le sender (message_reply m) = omega arith
  uses_reply-le sender (publish_reply a) = omega arith
  uses_reply-le sender (subscribe_reply a) = omega arith
  uses_reply-le sender routed_reply = omega arith
  uses_reply-le sender (bootstrap_reply a) = omega arith
  uses_reply-le sender (listen_reply a) = omega arith
  uses_reply-le sender (block_reply a) = omega arith

  pub uses-emit : (f : Effect) (s : Service) → uses k (emit f s) ≡ uses k s + uses_effect k f
  uses-emit f s = omega (arith, uses_effects-append s.effects f)

  pub send_exact :
      (world : World) (sender : Sender) (r : Reply) (s : Service)
      → Spends k (uses k s + uses_reply k sender r) (send world sender r s)
  send_exact world sender r s = elim (Bool-cases (world.listening sender)) [
    | inl there ↦ rw there (omega (arith, uses-emit (replies sender r) s))
    | inr gone ↦ rw gone tt
  ]

  pub Spends-mono : (a b : ℕ) (out : Outcome Service) → a ≤ b → Spends k a out → Spends k b out
  Spends-mono a b (ok t) le h = omega arith
  Spends-mono a b (panic e) le h = tt

  pub send-Spends :
      (world : World) (sender : Sender) (r : Reply) (s : Service)
      → Spends k (uses k s + one k sender) (send world sender r s)
  send-Spends world sender r s =
      Spends-mono (uses k s + uses_reply k sender r) (uses k s + one k sender)
        (send world sender r s) (omega (arith, uses_reply-le sender r))
        (send_exact world sender r s)

  pub answer_if-Spends :
      (world : World) (waiting : Option Sender) (r : Reply) (s : Service)
      → Spends k (uses k s + uses_option k waiting) (answer_if world waiting r s)
  unfolding answer_if
  answer_if-Spends world none r s = omega arith
  answer_if-Spends world (some sender) r s = send-Spends world sender r s

  pub displaced-Spends :
      (world : World) (waiting : Option Sender) (s : Service)
      → Spends k (uses k s + uses_option k waiting) (displaced world waiting s)
  unfolding displaced
  displaced-Spends world none s = omega arith
  displaced-Spends world (some sender) s = send-Spends world sender _ s

  pub Spends-bind :
      (a b : ℕ) (out : Outcome Service) (f : Service → Outcome Service)
      → Spends k a out
      → ((t : Service) → uses k t ≤ a → Spends k b (f t))
      → Spends k b (out >>= f)
  Spends-bind a b (ok t) f h g = g t h
  Spends-bind a b (panic e) f h g = tt
