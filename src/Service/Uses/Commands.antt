-- ===== src/Service/Uses/Commands.antt =====
-- Handling a command uses its channel, and no other.
use live_tests.Base.{
  ◌+◌, ◌≤◌, inl, inr, Bool, true, false, not, Outcome, ok, panic, ◌>>=◌, if◌then◌else◌, Bool-cases,
  arith,
}
use live_tests.Exchange.{Cid, Bytes, Block, BlockExchange, add_block}
use live_tests.Client.{
  Multiaddr, Topic, Sender, Command, listen_on, dht_add, bootstrap, publish, subscribe, block_get,
  block_add, dial,
}
use live_tests.Service.{Service, emit, send, displaced, command}
use live_tests.Service.Table.{get, insert}
use live_tests.Service.Events.{
  Answer-cases, accepted, refused, World, publish_reply, subscribe_reply, listen_reply, publishes,
  subscribes, adds_address, bootstraps, listens_on, wants_block, dials, replies,
}
use live_tests.Service.Uses.{
  one, uses_option, uses, uses_command, Spends, uses_effects-append, uses_table-insert, uses-emit,
  send-Spends, Spends-mono, displaced-Spends, Spends-bind,
}

module _ (k : Sender) (world : World) (s : Service) where
  publish-Spends :
      (topic : Topic) (content : Bytes) (sender : Sender)
      → Spends k (uses k s + one k sender) (command world s (publish topic content sender))
  unfolding command
  publish-Spends topic content sender =
      let s' = emit (publishes topic content) s in
      let r = publish_reply (world.publish_answer topic content) in
      let quiet = uses-emit k (publishes topic content) s in
      elim (Bool-cases (world.listening sender)) [
        | inl there ↦ rw there (omega (arith, uses-emit k (replies sender r) s'))
        | inr gone ↦ rw gone (omega arith)
      ]

  subscribe-Spends :
      (topic : Topic) (sender stream : Sender)
      → Spends k (uses k s + one k sender) (command world s (subscribe topic sender stream))
  unfolding command
  subscribe-Spends topic sender stream =
      let s' = emit (subscribes topic) s in
      let quiet = uses-emit k (subscribes topic) s in
      elim (Answer-cases (world.subscribe_answer topic)) [
        | inl (status, e) ↦
            rw (e, command)
              (Spends-bind k (uses k s' + one k sender) (uses k s + one k sender)
                (send world sender (subscribe_reply (accepted status)) s') _
                (send-Spends k world sender (subscribe_reply (accepted status)) s')
                (λ t h. remember status t (omega arith)))
        | inr (e, h) ↦
            rw (h, command)
              (Spends-mono k (uses k s' + one k sender) (uses k s + one k sender) _ (omega arith)
                (send-Spends k world sender (subscribe_reply (refused e)) s'))
      ]
    where
      remember :
          (status : Bool) (t : Service)
          → uses k t ≤ uses k s + one k sender
          → uses k (
              if not status then t else record t {
                pending_subscribe = insert (world.topic_hash topic) stream t.pending_subscribe;
              })
            ≤ uses k s + one k sender
      remember true t h = h
      remember false t h = h

  bootstrap-Spends :
      (sender : Sender) → Spends k (uses k s + one k sender) (command world s (bootstrap sender))
  unfolding command
  bootstrap-Spends sender =
      let quiet = uses_effects-append k s.effects bootstraps in
      elim (Answer-cases world.bootstrap_answer) [
        | inl (id, e) ↦ rw e (omega (arith, uses_table-insert k id sender s.pending_bootstrap))
        | inr (_, e) ↦ rw e (omega arith)
      ]

  listen_on-Spends :
      (multi_addr : Multiaddr) (sender : Sender)
      → Spends k (uses k s + one k sender) (command world s (listen_on multi_addr sender))
  unfolding command
  listen_on-Spends multi_addr sender =
      let s' = emit (listens_on multi_addr) s in
      let quiet = uses_effects-append k s.effects (listens_on multi_addr) in
      elim (Answer-cases (world.listen_answer multi_addr)) [
        | inl (id, e) ↦
            rw (e, command) (omega (arith, uses_table-insert k id sender s.pending_listen))
        | inr (e, h) ↦
            rw (h, command)
              (Spends-mono k (uses k s' + one k sender) (uses k s + one k sender) _ (omega arith)
                (send-Spends k world sender (listen_reply (refused e)) s'))
      ]

  block_get-Spends :
      (cid : Cid) (sender : Sender)
      → Spends k (uses k s + one k sender) (command world s (block_get cid sender))
  unfolding command
  block_get-Spends cid sender =
      let waiting = get cid s.pending_get_block in
      let s' : Service = record s { pending_get_block = insert cid sender s.pending_get_block } in
      let put_in = uses_table-insert k cid sender s.pending_get_block in
      Spends-bind k (uses k s' + uses_option k waiting) (uses k s + one k sender)
        (displaced world waiting s') _ (displaced-Spends k world waiting s')
        (λ t h. omega (arith, uses_effects-append k t.effects (wants_block cid 0)))

  block_add-Spends : (block : Block) → Spends k (uses k s + 0) (command world s (block_add block))
  unfolding command
  block_add-Spends block = stored (add_block s.block_exchange block)
    where
      stored :
          (out : Outcome (BlockExchange × Bool))
          → Spends k
              (uses k s + 0)
              (out >>= λ (exchange, _). ok (record s { block_exchange = exchange }))
      stored (ok (exchange, _)) = omega arith
      stored (panic e) = tt

  pub command-Spends :
      (cmd : Command) → Spends k (uses k s + uses_command k cmd) (command world s cmd)
  unfolding command
  command-Spends (publish topic content sender) = publish-Spends topic content sender
  command-Spends (subscribe topic sender stream) = subscribe-Spends topic sender stream
  command-Spends (dht_add peer_id multi_addr sender) = omega (
    arith,
    uses_table-insert k peer_id sender s.routing_updates,
    uses_effects-append k s.effects (adds_address peer_id multi_addr),
  )
  command-Spends (bootstrap sender) = bootstrap-Spends sender
  command-Spends (listen_on multi_addr sender) = listen_on-Spends multi_addr sender
  command-Spends (block_get cid sender) = block_get-Spends cid sender
  command-Spends (block_add block) = block_add-Spends block
  command-Spends (dial multi_addr) =
      omega (arith, uses_effects-append k s.effects (dials multi_addr))
