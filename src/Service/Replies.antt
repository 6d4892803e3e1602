-- ===== src/Service/Replies.antt =====
-- Which client hears what: requests for one block, subscriptions to one topic, and the bootstrap.
use live_tests.Base.{ℕ, ◌≡◌, ◌≢◌, refl, [], ◌∷◌, ◌++◌, true, false, none, some, ok, ==_refl, ≢→==}
use mathlib.Core.List.{append_assoc}
use live_tests.Exchange.{Cid}
use live_tests.Client.{Sender, Topic, bootstrap, subscribe, block_get}
use live_tests.Service.{Service, emit, command, gossipsub, kademlia, already_getting}
use live_tests.Service.Table.{get, insert, delete, get-insert, get-delete}
use live_tests.Service.Events.{
  accepted, refused, BootstrapOk, World, Message, message, block_reply, subscribe_reply,
  message_reply, bootstrap_reply, wants_block, subscribes, bootstraps, replies, kademlia_event,
  gossipsub_event, outbound_query_completed, bootstrap_result, behaviour,
}
use live_tests.Service.Run.{event, swarm_next, cmd_next, run}

-- Two clients ask for one block that nobody waits for, and the first still listens: the swarm is
-- asked twice, the first is told that the block is being fetched already, and the second is the
-- one that waits.
pub block_get_twice :
    (world : World) (s : Service) (cid : Cid) (first second : Sender)
    → get cid s.pending_get_block ≡ none
    → world.listening first ≡ true
    → (t : Service) × (run s (
          cmd_next world (some (block_get cid first))
          ∷ cmd_next world (some (block_get cid second))
          ∷ [])
        ≡ ok t)
      × (t.effects
          ≡ s.effects
            ++ wants_block cid 0
              ∷ replies first (block_reply (refused already_getting))
              ∷ wants_block cid 0
              ∷ [])
      × (get cid t.pending_get_block ≡ some second)
unfolding run command
block_get_twice world s cid first second nobody there =
    let now : get cid (insert cid first s.pending_get_block) ≡ some first =
      rw (get-insert cid cid first s.pending_get_block, ==_refl cid) refl in
    let one : Service =
      emit (wants_block cid 0)
        (record s { pending_get_block = insert cid first s.pending_get_block }) in
    let two : Service = emit (wants_block cid 0) (
      emit (replies first (block_reply (refused already_getting)))
        (record one { pending_get_block = insert cid second one.pending_get_block })) in
    (
      two,
      rw (nobody, now, there) refl,
      simp append_assoc,
      rw (get-insert cid cid second (insert cid first s.pending_get_block), ==_refl cid) refl,
    )

subscribe_new :
    (world : World) (s : Service) (topic : Topic) (sender stream : Sender)
    → world.subscribe_answer topic ≡ accepted true
    → world.listening sender ≡ true
    → command world s (subscribe topic sender stream)
      ≡ ok
          (record (emit
            (replies sender (subscribe_reply (accepted true)))
            (emit (subscribes topic) s)) {
              pending_subscribe = insert (world.topic_hash topic) stream s.pending_subscribe;
            })
unfolding command
subscribe_new world s topic sender stream e there = rw (e, command, there) refl

subscribe_known :
    (world : World) (s : Service) (topic : Topic) (sender stream : Sender)
    → world.subscribe_answer topic ≡ accepted false
    → world.listening sender ≡ true
    → command world s (subscribe topic sender stream)
      ≡ ok (emit (replies sender (subscribe_reply (accepted false))) (emit (subscribes topic) s))
unfolding command
subscribe_known world s topic sender stream e there = rw (e, command, there) refl

-- Two clients subscribe to one topic, and libp2p reports the topic as new to the first only. Then
-- a message on the topic goes to the stream of the first and to no other.
pub subscribe_first :
    (new_topic known_topic : World) (s : Service) (topic : Topic)
    (first first_stream second second_stream : Sender) (m : Message)
    → new_topic.subscribe_answer topic ≡ accepted true
    → known_topic.subscribe_answer topic ≡ accepted false
    → m.topic ≡ new_topic.topic_hash topic
    → new_topic.listening first ≡ true
    → known_topic.listening second ≡ true
    → known_topic.listening first_stream ≡ true
    → (t : Service) × (run s (
          cmd_next new_topic (some (subscribe topic first first_stream))
          ∷ cmd_next known_topic (some (subscribe topic second second_stream))
          ∷ swarm_next known_topic (some (behaviour (gossipsub_event (message m))))
          ∷ [])
        ≡ ok t)
      × (t.effects
          ≡ s.effects
            ++ subscribes topic
              ∷ replies first (subscribe_reply (accepted true))
              ∷ subscribes topic
              ∷ replies second (subscribe_reply (accepted false))
              ∷ replies first_stream (message_reply m)
              ∷ [])
unfolding run event gossipsub
subscribe_first new_topic known_topic s topic first first_stream second second_stream m is_new known
      same a b c =
    let table = insert (new_topic.topic_hash topic) first_stream s.pending_subscribe in
    let found : get m.topic table ≡ some first_stream =
      rw
        (
          same,
          get-insert (new_topic.topic_hash topic) (new_topic.topic_hash topic) first_stream
              s.pending_subscribe,
          ==_refl (new_topic.topic_hash topic),
        )
        refl in
    let one : Service =
      emit (replies first (subscribe_reply (accepted true))) (emit (subscribes topic) s) in
    let two : Service =
      emit (replies second (subscribe_reply (accepted false)))
        (emit (subscribes topic) (record one { pending_subscribe = table })) in
    (
      emit (replies first_stream (message_reply m)) two,
      rw
          (
            subscribe_new new_topic s topic first first_stream is_new a,
            subscribe_known known_topic (record one { pending_subscribe = table }) topic second
                second_stream known b,
            found,
            c,
          )
          refl,
      simp append_assoc,
    )

-- A bootstrap that libp2p starts as query `id` is answered once, when the query reports that no
-- peer remains: a report with peers remaining changes nothing, and then the client is told.
pub bootstrap_answered :
    (world : World) (s : Service) (id : ℕ) (sender : Sender) (progress done : BootstrapOk)
    → world.bootstrap_answer ≡ accepted id
    → progress.num_remaining ≢ 0
    → done.num_remaining ≡ 0
    → world.listening sender ≡ true
    → (t : Service) × (run s (
          cmd_next world (some (bootstrap sender))
          ∷ swarm_next world (
              some (
                behaviour (
                  kademlia_event
                    (outbound_query_completed id (bootstrap_result (accepted progress))))))
          ∷ swarm_next world (
              some (
                behaviour (
                  kademlia_event (outbound_query_completed id (bootstrap_result (accepted done))))))
          ∷ [])
        ≡ ok t)
      × (t.effects
          ≡ s.effects ++ bootstraps ∷ replies sender (bootstrap_reply (accepted done)) ∷ [])
      × (get id t.pending_bootstrap ≡ none)
unfolding run command event kademlia
bootstrap_answered world s id sender progress done started more none_left there =
    let table = insert id sender s.pending_bootstrap in
    let found : get id table ≡ some sender =
      rw (get-insert id id sender s.pending_bootstrap, ==_refl id) refl in
    let one : Service = record (emit bootstraps s) { pending_bootstrap = table } in
    (
      emit (replies sender (bootstrap_reply (accepted done)))
          (record one { pending_bootstrap = delete id table }),
      rw (started, ≢→== progress.num_remaining 0 more, none_left, found, there) refl,
      simp append_assoc,
      rw (get-delete id id table, ==_refl id) refl,
    )
