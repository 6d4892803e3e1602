-- ===== src/Ipfs/Answers.antt =====
-- When a client gets its answer: by how often its channel is used.
use live_tests.Base.{
  ℕ, ◌+◌, ◌≡◌, inl, inr, refl, ap, sym, ◌∙◌, List, [], ◌∷◌, ◌++◌, true, false, none, some, panic,
  unwrapped, ◌==◌, ==_refl, Bool-cases, Option-cases, arith,
}
use live_tests.Client.{
  Sender, Command, listen_on, dht_add, bootstrap, publish, subscribe, block_get, block_add, dial,
}
use live_tests.Service.Table.{insert}
use live_tests.Exchange.{Block}
use live_tests.Service.Events.{
  Answer, Effect, publishes, subscribes, adds_address, bootstraps, listens_on, wants_block, dials,
  sends_block, replies, Reply, publish_reply, subscribe_reply, routed_reply, bootstrap_reply,
  listen_reply, block_reply, message_reply,
}
use live_tests.Service.Uses.{uses_table, uses_reply, uses_effect, uses_effects, uses, uses_command}
use live_tests.Ipfs.{
  Ipfs, command_sender, is_sender, in_commands, in_table, held, is_answer, or_else, answer_to,
  receive,
}

module _ (k : Sender) where
  abbrev pub uses_commands : List Command → ℕ
  uses_commands [] = 0
  uses_commands (cmd ∷ cmds) = uses_command k cmd + uses_commands cmds

  abbrev pub uses_ipfs : Ipfs → ℕ
  uses_ipfs n = uses_commands n.client.sent + uses k n.service

  -- A channel that is used nowhere is found nowhere.
  in_table-unused : (m : List (ℕ × Sender)) → uses_table k m ≡ 0 → in_table k m ≡ false
  in_table-unused [] h = refl
  in_table-unused ((_, sender) ∷ m) h = ground (arith, in_table-unused m)

  is_sender-unused :
      (cmd : Command) → uses_command k cmd ≡ 0 → is_sender k (command_sender cmd) ≡ false
  is_sender-unused (listen_on _ sender) h = ground arith
  is_sender-unused (dht_add _ _ sender) h = ground arith
  is_sender-unused (bootstrap sender) h = ground arith
  is_sender-unused (publish _ _ sender) h = ground arith
  is_sender-unused (subscribe _ sender _) h = ground arith
  is_sender-unused (block_get _ sender) h = ground arith
  is_sender-unused (block_add _) h = refl
  is_sender-unused (dial _) h = refl

  in_commands-unused : (cmds : List Command) → uses_commands cmds ≡ 0 → in_commands k cmds ≡ false
  in_commands-unused [] h = refl
  in_commands-unused (cmd ∷ cmds) h =
      ground (arith, is_sender-unused cmd (omega arith), in_commands-unused cmds (omega arith))

  is_answer_unused :
      (sender : Sender) (r : Reply)
      → uses_reply k sender r ≡ 0
      → is_answer k (replies sender r) ≡ none
  is_answer_unused sender (message_reply m) h = refl
  is_answer_unused sender (publish_reply a) h = ground arith
  is_answer_unused sender (subscribe_reply a) h = ground arith
  is_answer_unused sender routed_reply h = ground arith
  is_answer_unused sender (bootstrap_reply a) h = ground arith
  is_answer_unused sender (listen_reply a) h = ground arith
  is_answer_unused sender (block_reply a) h = ground arith

  is_answer-unused : (f : Effect) → uses_effect k f ≡ 0 → is_answer k f ≡ none
  is_answer-unused (replies sender r) h = is_answer_unused sender r h
  is_answer-unused (publishes _ _) h = refl
  is_answer-unused (subscribes _) h = refl
  is_answer-unused (adds_address _ _) h = refl
  is_answer-unused bootstraps h = refl
  is_answer-unused (listens_on _) h = refl
  is_answer-unused (wants_block _ _) h = refl
  is_answer-unused (dials _) h = refl
  is_answer-unused (sends_block _ _) h = refl

  -- Effects that do not use the channel are no answer, and the answer is among the others.
  pub answer_to-append :
      (effects more : List Effect)
      → uses_effects k effects ≡ 0
      → answer_to k (effects ++ more) ≡ answer_to k more
  unfolding answer_to
  answer_to-append [] more h = refl
  answer_to-append (f ∷ effects) more h =
      rw (is_answer-unused f (omega arith)) (answer_to-append effects more (omega arith))

  pub answer_to-found :
      (effects more : List Effect) (r : Reply)
      → answer_to k effects ≡ some r
      → answer_to k (effects ++ more) ≡ some r
  unfolding answer_to
  answer_to-found [] more r h = cc
  answer_to-found (f ∷ effects) more r h = elim (Option-cases (is_answer k f)) [
    | inl other ↦
        rw other (
          answer_to-found effects more r
            (sym (ap (λ o. or_else o (answer_to k effects)) other) ∙ h))
    | inr (r', e) ↦
        ap (λ o. or_else o (answer_to k (effects ++ more))) e
        ∙ sym (ap (λ o. or_else o (answer_to k effects)) e)
        ∙ h
  ]

  -- After an answer there is one.
  pub answer_to-last :
      (effects : List Effect) (a : Answer Block)
      → (r : Reply) × (answer_to k (effects ++ replies k (block_reply a) ∷ []) ≡ some r)
  unfolding answer_to
  answer_to-last [] a = (block_reply a, rw (==_refl k) refl)
  answer_to-last (f ∷ effects) a = elim (Option-cases (is_answer k f)) [
    | inl other ↦ rw other (answer_to-last effects a)
    | inr (r, e) ↦ (r, rw e refl)
  ]

  -- The first answer to an announcement.
  pub answer_to_published :
      (effects : List Effect) (a : Answer ℕ)
      → uses_effects k effects ≡ 0
      → answer_to k (effects ++ replies k (publish_reply a) ∷ []) ≡ some (publish_reply a)
  unfolding answer_to
  answer_to_published effects a unused =
      answer_to-append effects (replies k (publish_reply a) ∷ []) unused ∙ rw (==_refl k) refl

  pub answer_to-unused :
      (effects : List Effect) → uses_effects k effects ≡ 0 → answer_to k effects ≡ none
  unfolding answer_to
  answer_to-unused [] h = refl
  answer_to-unused (f ∷ effects) h =
      rw (is_answer-unused f (omega arith)) (answer_to-unused effects (omega arith))

  -- A client whose channel is used nowhere panics when it awaits the answer.
  pub receive-unused : (n : Ipfs) → uses_ipfs n ≡ 0 → receive k n ≡ some (panic unwrapped)
  unfolding receive held
  receive-unused n h = rw (answer_to-unused n.service.effects (omega arith), not_held) refl
    where
      not_held : held k n ≡ false
      not_held =
          rw
            (
              in_commands-unused n.client.sent (omega arith),
              in_table-unused n.service.routing_updates (omega arith),
              in_table-unused n.service.pending_bootstrap (omega arith),
              in_table-unused n.service.pending_listen (omega arith),
              in_table-unused n.service.pending_get_block (omega arith),
            )
            (ground arith)

  -- A client whose sender is held and not answered yet goes on waiting.
  pub receive-held :
      (n : Ipfs) → uses_effects k n.service.effects ≡ 0 → held k n ≡ true → receive k n ≡ none
  unfolding receive
  receive-held n h there = rw (answer_to-unused n.service.effects h, there) refl

  pub in_table-insert : (key : ℕ) (m : List (ℕ × Sender)) → in_table k (insert key k m) ≡ true
  unfolding insert
  in_table-insert key [] = rw (==_refl k) refl
  in_table-insert key ((j, sender) ∷ m) = elim (Bool-cases (j == key)) [
    | inl same ↦ rw (same, ==_refl k) refl
    | inr other ↦ rw (other, in_table-insert key m) (ground arith)
  ]
