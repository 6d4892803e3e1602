-- ===== src/Roles/Joins.antt =====
-- The requests that the neutral role makes (roles/neutral.rs).
mod Tests
use live_tests.Base.{
  ℕ, ◌/◌, ◌-◌, ◌≤◌, ◌<◌, word, sub64-eq_of_le, ◌≡◌, refl, List, [], ◌∷◌, Bool, Outcome, ok, panic,
  map, length, arith,
}
use live_tests.Exchange.{PeerId}
use live_tests.Client.{Multiaddr}
use live_tests.Client.Handle
use live_tests.Roles.Addresses.{announcement, picked}
use live_tests.Roles.Talk.{
  Request, init, net, bootstrapped, stop, configure_network, subscribe, signal_and_wait, publish,
  barrier, Environment,
}
use live_tests.Roles.Enter.{RunParameters, Libp2p, Machine, local_multi_addr}
use live_tests.Roles.Follows.{
  Follows, Writes, quiet-Writes, ask-Writes, ask_then-Writes, tell_then-Writes, nothing-PartOf,
  done-Follows, call-Writes, await-Writes,
}
use live_tests.Roles.Script.{listened-Writes, collected_or-Writes}
use live_tests.Roles.Neutral.{picked_or, neutral_nodes, neutral_from, neutral}

module _ (env : Environment) where
  picked_or-Writes : (out : Outcome (PeerId × Multiaddr)) → Writes env [] (picked_or out)
  picked_or-Writes (ok node) n = done-Follows env node n
  picked_or-Writes (panic e) n = nothing-PartOf env n.requests []

  module _ (gen_range : ℕ → ℕ → ℕ) (lib : Libp2p) (runenv : RunParameters) (machine : Machine) where
    abbrev pub neutral_script : List Request
    neutral_script =
        configure_network (record { latency = 0; jitter = 0; bandwidth = 10000000 })
        ∷ subscribe
        ∷ barrier init runenv.test_instance_count
        ∷ publish (
            announcement lib.to_base58 lib.to_string
              (machine.local_peer_id, local_multi_addr env lib runenv machine))
        ∷ signal_and_wait net (neutral_nodes runenv)
        ∷ signal_and_wait bootstrapped runenv.test_instance_count
        ∷ signal_and_wait stop runenv.test_instance_count
        ∷ []

    -- The last requests, with the DHT joined before them.
    neutral-Writes :
        (sim_id : ℕ)
        → Writes env neutral_script (neutral_from gen_range env lib runenv machine sim_id)
    unfolding neutral_from
    neutral-Writes sim_id = quiet-Writes env _ _ _ (call-Writes env _) (λ k.
        quiet-Writes env _ _ _ (await-Writes env k) (λ reply.
          quiet-Writes env _ _ _ (listened-Writes env reply) (λ _. ask_then-Writes env _ _ _ (
            tell_then-Writes env _ _ _ refl (
              ask_then-Writes env _ _ _ (
                ask_then-Writes env _ _ _ (
                  quiet-Writes env _ _ _ (collected_or-Writes env _) (λ found.
                    ask_then-Writes env _ _ _ (
                      quiet-Writes env _ _ _
                        (picked_or-Writes (picked gen_range sim_id found.0 found.1))
                        (λ node. quiet-Writes env _ _ _ (call-Writes env _) (λ added.
                          quiet-Writes env _ _ _ (await-Writes env added) (λ _.
                            quiet-Writes env _ _ _ (call-Writes env _) (λ asked.
                              quiet-Writes env _ _ _ (await-Writes env asked)
                                (λ _. ask_then-Writes env _ _ _ (ask-Writes env _)))))))))))))))

    -- A neutral node that comes to its end has made the requests of its script in their order. One
    -- that returns early, panics or waits has made the first of them: if the test runner refused
    -- one, that was the last. None of the others was refused, unless its refusal is passed over.
    pub neutral-Follows :
        (sim_id : ℕ) (log : List Request)
        → Follows env log neutral_script (neutral gen_range env lib runenv machine sim_id log)
    unfolding neutral
    neutral-Follows sim_id log = neutral-Writes sim_id _
