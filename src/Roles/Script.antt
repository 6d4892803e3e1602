-- ===== src/Roles/Script.antt =====
-- The script of requests by which a node joins the others, and the one by which it leaves.
use live_tests.Base.{refl, List, [], ◌∷◌, Outcome, ok, panic}
use live_tests.Exchange.{PeerId}
use live_tests.Client.{Multiaddr}
use live_tests.Client.Handle
use live_tests.Service.Events.{
  accepted, refused, Reply, publish_reply, subscribe_reply, routed_reply, bootstrap_reply,
  listen_reply, block_reply, message_reply,
}
use live_tests.Params.{TestCaseParams}
use live_tests.Roles.Addresses.{Collected, waits, collected, announcement}
use live_tests.Roles.Talk.{
  Request, init, net, bootstrapped, stop, configure_network, subscribe, signal_and_wait, publish,
  signal, barrier, record_success, Environment, no_answer,
}
use live_tests.Roles.Enter.{
  RunParameters, Libp2p, Machine, listened, collected_or, dial_all, local_multi_addr, enter, leave,
}
use live_tests.Roles.Follows.{
  Writes, quiet-Writes, ask-Writes, ask_then-Writes, tell_then-Writes, nothing-PartOf, done-Follows,
  call-Writes, await-Writes,
}

module _ (env : Environment) where
  pub listened-Writes : (r : Reply) → Writes env [] (listened r)
  listened-Writes (listen_reply (refused e)) n = nothing-PartOf env n.requests []
  listened-Writes (listen_reply (accepted a)) n = done-Follows env tt n
  listened-Writes (publish_reply a) n = done-Follows env tt n
  listened-Writes (subscribe_reply a) n = done-Follows env tt n
  listened-Writes routed_reply n = done-Follows env tt n
  listened-Writes (bootstrap_reply a) n = done-Follows env tt n
  listened-Writes (block_reply a) n = done-Follows env tt n
  listened-Writes (message_reply m) n = done-Follows env tt n

  pub collected_or-Writes : (out : Outcome Collected) → Writes env [] (collected_or out)
  collected_or-Writes (ok waits) n = nothing-PartOf env n.requests []
  collected_or-Writes (ok (collected peer_ids addresses)) n =
      done-Follows env {A = List PeerId × List Multiaddr} (peer_ids, addresses) n
  collected_or-Writes (panic e) n = nothing-PartOf env n.requests []

  dial_all-Writes :
      (peer_ids : List PeerId) (addresses : List Multiaddr)
      → Writes env [] (dial_all peer_ids addresses)
  unfolding dial_all
  dial_all-Writes (peer_id ∷ peer_ids) (addr ∷ addresses) =
      quiet-Writes env [] _ _ (call-Writes env (λ c. no_answer (Handle.dial addr c)))
        (λ _. dial_all-Writes peer_ids addresses)
  dial_all-Writes [] addresses = λ n. done-Follows env tt n
  dial_all-Writes (peer_id ∷ peer_ids) [] = λ n. done-Follows env tt n

  module _ (lib : Libp2p) (runenv : RunParameters) (machine : Machine) where
    abbrev pub enter_script : TestCaseParams → List Request
    enter_script p =
        configure_network
          (record { latency = 50000000; jitter = 1000000; bandwidth = p.network_bandwidth })
        ∷ subscribe
        ∷ signal_and_wait init runenv.test_instance_count
        ∷ publish (
            announcement lib.to_base58 lib.to_string
              (machine.local_peer_id, local_multi_addr env lib runenv machine))
        ∷ signal net
        ∷ barrier net runenv.test_instance_count
        ∷ signal_and_wait bootstrapped runenv.test_instance_count
        ∷ []

    abbrev pub leave_script : List Request
    leave_script = record_success ∷ signal_and_wait stop runenv.test_instance_count ∷ []

    pub enter-Writes :
        (p : TestCaseParams) → Writes env (enter_script p) (enter env lib runenv machine p)
    unfolding enter
    enter-Writes p = quiet-Writes env _ _ _ (call-Writes env _) (λ k.
        quiet-Writes env _ _ _ (await-Writes env k) (λ reply.
          quiet-Writes env _ _ _ (listened-Writes reply) (λ _. ask_then-Writes env _ _ _ (
            tell_then-Writes env _ _ _ refl (
              ask_then-Writes env _ _ _ (
                ask_then-Writes env _ _ _ (
                  ask_then-Writes env _ _ _ (
                    quiet-Writes env _ _ _ (collected_or-Writes _) (λ found.
                      ask_then-Writes env _ _ _ (
                        quiet-Writes env _ _ _ (dial_all-Writes found.0 found.1)
                          (λ _. ask-Writes env _)))))))))))

    pub leave-Writes : Writes env leave_script (leave env lib runenv machine)
    unfolding leave
    leave-Writes = tell_then-Writes env _ _ _ refl (ask-Writes env _)
