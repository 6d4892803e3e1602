-- ===== src/Ipfs/Calls/Dropped.antt =====
-- Calls whose sender the service drops without an answer (ipfs/background.rs, ipfs/client.rs).
use live_tests.Base.{
  ℕ, suc, ◌≡◌, refl, ap, ◌∙◌, [], ◌∷◌, ◌++◌, none, some, Outcome, ok, panic, unwrapped, ◌>>=◌,
  ==_refl, arith,
}
use live_tests.Exchange.{PeerId}
use live_tests.Client.{Multiaddr, Sender, Command}
use live_tests.Client.Handle
use live_tests.Client.Handle.{IpfsClient}
use live_tests.Service.{command}
use live_tests.Service.Table.{get, insert, get-insert}
use live_tests.Service.Events.{World, refused, bootstraps, adds_address}
use live_tests.Service.Uses.{one, uses_option, uses_table-insert, uses_effects-append}
use live_tests.Ipfs.{Ipfs, take, held, receive}
use live_tests.Ipfs.Answers.{receive-unused, receive-held, in_table-insert}
use live_tests.Ipfs.Calls.{Idle, asked, with_client, free, asked-waits}

abbrev pub BootstrapFails : World → Ipfs → Type 0
BootstrapFails world n =
    (c : IpfsClient) × (k : Sender) × (Handle.dht_bootstrap n.client ≡ ok (c, k))
    × (receive k (with_client n c) ≡ none)
    × (receive k (take world (with_client n c)) ≡ some (panic unwrapped))

-- If libp2p refuses a bootstrap, the service drops the sender, and the client that waits for the
-- answer panics instead of getting the error.
pub dht_bootstrap_refused :
    (world : World) (n : Ipfs) (e : ℕ)
    → Idle n
    → world.bootstrap_answer ≡ refused e
    → BootstrapFails world n
unfolding Handle.dht_bootstrap take command
dht_bootstrap_refused world n e i no_peers =
    let k = n.client.next_channel in
    let c = asked (λ j. Command.bootstrap j) n.client in
    let unused = free n i in
    (
      c,
      k,
      rw (i.alive, i.received) refl,
      asked-waits n i (λ j. Command.bootstrap j) (λ j. refl),
      rw no_peers
          (receive-unused k _ (omega (arith, uses_effects-append k n.service.effects bootstraps))),
    )

abbrev add_twice :
    PeerId → Multiaddr → Multiaddr → IpfsClient → Outcome (IpfsClient × Sender × Sender)
add_twice peer_id first second c = do
  (c', j) ← Handle.dht_add_addr peer_id first c
  (c'', k) ← Handle.dht_add_addr peer_id second c'
  ok (c'', j, k)

abbrev pub AddsTwice : World → PeerId → Multiaddr → Multiaddr → Ipfs → Type 0
AddsTwice world peer_id first second n =
    (c : IpfsClient) × (j k : Sender) × (add_twice peer_id first second n.client ≡ ok (c, j, k))
    × (receive j (take world (take world (with_client n c))) ≡ some (panic unwrapped))
    × (receive k (take world (take world (with_client n c))) ≡ none)

-- If two addresses of one peer are added before libp2p reports a routing update, the first client
-- panics once the service has received both commands, and the second goes on waiting.
pub dht_add_addr_twice :
    (world : World) (n : Ipfs) (peer_id : PeerId) (first second : Multiaddr)
    → Idle n
    → AddsTwice world peer_id first second n
unfolding Handle.dht_add_addr take command held
dht_add_addr_twice world n peer_id first second i =
    let j = n.client.next_channel in
    let k = suc j in
    let c = record n.client {
      next_channel = suc k;
      sent = Command.dht_add peer_id first j ∷ Command.dht_add peer_id second k ∷ [];
    } in
    let unused = free n i in
    let later = i.fresh.unused k (omega arith) in
    let table = insert peer_id j n.service.routing_updates in
    let found : get peer_id table ≡ some j =
      rw (get-insert peer_id peer_id j n.service.routing_updates, ==_refl peer_id) refl in
    let lost : uses_option j (get peer_id table) ≡ 1 =
      ap (uses_option j) found ∙ rw (==_refl j) refl in
    let itself : one j j ≡ 1 = rw (==_refl j) refl in
    let other : one j k ≡ 0 = ground arith in
    let effects = n.service.effects ++ adds_address peer_id first ∷ [] in
    (
      c,
      j,
      k,
      rw (i.alive, i.received) refl,
      receive-unused j _ (
          omega (
            arith,
            uses_table-insert j peer_id j n.service.routing_updates,
            uses_table-insert j peer_id k table,
            uses_effects-append j n.service.effects (adds_address peer_id first),
            uses_effects-append j effects (adds_address peer_id second),
          )),
      receive-held k _
          (omega (
            arith,
            uses_effects-append k n.service.effects (adds_address peer_id first),
            uses_effects-append k effects (adds_address peer_id second),
          ))
          (rw (i.alive, in_table-insert k peer_id table) (ground arith)),
    )
