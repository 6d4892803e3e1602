-- ===== src/Roles/Queued.antt =====
-- A service that takes the commands of `add_all` (roles/streamer.rs) has the blocks.
use mathlib.Core.List.{append_assoc, append-nil}
use live_tests.Base.{
  ◌≡◌, refl, ap, sym, ◌∙◌, List, [], ◌∷◌, ◌++◌, map, true, ok, panic, receiver_dropped, ◌>>=◌,
  length, ◌==◌, if◌then◌else◌,
}
use live_tests.Exchange.{PeerId, Cid, Block, BlockExchange, get_block}
use live_tests.Exchange.Represents.{Represents}
use live_tests.Exchange.Full.{
  Full, or_else, first_with, or_else-none, or_else_twice, add_block-StaysFull,
}
use live_tests.Client.{Command}
use live_tests.Client.Handle
use live_tests.Client.Handle.{IpfsClient, send_command}
use live_tests.Service.{command}
use live_tests.Service.Events.{World}
use live_tests.Ipfs.{Ipfs, take, take_times, take_from}
use live_tests.Roles.Video.{add_all}

abbrev pub with_sent : IpfsClient → List Command → IpfsClient
with_sent c cmds = record c { sent = cmds }

send_command-sent :
    (cmd : Command) (c : IpfsClient)
    → c.service_alive ≡ true
    → send_command cmd c ≡ ok (with_sent c (c.sent ++ cmd ∷ []))
send_command-sent cmd c alive =
    ap (λ a. if a then ok (with_sent c (c.sent ++ cmd ∷ [])) else panic receiver_dropped) alive

-- Adding blocks queues a command for each.
pub add_all-sent :
    (blocks : List Block) (c : IpfsClient)
    → c.service_alive ≡ true
    → add_all blocks c ≡ ok (with_sent c (c.sent ++ map (λ b. Command.block_add b) blocks))
unfolding add_all Handle.add_block
add_all-sent [] c alive = ap (λ q. ok (with_sent c q)) (sym (append-nil c.sent))
add_all-sent (b ∷ blocks) c alive =
    ap (λ out. out >>= λ c'. add_all blocks c') (send_command-sent (Command.block_add b) c alive)
    ∙ add_all-sent blocks (with_sent c (c.sent ++ Command.block_add b ∷ [])) alive
    ∙ ap (λ q. ok (with_sent c q))
        (append_assoc c.sent (Command.block_add b ∷ []) (map (λ b. Command.block_add b) blocks))

-- What the exchange finds after it took in some blocks: what it held, or the first of them.
abbrev pub Stores : List Block → BlockExchange → List (PeerId × Cid) → BlockExchange → Type 0
Stores blocks e w after =
    Represents after w
    × Full after
    × ((c : Cid) → get_block after c ≡ or_else (get_block e c) (first_with c blocks))

pub take-stored :
    (world : World) (blocks : List Block) (tail : List Command) (n : Ipfs) (w : List (PeerId × Cid))
    → n.client.sent ≡ map (λ b. Command.block_add b) blocks ++ tail
    → Represents n.service.block_exchange w
    → Full n.service.block_exchange
    → (after : BlockExchange) × Stores blocks n.service.block_exchange w after
      × (take_times world (length blocks) n ≡ record n {
        client = with_sent n.client tail;
        service = record n.service { block_exchange = after };
      })
unfolding take command
take-stored world [] tail n w queue r full = (
  n.service.block_exchange,
  (r, full, λ c. or_else-none (get_block n.service.block_exchange c)),
  ap (λ q. record n { client = with_sent n.client q }) queue,
)
take-stored world (b ∷ blocks) tail n w queue r full =
    let adds = map (λ b. Command.block_add b) blocks in
    let (mid, added, returns, r', full', finds) =
      add_block-StaysFull n.service.block_exchange w b r full in
    let n' : Ipfs = record n {
      client = with_sent n.client (adds ++ tail);
      service = record n.service { block_exchange = mid };
    } in
    let taken : take world n ≡ n' = ap (take_from world n) queue ∙ rw returns refl in
    let (after, (r'', full'', finds'), rest) = take-stored world blocks tail n' w refl r' full' in
    (
      after,
      (
        r'',
        full'',
        λ c.
            finds' c
            ∙ ap (λ o. or_else o (first_with c blocks)) (finds c)
            ∙ or_else_twice (get_block n.service.block_exchange c) (c == b.cid) b
                (first_with c blocks),
      ),
      ap (take_times world (length blocks)) taken ∙ rest,
    )
