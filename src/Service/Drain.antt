-- ===== src/Service/Drain.antt =====
-- Peers that cancel a want when the block has come (bitswap of ipfs/background.rs): the states that
-- their cancels lead to.
pub mod OnWay
pub mod Step
pub mod Ends
use mathlib.Core.List.{append_assoc}
use live_tests.Base.{
  ℕ, suc, ◌+◌, ◌≤◌, ◌<◌, ◌≡◌, ◌⊎◌, inl, inr, refl, sym, ap, subst, ◌∙◌, List, [], ◌∷◌, ◌++◌, map,
  Bool, true, false, some, Outcome, ok, All, All-mono, retain, length, ◌==◌, ==→≡, ==_refl,
  Bool-cases, arith,
}
use live_tests.Exchange.{PeerId, Cid, Block, BlockExchange, get_block}
use live_tests.Exchange.Represents.{Represents}
use live_tests.Exchange.Remove.{other_want, remove_want-Keeps}
use live_tests.Exchange.Iterate.{held_wants, iter_wanted_blocks-held_wants}
use live_tests.Exchange.Lookup.{
  get_block_same, held_wants_same, Held, held_wants-Held, held_wants-retain,
}
use live_tests.Service.{Service}
use live_tests.Service.Table.{
  pair_eq, contains, discard, contains-discard, length-discard, length-discard_found,
}
use live_tests.Service.Events.{World, Effect, sends_block, received_cancel}
use live_tests.Service.Bitswap.{send_first, bitswap}
use live_tests.Service.Sending.{
  key, OnItsWay, sending, FirstServed, received_cancel-FirstServed, send_first-FirstServed,
}
use live_tests.Service.Unserved.{
  unserved, wanted, unserved-zero, unserved-served, unserved-cancel, wanted-retain, other_item,
}

-- A peer to which a block is on its way cancels its want for it.
pub data Cancel (world : World) (s t : Service) : Type 0 where
  cancels :
      (peer_id : PeerId) (cid : Cid)
      → contains (peer_id, cid) s.pending_send_block ≡ true
      → bitswap world s (received_cancel peer_id cid) ≡ ok t
      → Cancel world s t

-- So many cancels, one after the other.
pub data Cancels (world : World) (s : Service) : ℕ → Service → Type 0 where
  none_yet : Cancels world s 0 s
  one_more :
      {n : ℕ} {t u : Service} → Cancels world s n t → Cancel world t u → Cancels world s (suc n) u

-- The block was sent to the peer.
abbrev pub Sent : PeerId × Block → List Effect → Type 0
Sent x effects = (before after : List Effect) × (effects ≡ before ++ sends_block x.0 x.1 ∷ after)

-- While a block that is held is wanted, something is on its way.
abbrev pub Busy : List (PeerId × Cid) → List (PeerId × Block) → Type 0
Busy sent items = (items ≡ []) ⊎ (0 < length sent)

-- Where a wanted block stands: on its way from the start, or sent, or waiting for its turn.
abbrev pub Stands : Service → Service → List (PeerId × Block) → PeerId × Block → Type 0
Stands s t items x =
    (contains (key x) s.pending_send_block ≡ true)
    ⊎ (Sent x t.effects
        ⊎ ((wanted (key x) items ≡ true)
            × (contains (key x) t.pending_send_block ≡ false)
            × Held t.block_exchange x))

-- The state after `n` cancels.
pub record Draining (s : Service) (items : List (PeerId × Block)) (bound n : ℕ) (t : Service)
    : Type 0 where
  pub wants : List (PeerId × Cid)
  pub represents : Represents t.block_exchange wants
  pub busy : Busy t.pending_send_block (held_wants t.block_exchange wants)
  pub measure :
      n
        + unserved t.pending_send_block (held_wants t.block_exchange wants)
        + length t.pending_send_block
      ≤ bound
  pub stands : All (Stands s t (held_wants t.block_exchange wants)) items

-- What so many cancels lead to: they are no more than the blocks that were waiting for their turn or
-- on their way, and either another can follow, or all is done.
abbrev pub Drains : World → Service → List (PeerId × Cid) → ℕ → Service → Type 0
Drains world s w n t =
    let items = held_wants s.block_exchange w in
    (n + length t.pending_send_block
      ≤ unserved s.pending_send_block items + length s.pending_send_block)
    × (((u : Service) × Cancel world t u)
        ⊎ ((t.pending_send_block ≡ [])
            × ((left : List (PeerId × Cid)) × Represents t.block_exchange left
                × (held_wants t.block_exchange left ≡ []))
            × All (λ x. (contains (key x) s.pending_send_block ≡ true) ⊎ Sent x t.effects) items))
