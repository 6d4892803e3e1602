-- ===== src/Service/Drain/Ends.antt =====
-- What the peers' cancels come to, as the blocks come (bitswap of ipfs/background.rs).
use live_tests.Base.{
  ℕ, suc, ◌+◌, ◌≡◌, ◌⊎◌, inl, inr, refl, ap, subst, List, [], ◌∷◌, true, All, All-mono, length,
  ==_refl, Bool-cases, arith,
}
use live_tests.Exchange.{PeerId, Cid, Block}
use live_tests.Exchange.Represents.{Represents}
use live_tests.Exchange.Iterate.{held_wants}
use live_tests.Exchange.Lookup.{Held, held_wants-Held}
use live_tests.Service.{Service}
use live_tests.Service.Table.{contains}
use live_tests.Service.Events.{World}
use live_tests.Service.Sending.{key}
use live_tests.Service.Unserved.{unserved, wanted}
use live_tests.Service.Drain.{
  Cancel, cancels, Cancels, none_yet, one_more, Sent, Busy, Stands, Draining, Drains,
}
use live_tests.Service.Drain.Step.{Draining-cancel}

pub All-zip :
    (P Q : PeerId × Block → Type 0) (xs : List (PeerId × Block))
    → All P xs
    → All Q xs
    → All (λ x. P x × Q x) xs
All-zip P Q [] h k = tt
All-zip P Q (x ∷ xs) h k = ((h.0, k.0), All-zip P Q xs h.1 k.1)

wanted_self : (items : List (PeerId × Block)) → All (λ x. wanted (key x) items ≡ true) items
wanted_self [] = tt
wanted_self (x ∷ items) = (
  ground (arith, ==_refl x.0, ==_refl x.1.cid),
  All-mono (λ y. wanted (key y) items ≡ true) (λ y. wanted (key y) (x ∷ items) ≡ true)
      (λ y h. ground arith) items (wanted_self items),
)

module _ (world : World) (s : Service) (w : List (PeerId × Cid)) (r : Represents s.block_exchange w)
    (busy : Busy s.pending_send_block (held_wants s.block_exchange w)) where
  abbrev items : List (PeerId × Block)
  items = held_wants s.block_exchange w

  abbrev bound : ℕ
  bound = unserved s.pending_send_block items + length s.pending_send_block

  first-Stands :
      (x : PeerId × Block)
      → (wanted (key x) items ≡ true) × Held s.block_exchange x
      → Stands s s items x
  first-Stands x (want, held) = elim (Bool-cases (contains (key x) s.pending_send_block)) [
    | inl on_way ↦ inl on_way
    | inr free ↦ inr (inr (want, free, held))
  ]

  pub Cancels-Draining : (n : ℕ) (t : Service) → Cancels world s n t → Draining s items bound n t
  Cancels-Draining _ _ none_yet = record {
    wants = w;
    represents = r;
    busy = busy;
    measure = omega arith;
    stands = All-mono _ _ first-Stands items (
        All-zip (λ x. wanted (key x) items ≡ true) (Held s.block_exchange) items (wanted_self items)
          (held_wants-Held s.block_exchange w));
  }
  Cancels-Draining _ _ (one_more {n} {t} {u} before (cancels peer_id cid was e)) =
      let d = Cancels-Draining n t before in
      let (u', e', d') =
        Draining-cancel world s t d.wants d.represents peer_id cid was items bound n d.busy
          d.measure d.stands in
      let same : u' ≡ u = cc in subst (Draining s items bound (suc n)) same d'

  finished :
      (t : Service) (n : ℕ)
      → Draining s items bound n t
      → (sent : List (PeerId × Cid)) → t.pending_send_block ≡ sent
      → ((u : Service) × Cancel world t u)
        ⊎ ((t.pending_send_block ≡ [])
            × ((left : List (PeerId × Cid)) × Represents t.block_exchange left
                × (held_wants t.block_exchange left ≡ []))
            × All (λ x. (contains (key x) s.pending_send_block ≡ true) ⊎ Sent x t.effects) items)
  unfolding contains
  finished t n d [] e =
      let empty : held_wants t.block_exchange d.wants ≡ [] = elim d.busy [
        | inl none_left ↦ none_left
        | inr some_sent ↦ absurd (ground arith)
      ] in
      let where_stands : (x : PeerId × Block)
          → Stands s t (held_wants t.block_exchange d.wants) x
          → (contains (key x) s.pending_send_block ≡ true) ⊎ Sent x t.effects =
        λ x st. elim st [
          | inl at_start ↦ inl at_start
          | inr (inl sent) ↦ inr sent
          | inr (inr (want, _, _)) ↦ absurd (let q = ap (wanted (key x)) empty in cc)
        ] in
      inr (e, (d.wants, d.represents, empty), All-mono _ _ where_stands items d.stands)
  finished t n d ((peer_id, cid) ∷ sent) e =
      let was : contains (peer_id, cid) t.pending_send_block ≡ true =
        rw (e, ==_refl peer_id, ==_refl cid) refl in
      let (u, returns, _) =
        Draining-cancel world s t d.wants d.represents peer_id cid was items bound n d.busy
          d.measure d.stands in
      inl (u, cancels peer_id cid was returns)

  -- If something is on its way while a block that is held is wanted: when the peers cancel their wants
  -- as the blocks come, in whatever order, there are no more cancels than blocks that waited for
  -- their turn or were on their way. As long as something is on its way another cancel can follow;
  -- in the end nothing is, no block that is held is wanted, and each that was has been sent, or was
  -- on its way before.
  pub Cancels-Drains : (n : ℕ) (t : Service) → Cancels world s n t → Drains world s w n t
  Cancels-Drains n t c =
      let d = Cancels-Draining n t c in
      let m = d.measure in (omega arith, finished t n d t.pending_send_block refl)
