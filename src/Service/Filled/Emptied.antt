-- ===== src/Service/Filled/Emptied.antt =====
-- Peers want blocks, and cancel each want when the block has come (bitswap of ipfs/background.rs).
use live_tests.Base.{
  ℕ, ◌+◌, ◌≤◌, ◌<◌, ◌≡◌, ◌⊎◌, inl, inr, refl, sym, ap, subst, List, [], ◌∷◌, ◌++◌, map, true, some,
  Outcome, ok, All, All-mono, length, arith,
}
use mathlib.Core.List.{append_assoc, append-nil}
use live_tests.Exchange.{PeerId, Cid, Block, BlockExchange, get_block}
use live_tests.Exchange.Represents.{Represents}
use live_tests.Exchange.Iterate.{held_wants}
use live_tests.Exchange.Lookup.{Held, held_wants-Held}
use live_tests.Service.{Service}
use live_tests.Service.Table.{contains}
use live_tests.Service.Events.{World, sends_block, behaviour, bitswap_event, received_want}
use live_tests.Service.Run.{Turn, swarm_next, event, composed, run}
use live_tests.Service.Sending.{key, sending, FirstServed, received_cancel-FirstServed}
use live_tests.Service.Drain.{Cancel, cancels, Cancels, none_yet, one_more, Sent, Busy}
use live_tests.Service.Drain.OnWay.{Sent-append}
use live_tests.Service.Drain.Ends.{All-zip, Cancels-Draining, Cancels-Drains}
use live_tests.Service.Filled.{Filled, wanted-Filled}

-- The turns in which the peers' wants come.
abbrev pub wants_of : World → ℕ → List (PeerId × Cid) → List Turn
wants_of world priority ws =
    map (λ x. swarm_next world (some (behaviour (bitswap_event (received_want x.0 x.1 priority)))))
      ws

-- So many cancels once the service has come to a state.
pub data CancelsAfter (world : World) (out : Outcome Service) (n : ℕ) (u : Service) : Type 0 where
  after : (t : Service) → out ≡ ok t → Cancels world t n u → CancelsAfter world out n u

start-Filled :
    (s : Service) → Represents s.block_exchange [] → s.pending_send_block ≡ [] → Filled s [] s
unfolding contains
start-Filled s r nothing = record {
  represents = r;
  blocks = λ c. refl;
  limit = refl;
  busy = inl refl;
  count = rw nothing (omega arith);
  sent = λ k on_way. let none_is = ap (contains k) nothing in absurd cc;
}

run-Filled :
    (world : World) (s : Service) (priority : ℕ) (ws : List (PeerId × Cid)) (t : Service)
    (w : List (PeerId × Cid))
    → 0 < s.max_concurrent_send
    → Filled s w t
    → (v : Service) × (run t (wants_of world priority ws) ≡ ok v) × Filled s (w ++ ws) v
unfolding run event composed
run-Filled world s priority [] t w room f =
    (t, refl, subst (λ x. Filled s x t) (sym (append-nil w)) f)
run-Filled world s priority (x ∷ ws) t w room f =
    let (u, returns, g) = wanted-Filled world s room t w f x.0 x.1 priority in
    let (v, rest, h) = run-Filled world s priority ws u (w ++ x ∷ []) room g in
    (v, rw returns rest, subst (λ x. Filled s x v) (append_assoc w (x ∷ []) ws) h)

-- What was sent stays sent.
Sent-FirstServed :
    (t u : Service) (items : List (PeerId × Block)) (out : Outcome Service) (x : PeerId × Block)
    → FirstServed t items out
    → out ≡ ok u
    → Sent x t.effects
    → Sent x u.effects
Sent-FirstServed t u items out x (inl (_, e)) returns sent =
    let same : t ≡ u = cc in subst (λ s. Sent x s.effects) same sent
Sent-FirstServed t u items out x (inr (before, y, rest, _, _, _, e)) returns sent =
    let same : sending y t ≡ u = cc in
    subst (λ s. Sent x s.effects) same (Sent-append x t.effects (sends_block y.0 y.1) sent)

Cancel-Sent :
    (world : World) (t u : Service) (w : List (PeerId × Cid)) (x : PeerId × Block)
    → Represents t.block_exchange w
    → Cancel world t u
    → Sent x t.effects
    → Sent x u.effects
Cancel-Sent world t u w x r (cancels peer_id cid was e) sent =
    let (exchange, (_, _, served)) = received_cancel-FirstServed world t w peer_id cid r in
    elim served [
      | inl (gone, _) ↦ absurd (ground arith)
      | inr (_, first) ↦ Sent-FirstServed _ u _ _ x first e sent
    ]

module _ (world : World) (t : Service) (w : List (PeerId × Cid)) (r : Represents t.block_exchange w)
    (busy : Busy t.pending_send_block (held_wants t.block_exchange w)) where
  Cancels-Sent :
      (n : ℕ) (u : Service) (x : PeerId × Block)
      → Cancels world t n u
      → Sent x t.effects
      → Sent x u.effects
  Cancels-Sent _ _ x none_yet sent = sent
  Cancels-Sent _ _ x (one_more {n = i} {t = m} {u = v} before one) sent =
      let d = Cancels-Draining world t w r busy i m before in
      Cancel-Sent world m v d.wants x d.represents one (Cancels-Sent i m x before sent)

held_wants_ext :
    (e e' : BlockExchange) (w : List (PeerId × Cid))
    → ((c : Cid) → get_block e' c ≡ get_block e c)
    → held_wants e' w ≡ held_wants e w
held_wants_ext e e' [] h = refl
held_wants_ext e e' (x ∷ w) h = rw (h x.1, held_wants_ext e e' w h) refl

-- The service has taken the wants. There were no more cancels than wants, and either another can
-- follow, or nothing is on its way and all that is held was sent to those who wanted it.
abbrev pub Empties : World → ℕ → List (PeerId × Cid) → Service → ℕ → Service → Type 0
Empties world priority ws s n u =
    ((t : Service) × (run s (wants_of world priority ws) ≡ ok t))
    × (n + length u.pending_send_block ≤ length ws)
    × (((v : Service) × Cancel world u v)
        ⊎ ((u.pending_send_block ≡ [])
            × All (λ x. Sent x u.effects) (held_wants s.block_exchange ws)))

-- Peers want some blocks of a service that nobody wanted anything of, that has nothing on its way
-- and that may send at least one block at a time. The service takes all the wants. When then the
-- peers cancel their wants as the blocks come, in whatever order, there are no more cancels than
-- wants; as long as something is on its way another cancel can follow, and when nothing is, every
-- block that is held has been sent to every peer that wanted it.
pub CancelsAfter-Empties :
    (world : World) (s : Service) (priority : ℕ) (ws : List (PeerId × Cid)) (n : ℕ) (u : Service)
    → Represents s.block_exchange []
    → s.pending_send_block ≡ []
    → 0 < s.max_concurrent_send
    → CancelsAfter world (run s (wants_of world priority ws)) n u
    → Empties world priority ws s n u
CancelsAfter-Empties world s priority ws n u r nothing room (after t' returns' chain') =
    let (t, returns, f) = run-Filled world s priority ws s [] room (start-Filled s r nothing) in
    let same : t' ≡ t = cc in
    let chain = subst (λ v. Cancels world v n u) same chain' in
    let items = held_wants t.block_exchange ws in
    let (measure, outcome) = Cancels-Drains world t ws f.represents f.busy n u chain in
    let count = f.count in
    (
      (t, returns),
      omega arith,
      elim outcome [
        | inl another ↦ inl another
        | inr (empty, _, stands) ↦
            let all = All-mono _ _ (was_sent t f chain) items (
              All-zip (Held t.block_exchange) _ items (held_wants-Held t.block_exchange ws)
                stands) in
            inr (
              empty,
              subst (All (λ x. Sent x u.effects))
                  (held_wants_ext s.block_exchange t.block_exchange ws f.blocks) all,
            )
      ],
    )
  where
    was_sent :
        (t : Service)
        → Filled s ws t
        → Cancels world t n u
        → (x : PeerId × Block)
        → Held t.block_exchange x
          × ((contains (key x) t.pending_send_block ≡ true) ⊎ Sent x u.effects)
        → Sent x u.effects
    was_sent t f chain x (held, inr sent) = sent
    was_sent t f chain x (held, inl on_way) =
        let (b, found, sent) = f.sent (key x) on_way in
        let same : b ≡ x.1 = cc in
        Cancels-Sent world t ws f.represents f.busy n u x chain
          (subst (λ y. Sent (x.0, y) t.effects) same sent)
