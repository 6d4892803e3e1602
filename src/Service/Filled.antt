-- ===== src/Service/Filled.antt =====
-- Wants of peers, one after the other, for a service that sends nothing yet (bitswap of
-- ipfs/background.rs): what is sent, and what is on its way after them.
pub mod Emptied
mod Tests
use live_tests.Base.{
  ℕ, suc, ◌+◌, ◌≤◌, ◌<◌, ◌≡◌, ◌⊎◌, inl, inr, refl, sym, ap, subst, ◌∙◌, List, [], ◌∷◌, ◌++◌, map,
  Bool, true, false, Option, none, some, Outcome, ok, ◌>>=◌, All, length, length-append, ◌==◌,
  Bool-cases, Option-cases, arith,
}
use mathlib.Core.List.{append_assoc}
use live_tests.Exchange.{PeerId, Cid, Block, BlockExchange, get_block, add_want}
use live_tests.Exchange.Represents.{Represents}
use live_tests.Exchange.Want.{add_want-Represents}
use live_tests.Exchange.Iterate.{held_wants}
use live_tests.Exchange.Lookup.{get_block-add_want, Held, held_wants-Held, held_wants-append}
use live_tests.Service.{Service}
use live_tests.Service.Table.{pair_eq, contains}
use live_tests.Service.Events.{World, Effect, sends_block, behaviour, bitswap_event, received_want}
use live_tests.Service.Bitswap.{bitswap}
use live_tests.Service.Run.{Turn, swarm_next, event, composed, run}
use live_tests.Service.Sending.{key, OnItsWay, sending, FirstServed, Serves, received_want-Serves}
use live_tests.Service.Unserved.{unserved, unserved-zero, unserved-served}
use live_tests.Service.Drain.{Sent, Busy}
use live_tests.Service.Drain.OnWay.{All-Busy, All-middle, Sent-append, pair_eq→≡}

-- What is on its way to a peer is a block that was sent to it.
abbrev pub SentOff : Service → PeerId × Cid → Type 0
SentOff t k = (b : Block) × (get_block t.block_exchange k.1 ≡ some b) × Sent (k.0, b) t.effects

-- The state after some wants.
pub record Filled (s : Service) (w : List (PeerId × Cid)) (t : Service) : Type 0 where
  pub represents : Represents t.block_exchange w
  pub blocks : (c : Cid) → get_block t.block_exchange c ≡ get_block s.block_exchange c
  pub limit : t.max_concurrent_send ≡ s.max_concurrent_send
  pub busy : Busy t.pending_send_block (held_wants t.block_exchange w)
  pub count :
      unserved t.pending_send_block (held_wants t.block_exchange w) + length t.pending_send_block
      ≤ length w
  pub sent : (k : PeerId × Cid) → contains k t.pending_send_block ≡ true → SentOff t k

unserved-append :
    (sent : List (PeerId × Cid)) (xs ys : List (PeerId × Block))
    → unserved sent (xs ++ ys) ≡ unserved sent xs + unserved sent ys
unserved-append sent [] ys = omega arith
unserved-append sent (x ∷ xs) ys = ground (arith, unserved-append sent xs ys)

-- One want more is at most one more block that waits for its turn.
unserved-held_wants :
    (e : BlockExchange) (sent : List (PeerId × Cid)) (w : List (PeerId × Cid)) (x : PeerId × Cid)
    → unserved sent (held_wants e (w ++ x ∷ [])) ≤ suc (unserved sent (held_wants e w))
unserved-held_wants e sent w x =
    let split = ap (unserved sent) (held_wants-append e w (x ∷ [])) in
    let parts = unserved-append sent (held_wants e w) (held_wants e (x ∷ [])) in
    elim (Option-cases (get_block e x.1)) [
      | inl miss ↦
          let last : unserved sent (held_wants e (x ∷ [])) ≤ 1 = rw miss (omega arith) in
          omega arith
      | inr (b, hit) ↦
          let last : unserved sent (held_wants e (x ∷ [])) ≤ 1 = rw hit (ground arith) in
          omega arith
    ]

held_wants-add_want :
    (e : BlockExchange) (w v : List (PeerId × Cid)) (peer_id : PeerId) (cid : Cid)
    → Represents e w
    → held_wants (add_want e peer_id cid) v ≡ held_wants e v
held_wants-add_want e w [] peer_id cid r = refl
held_wants-add_want e w (x ∷ v) peer_id cid r =
    rw (get_block-add_want e w peer_id cid x.1 r, held_wants-add_want e w v peer_id cid r) refl

module _ (world : World) (s : Service) (some_room : 0 < s.max_concurrent_send) where
  module _ (t : Service) (w : List (PeerId × Cid)) (f : Filled s w t) (peer_id : PeerId)
      (cid : Cid) where
    abbrev u : Service
    u = record t { block_exchange = add_want t.block_exchange peer_id cid }

    abbrev w' : List (PeerId × Cid)
    w' = w ++ (peer_id, cid) ∷ []

    abbrev items : List (PeerId × Block)
    items = held_wants u.block_exchange w'

    kept_blocks : (c : Cid) → get_block u.block_exchange c ≡ get_block s.block_exchange c
    kept_blocks c = get_block-add_want t.block_exchange w peer_id cid c f.represents ∙ f.blocks c

    counted : unserved u.pending_send_block items + length u.pending_send_block ≤ length w'
    counted =
        let before = f.count in
        let same = held_wants-add_want t.block_exchange w w peer_id cid f.represents in
        omega (
          arith,
          ap (unserved t.pending_send_block) same,
          unserved-held_wants u.block_exchange t.pending_send_block w (peer_id, cid),
          length-append w ((peer_id, cid) ∷ []),
        )

    off : (k : PeerId × Cid) → contains k u.pending_send_block ≡ true → SentOff u k
    off k on_way =
        let (b, found, sent) = f.sent k on_way in
        (b, get_block-add_want t.block_exchange w peer_id cid k.1 f.represents ∙ found, sent)

    -- Nothing more is sent.
    unchanged : Represents u.block_exchange w' → Busy u.pending_send_block items → Filled s w' u
    unchanged r busy = record {
      represents = r;
      blocks = kept_blocks;
      limit = f.limit;
      busy = busy;
      count = counted;
      sent = off;
    }

    one_sent :
        Represents u.block_exchange w'
        → (before : List (PeerId × Block)) (x : PeerId × Block) (rest : List (PeerId × Block))
        → items ≡ before ++ x ∷ rest
        → contains (key x) u.pending_send_block ≡ false
        → Filled s w' (sending x u)
    unfolding contains
    one_sent r before x rest split free =
        let held =
          All-middle (Held u.block_exchange) before x rest
            (subst (All (Held u.block_exchange)) split (held_wants-Held u.block_exchange w')) in
        record {
          represents = r;
          blocks = kept_blocks;
          limit = f.limit;
          busy = inr (omega arith);
          count =
              let now = counted in
              omega (
                arith,
                ap (unserved u.pending_send_block) split,
                ap (unserved (key x ∷ u.pending_send_block)) split,
                unserved-served u.pending_send_block before x rest free,
              );
          sent = λ k on_way. elim (Bool-cases (pair_eq k (key x))) [
            | inl same ↦
                subst (SentOff (sending x u)) (sym (pair_eq→≡ k (key x) same))
                  (x.1, held, (t.effects, [], refl))
            | inr other ↦
                let (b, found, sent) = off k (ground arith) in
                (b, found, Sent-append (k.0, b) t.effects (sends_block x.0 x.1) sent)
          ];
        }

    pub wanted-Filled :
        (priority : ℕ)
        → (v : Service) × (bitswap world t (received_want peer_id cid priority) ≡ ok v)
          × Filled s w' v
    wanted-Filled priority =
        let (r, served) = received_want-Serves world t w peer_id cid priority f.represents in
        elim served [
          | inl (full, e) ↦ (u, e, unchanged r (let m = f.limit in inr (omega arith)))
          | inr (_, inl (all, e)) ↦ (u, e, unchanged r (All-Busy u.pending_send_block items all))
          | inr (_, inr (before, x, rest, split, all, free, e)) ↦
              (sending x u, e, one_sent r before x rest split free)
        ]
