-- ===== src/Service/Sending.antt =====
-- Which block is sent: the first wanted one that is held and not on its way already.
use live_tests.Base.{
  ℕ, ◌≤◌, ◌<◌, ◌≡◌, ◌⊎◌, inl, inr, refl, ap, List, [], ◌∷◌, ◌++◌, map, Bool, true, false, All,
  retain, Outcome, ok, length, leb, leb→le, leb→lt, Bool-cases, Option, none, some,
}
use live_tests.Exchange.{PeerId, Cid, Block, BlockExchange, add_want, remove_want, add_block}
use live_tests.Exchange.Represents.{Represents}
use live_tests.Exchange.Want.{add_want-Represents}
use live_tests.Exchange.Remove.{other_want, remove_want-Keeps}
use live_tests.Exchange.Iterate.{held_wants, iter_wanted_blocks-held_wants}
use live_tests.Exchange.AddBlock.Both.{add_block_cases}
use live_tests.Client.{Sender}
use live_tests.Service.{Service, emit, answer_if}
use live_tests.Service.Table.{contains, discard, get, delete}
use live_tests.Service.Events.{
  World, received_block, received_want, received_cancel, sends_block, replies, Reply, block_reply,
  accepted,
}
use live_tests.Service.Bitswap.{send_first, serve, bitswap}

abbrev pub key : PeerId × Block → PeerId × Cid
key x = (x.0, x.1.cid)

abbrev pub OnItsWay : Service → PeerId × Block → Type 0
OnItsWay s x = contains (key x) s.pending_send_block ≡ true

abbrev pub sending : PeerId × Block → Service → Service
sending x s =
    emit (sends_block x.0 x.1) (record s { pending_send_block = key x ∷ s.pending_send_block })

-- All the items are on their way and nothing is done, or the first that is not gets sent.
abbrev pub FirstServed : Service → List (PeerId × Block) → Outcome Service → Type 0
FirstServed s items out =
    (All (OnItsWay s) items × (out ≡ ok s))
    ⊎ ((before : List (PeerId × Block)) × (x : PeerId × Block) × (rest : List (PeerId × Block))
        × (items ≡ before ++ x ∷ rest)
        × All (OnItsWay s) before
        × (contains (key x) s.pending_send_block ≡ false)
        × (out ≡ ok (sending x s)))

pub send_first-FirstServed :
    (s : Service) (items : List (PeerId × Block))
    → FirstServed s items (send_first (map ok items) s)
unfolding send_first
send_first-FirstServed s [] = inl (tt, refl)
send_first-FirstServed s (x ∷ items) = elim (Bool-cases (contains (key x) s.pending_send_block)) [
  | inl busy ↦ elim (send_first-FirstServed s items) [
    | inl (all, e) ↦ inl ((busy, all), rw busy e)
    | inr (before, y, rest, e, h, free, done) ↦
        inr (x ∷ before, y, rest, ap (◌∷◌ x) e, (busy, h), free, rw busy done)
  ]
  | inr free ↦ inr ([], x, items, refl, tt, free, rw free refl)
]

-- At the limit nothing is done; below it the first item that is not on its way is sent.
abbrev pub Serves : Service → List (PeerId × Cid) → Outcome Service → Type 0
Serves s w out =
    ((s.max_concurrent_send ≤ length s.pending_send_block) × (out ≡ ok s))
    ⊎ ((length s.pending_send_block < s.max_concurrent_send)
        × FirstServed s (held_wants s.block_exchange w) out)

pub serve-Serves :
    (s : Service) (w : List (PeerId × Cid)) → Represents s.block_exchange w → Serves s w (serve s)
unfolding serve
serve-Serves s w r = elim (Bool-cases (leb s.max_concurrent_send (length s.pending_send_block))) [
  | inl full ↦ inl (leb→le _ _ full, rw full refl)
  | inr room ↦ inr (
    leb→lt s.max_concurrent_send (length s.pending_send_block) room,
    rw (room, iter_wanted_blocks-held_wants s.block_exchange w r)
        (send_first-FirstServed s (held_wants s.block_exchange w)),
  )
]

abbrev pub WantServed : World → Service → List (PeerId × Cid) → PeerId → Cid → ℕ → Type 0
WantServed world s w peer_id cid priority =
    let t = record s { block_exchange = add_want s.block_exchange peer_id cid } in
    Represents t.block_exchange (w ++ (peer_id, cid) ∷ [])
    × Serves t (w ++ (peer_id, cid) ∷ []) (bitswap world s (received_want peer_id cid priority))

-- A want is recorded behind the others. Then, at the limit of blocks on their way, nothing is sent;
-- below it the first wanted block that is held and not on its way to its peer is sent, and no other.
pub received_want-Serves :
    (world : World) (s : Service) (w : List (PeerId × Cid)) (peer_id : PeerId) (cid : Cid)
    (priority : ℕ)
    → Represents s.block_exchange w
    → WantServed world s w peer_id cid priority
unfolding bitswap
received_want-Serves world s w peer_id cid priority r =
    let r' = (add_want-Represents s.block_exchange w peer_id cid r).0 in
    (
      r',
      serve-Serves (record s { block_exchange = add_want s.block_exchange peer_id cid })
          (w ++ (peer_id, cid) ∷ []) r',
    )

abbrev pub CancelServed : World → Service → List (PeerId × Cid) → PeerId → Cid → Type 0
CancelServed world s w peer_id cid =
    (exchange : BlockExchange) × (let left = record s {
      block_exchange = exchange;
      pending_send_block = discard (peer_id, cid) s.pending_send_block;
    } in
      let out = bitswap world s (received_cancel peer_id cid) in
      (remove_want s.block_exchange peer_id cid ≡ ok exchange)
      × Represents exchange (retain (other_want peer_id cid) w)
      × (((contains (peer_id, cid) s.pending_send_block ≡ false) × (out ≡ ok left))
          ⊎ ((contains (peer_id, cid) s.pending_send_block ≡ true)
              × FirstServed left (held_wants exchange (retain (other_want peer_id cid) w)) out)))

-- A cancelled want goes, and so does the block on its way for it. If there was one, the first
-- wanted block that is held and not on its way to its peer takes its place; if not, none is sent.
pub received_cancel-FirstServed :
    (world : World) (s : Service) (w : List (PeerId × Cid)) (peer_id : PeerId) (cid : Cid)
    → Represents s.block_exchange w
    → CancelServed world s w peer_id cid
unfolding bitswap
received_cancel-FirstServed world s w peer_id cid r =
    let k = remove_want-Keeps s.block_exchange w peer_id cid r in
    let left : Service = record s {
      block_exchange = k.after;
      pending_send_block = discard (peer_id, cid) s.pending_send_block;
    } in
    (
      k.after,
      (
        k.returns,
        k.represents,
        elim (Bool-cases (contains (peer_id, cid) s.pending_send_block)) [
          | inl was ↦ inr (
            was,
            rw (k.returns, was, iter_wanted_blocks-held_wants k.after _ k.represents)
                (send_first-FirstServed left _),
          )
          | inr was ↦ inl (was, rw (k.returns, was) refl)
        ],
      ),
    )

-- The state after a waiting client, if there is one, was answered.
abbrev pub answered : Option Sender → Reply → Service → Service
answered none r s = s
answered (some sender) r s = emit (replies sender r) s

pub answer_if-answered :
    (world : World) (waiting : Option Sender) (r : Reply) (s : Service)
    → ((k : Sender) → waiting ≡ some k → world.listening k ≡ true)
    → answer_if world waiting r s ≡ ok (answered waiting r s)
unfolding answer_if
answer_if-answered world none r s h = refl
answer_if-answered world (some k) r s h = rw (h k refl) refl

abbrev pub BlockServed : World → Service → PeerId → Block → Type 0
BlockServed world s peer_id b =
    (exchange : BlockExchange) × (added : Bool) × (w' : List (PeerId × Cid)) × (add_block
        s.block_exchange b
      ≡ ok (exchange, added))
    × Represents exchange w'
    × Serves
        (answered (get b.cid s.pending_get_block) (block_reply (accepted b)) (record s {
          block_exchange = exchange;
          pending_get_block = delete b.cid s.pending_get_block;
        }))
        w' (bitswap world s (received_block peer_id b))

-- A received block is put into the exchange, and the client that waits for it, if any (and still
-- listening), is answered with it and waits no more. Then, at the limit of blocks on their way,
-- nothing is sent; below it the first wanted block that is held and not on its way is sent.
pub received_block-Serves :
    (world : World) (s : Service) (w : List (PeerId × Cid)) (peer_id : PeerId) (b : Block)
    → Represents s.block_exchange w
    → ((k : Sender) → get b.cid s.pending_get_block ≡ some k → world.listening k ≡ true)
    → BlockServed world s peer_id b
unfolding bitswap
received_block-Serves world s w peer_id b r listening =
    let (exchange, added, w', returns, r') = taken_in in
    let stored : Service = record s {
      block_exchange = exchange;
      pending_get_block = delete b.cid s.pending_get_block;
    } in
    let waiting = get b.cid s.pending_get_block in
    let told = answer_if-answered world waiting (block_reply (accepted b)) stored listening in
    (exchange, added, w', returns, r', rw (returns, told) (served waiting stored w' r'))
  where
    taken_in :
        (exchange : BlockExchange) × (added : Bool) × (w' : List (PeerId × Cid)) × (add_block
            s.block_exchange b
          ≡ ok (exchange, added))
        × Represents exchange w'
    taken_in = elim (add_block_cases s.block_exchange w b r) [
      | inl (old, held, returns) ↦ (s.block_exchange, false, w, returns, r)
      | inr (after, missing, returns, st) ↦ (after, true, _, returns, st.represents)
    ]

    served :
        (waiting : Option Sender) (t : Service) (v : List (PeerId × Cid))
        → Represents t.block_exchange v
        → Serves
            (answered waiting (block_reply (accepted b)) t)
            v
            (serve (answered waiting (block_reply (accepted b)) t))
    served none t v h = serve-Serves t v h
    served (some k) t v h = serve-Serves (emit (replies k (block_reply (accepted b))) t) v h
