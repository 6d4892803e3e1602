-- ===== src/Service/Drain/Step.antt =====
-- One cancel more, in what the peers cancel as the blocks come (bitswap of ipfs/background.rs).
use live_tests.Base.{
  ℕ, suc, ◌+◌, ◌≤◌, ◌≡◌, inl, inr, refl, sym, ap, subst, ◌∙◌, List, [], ◌∷◌, ◌++◌, map, true, false,
  some, Outcome, ok, All, All-mono, retain, length, Bool-cases, arith,
}
use live_tests.Exchange.{PeerId, Cid, Block, BlockExchange, get_block}
use live_tests.Exchange.Represents.{Represents}
use live_tests.Exchange.Remove.{other_want, remove_want-Keeps}
use live_tests.Exchange.Iterate.{held_wants, iter_wanted_blocks-held_wants}
use live_tests.Exchange.Lookup.{
  get_block_same, held_wants_same, Held, held_wants-Held, held_wants-retain,
}
use live_tests.Service.{Service}
use live_tests.Service.Table.{pair_eq, contains, discard, contains-discard, length-discard_found}
use live_tests.Service.Events.{World, sends_block, received_cancel}
use live_tests.Service.Bitswap.{send_first, bitswap}
use live_tests.Service.Sending.{key, OnItsWay, sending, FirstServed, send_first-FirstServed}
use live_tests.Service.Unserved.{
  unserved, wanted, unserved-zero, unserved-served, unserved-cancel, wanted-retain, other_item,
}
use live_tests.Service.Drain.{Busy, Stands, Draining}
use live_tests.Service.Drain.OnWay.{pair_eq→≡, wanted_on_way, All-Busy, All-middle, Sent-append}

module _ (world : World) (s : Service) where
  -- The exchange and what is on its way after a cancel, before anything else is sent.
  module _ (t : Service) (w : List (PeerId × Cid)) (r : Represents t.block_exchange w)
      (peer_id : PeerId) (cid : Cid)
      (was : contains (peer_id, cid) t.pending_send_block ≡ true) where
    abbrev left : List (PeerId × Block)
    left = retain (other_item peer_id cid) (held_wants t.block_exchange w)

    -- What the cancel comes to: everything is on its way, or one more is sent.
    cancelled :
        (exchange : BlockExchange) × (out : Outcome Service) × Represents exchange
          (retain (other_want peer_id cid) w)
        × ((c : Cid) → get_block exchange c ≡ get_block t.block_exchange c)
        × (held_wants exchange (retain (other_want peer_id cid) w) ≡ left)
        × (bitswap world t (received_cancel peer_id cid) ≡ out)
        × FirstServed
            (record t {
              block_exchange = exchange;
              pending_send_block = discard (peer_id, cid) t.pending_send_block;
            })
            left
            out
    unfolding bitswap
    cancelled =
        let k = remove_want-Keeps t.block_exchange w peer_id cid r in
        let w' = retain (other_want peer_id cid) w in
        let fewer =
          held_wants_same t.block_exchange k.after k.same_cids k.same_datums w'
          ∙ held_wants-retain t.block_exchange peer_id cid w in
        let u : Service = record t {
          block_exchange = k.after;
          pending_send_block = discard (peer_id, cid) t.pending_send_block;
        } in
        (
          k.after,
          send_first (map ok left) u,
          k.represents,
          get_block_same t.block_exchange k.after k.same_cids k.same_datums,
          fewer,
          rw (k.returns, was, iter_wanted_blocks-held_wants k.after w' k.represents, fewer) refl,
          send_first-FirstServed u left,
        )

    -- A want that waits is not the one that was cancelled, and still waits or was sent.
    module _ (x : PeerId × Block) (want : wanted (key x) (held_wants t.block_exchange w) ≡ true)
        (free : contains (key x) t.pending_send_block ≡ false) where
      not_cancelled : pair_eq (peer_id, cid) (key x) ≡ false
      not_cancelled = elim (Bool-cases (pair_eq (peer_id, cid) (key x))) [
        | inl same ↦
            let at =
              ap (λ k. contains k t.pending_send_block) (pair_eq→≡ (peer_id, cid) (key x) same) in
            absurd (ground arith)
        | inr other ↦ other
      ]

      still_wanted : wanted (key x) left ≡ true
      still_wanted =
          wanted-retain peer_id cid (key x) (held_wants t.block_exchange w) not_cancelled ∙ want

      still_free : contains (key x) (discard (peer_id, cid) t.pending_send_block) ≡ false
      still_free =
          contains-discard (peer_id, cid) (key x) t.pending_send_block
          ∙ rw (not_cancelled, free) refl

    -- Where a wanted block stands after the cancel.
    module _ (exchange : BlockExchange)
        (blocks : (c : Cid) → get_block exchange c ≡ get_block t.block_exchange c) where
      abbrev rest_of : Service
      rest_of = record t {
        block_exchange = exchange;
        pending_send_block = discard (peer_id, cid) t.pending_send_block;
      }

      on_way-Stands :
          All (OnItsWay rest_of) left
          → (x : PeerId × Block) → Stands s t (held_wants t.block_exchange w) x
          → Stands s rest_of left x
      on_way-Stands all x (inl at_start) = inl at_start
      on_way-Stands all x (inr (inl sent)) = inr (inl sent)
      on_way-Stands all x (inr (inr (want, free, held))) =
          let on_way =
            wanted_on_way (key x) rest_of.pending_send_block left all (still_wanted x want free) in
          let not_on_way = still_free x want free in absurd (ground arith)

      same_item :
          (x y : PeerId × Block)
          → pair_eq (key x) (key y) ≡ true
          → Held exchange x
          → Held exchange y
          → y ≡ x
      same_item x y same hx hy =
          let peer : y.0 ≡ x.0 = ground arith in
          let cids : y.1.cid ≡ x.1.cid = ground arith in
          let found : some y.1 ≡ some x.1 = sym hy ∙ ap (get_block exchange) cids ∙ hx in
          let block : y.1 ≡ x.1 = cc in λ i. (peer i, block i)

      sending-Stands :
          (y : PeerId × Block)
          → Held exchange y
          → (x : PeerId × Block) → Stands s t (held_wants t.block_exchange w) x
          → Stands s (sending y rest_of) left x
      unfolding contains
      sending-Stands y hy x (inl at_start) = inl at_start
      sending-Stands y hy x (inr (inl sent)) =
          inr (inl (Sent-append x t.effects (sends_block y.0 y.1) sent))
      sending-Stands y hy x (inr (inr (want, free, held))) =
          let hx = blocks x.1.cid ∙ held in
          elim (Bool-cases (pair_eq (key x) (key y))) [
            | inl same ↦ inr (
                inl (
                  t.effects,
                  [],
                  ap (λ z. t.effects ++ sends_block z.0 z.1 ∷ []) (same_item x y same hx hy),
                ))
            | inr other ↦
                inr (inr (still_wanted x want free, rw (other, still_free x want free) refl, hx))
          ]

    -- One more cancel.
    pub Draining-cancel :
        (items : List (PeerId × Block)) (bound n : ℕ)
        → Busy t.pending_send_block (held_wants t.block_exchange w)
        → n
            + unserved t.pending_send_block (held_wants t.block_exchange w)
            + length t.pending_send_block
          ≤ bound
        → All (Stands s t (held_wants t.block_exchange w)) items
        → (u : Service) × (bitswap world t (received_cancel peer_id cid) ≡ ok u)
          × Draining s items bound (suc n) u
    Draining-cancel items bound n busy measure stands =
        let (exchange, out, represents, blocks, fewer, returns, served) = cancelled in
        let u : Service = record t {
          block_exchange = exchange;
          pending_send_block = discard (peer_id, cid) t.pending_send_block;
        } in
        let removed = length-discard_found (peer_id, cid) t.pending_send_block was in
        let waiting =
          unserved-cancel peer_id cid t.pending_send_block (held_wants t.block_exchange w) was in
        elim served [
          | inl (all, e) ↦ (
            u,
            returns ∙ e,
            record {
              wants = retain (other_want peer_id cid) w;
              represents = represents;
              busy = rw fewer (All-Busy u.pending_send_block left all);
              measure = rw fewer (omega (arith, unserved-zero u.pending_send_block left all));
              stands = rw fewer (All-mono _ _ (on_way-Stands exchange blocks all) items stands);
            },
          )
          | inr (before, y, rest, split, all, free, e) ↦
              let hy = All-middle (Held exchange) before y rest (
                subst (All (Held exchange)) (fewer ∙ split)
                  (held_wants-Held exchange (retain (other_want peer_id cid) w))) in
              (
                sending y u,
                returns ∙ e,
                record {
                  wants = retain (other_want peer_id cid) w;
                  represents = represents;
                  busy = inr (omega arith);
                  measure = rw fewer (
                      omega (
                        arith,
                        ap (unserved u.pending_send_block) split,
                        ap (unserved (key y ∷ u.pending_send_block)) split,
                        unserved-served u.pending_send_block before y rest free,
                      ));
                  stands =
                      rw fewer (All-mono _ _ (sending-Stands exchange blocks y hy) items stands);
                },
              )
        ]
