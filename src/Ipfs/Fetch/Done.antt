-- ===== src/Ipfs/Fetch/Done.antt =====
-- When the task that fetches the blocks of a segment is done (`play` of video_player.rs).
use live_tests.Base.{
  ℕ, suc, ◌≡◌, inl, inr, refl, sym, ap, ◌∙◌, subst, List, [], ◌∷◌, ◌++◌, map, true, false, none,
  some, ok, All, All-mono, Any, Any-mono, length, if◌then◌else◌, Bool-cases, arith,
}
use live_tests.Exchange.{PeerId, Cid, Block}
use live_tests.Exchange.Ops.{IsValid}
use live_tests.Client.{Sender}
use live_tests.Client.Handle.{IpfsClient}
use live_tests.Service.{Service}
use live_tests.Service.Events.{World}
use live_tests.Service.Stuck.{AllListen}
use live_tests.Ipfs.{Ipfs, take_times, hear}
use live_tests.Ipfs.Reach.{Fresh, hears}
use live_tests.Ipfs.Reach.Kept.{Step-Fresh, take_times-Fresh}
use live_tests.Ipfs.Calls.{Idle, with_client, arrives}
use live_tests.Ipfs.Fetch.{request_all, fetch, brought, arrived, all_arrived}
use live_tests.Ipfs.Fetch.Joined.{join_all-done, join_all-waits}
use live_tests.Ipfs.Fetch.Handled.{Told, Expects, Kept}
use live_tests.Ipfs.Fetch.Asked.{
  numbered, get_cmd, asked_all, request_all_lem, asked_all-sent, asked_all-alive, asked_all-Fresh,
  AsksAll, take_times-AsksAll, Waits, AsksAll-same, AsksAll-Kept, AsksAll-Waits,
}
use live_tests.Ipfs.Fetch.Brought.{BringsAll, brought-BringsAll, Kept-BringsAll, missing, delivered}

brought-Fresh :
    (world : World) (xs : List (PeerId × Block)) (n : Ipfs) → Fresh n → Fresh (brought world xs n)
brought-Fresh world [] n f = f
brought-Fresh world (x ∷ xs) n f =
    brought-Fresh world xs (hear world (arrives x.0 x.1) n)
      (Step-Fresh n _ (hears world (arrives x.0 x.1)) f)

-- Who waits in the end.
module _ (bs : List (PeerId × Block)) (t u : Service) (brings : BringsAll bs t u) where
  came-Told :
      (xs : List (Cid × Sender))
      → all_arrived (map (λ x. x.0) xs) bs ≡ true
      → All (Kept u) xs
      → All (λ x. Told u x.1) xs
  came-Told [] came h = tt
  came-Told (x ∷ xs) came (kept, h) =
      let (here, rest) : (arrived x.0 bs ≡ true) × (all_arrived (map (λ x. x.0) xs) bs ≡ true) =
        ground arith in
      (
        elim kept [
          | inl told ↦ told
          | inr expects ↦ let nobody = delivered u bs t x.0 brings here in absurd cc
        ],
        came-Told xs rest h,
      )

  missing-Expects :
      (xs whole : List (Cid × Sender))
      → all_arrived (map (λ x. x.0) xs) bs ≡ false
      → All (λ x. Waits t whole x.0) xs
      → Any (Expects u) whole
  missing-Expects [] whole short w = cc
  missing-Expects (x ∷ xs) whole short (w, ws) = elim (Bool-cases (arrived x.0 bs)) [
    | inl came ↦ missing-Expects xs whole (ground arith) ws
    | inr lost ↦
        Any-mono _ _
          (λ y (same, expects).
            missing u bs t y.0 brings (ap (λ c. arrived c bs) same ∙ lost) ∙ expects)
          whole w
  ]

length-numbered : (cids : List Cid) (k : Sender) → length (numbered cids k) ≡ length cids
length-numbered [] k = refl
length-numbered (cid ∷ cids) k = ap suc (length-numbered cids (suc k))

cids-numbered : (cids : List Cid) (k : Sender) → map (λ x. x.0) (numbered cids k) ≡ cids
cids-numbered [] k = refl
cids-numbered (cid ∷ cids) k = ap (◌∷◌ cid) (cids-numbered cids (suc k))

abbrev pub Fetches : World → List Cid → List (PeerId × Block) → ℕ → ℕ → Ipfs → Type 0
Fetches world cids bs count timestamp n =
    (c : IpfsClient) × (ks : List Sender) × (request_all cids n.client ≡ ok (c, ks))
    × (fetch count timestamp ks
          (brought world bs (take_times world (length cids) (with_client n c)))
        ≡ (if all_arrived cids bs then some (ok (count, timestamp)) else none))

-- What the commands and the blocks come to.
record Settled (cids : List Cid) (bs : List (PeerId × Block)) (n m : Ipfs) : Type 0 where
  between : Service
  asks : AsksAll (numbered cids n.client.next_channel) n.service between
  brings : BringsAll bs between m.service
  alive : m.client.service_alive ≡ true
  fresh : Fresh m

settled :
    (world : World) (cids : List Cid) (bs : List (PeerId × Block)) (n : Ipfs)
    → AllListen world
    → Idle n
    → IsValid n.service.block_exchange
    → Settled cids bs n (
        brought world bs (take_times world (length cids) (with_client n (asked_all cids n.client))))
settled world cids bs n listen i v =
    let c = asked_all cids n.client in
    let xs = numbered cids n.client.next_channel in
    let sent = asked_all-sent cids n.client ∙ ap (λ l. l ++ map get_cmd xs) i.received in
    let (t, took, asks) = take_times-AsksAll world xs (with_client n c) listen sent in
    let taken : Ipfs = record { client = record c { sent = [] }; service = t } in
    let alive = asked_all-alive cids n.client ∙ i.alive in
    let valid = subst IsValid (sym (AsksAll-same t xs n.service asks)) v in
    let (u, came, brings) = brought-BringsAll world bs taken listen alive valid in
    let path = ap (brought world bs) took ∙ came in
    let fresh =
      brought-Fresh world bs _
        (take_times-Fresh world (length xs) _ (asked_all-Fresh cids n i.alive i.fresh)) in
    let there : Settled cids bs n (record taken { service = u }) = record {
      between = t;
      asks = asks;
      brings = brings;
      alive = alive;
      fresh = subst Fresh path fresh;
    } in
    subst (λ l. Settled cids bs n (brought world bs (take_times world l (with_client n c))))
      (length-numbered cids n.client.next_channel) (subst (Settled cids bs n) (sym path) there)

-- The task for an announcement sends its commands without a panic, whatever CIDs it has. Once the
-- service has received them and some blocks have come from peers, the task has reported the segment
-- with its number and timestamp if every CID of the announcement is the CID of one of the blocks; if
-- not, it waits. (The service had received all commands before, its exchange is valid, and whoever
-- waits for a block listens. Others may wait for the same blocks, and a CID may be there twice.)
pub fetch-all_arrived :
    (world : World) (cids : List Cid) (bs : List (PeerId × Block)) (count timestamp : ℕ) (n : Ipfs)
    → AllListen world
    → Idle n
    → IsValid n.service.block_exchange
    → Fetches world cids bs count timestamp n
unfolding fetch
fetch-all_arrived world cids bs count timestamp n listen i v =
    let c = asked_all cids n.client in
    let k = n.client.next_channel in
    let xs = numbered cids k in
    let m = brought world bs (take_times world (length cids) (with_client n c)) in
    let s = settled world cids bs n listen i v in
    let kept =
      All-mono _ _ (λ y h. Kept-BringsAll m.service bs s.between y s.brings h) xs
        (AsksAll-Kept s.between xs n.service s.asks) in
    let there = ap (λ l. all_arrived l bs) (cids-numbered cids k) in
    let waiting = AsksAll-Waits s.between xs n.service s.asks in
    (
      c,
      map (λ x. x.1) xs,
      request_all_lem cids n.client i.alive,
      elim (Bool-cases (all_arrived cids bs)) [
        | inl whole ↦
            let told = came-Told bs s.between m.service s.brings xs (there ∙ whole) kept in
            let (rs, e) = join_all-done m s.alive s.fresh xs told in rw (e, whole) refl
        | inr short ↦
            let some_wait =
              missing-Expects bs s.between m.service s.brings xs xs (there ∙ short) waiting in
            rw (join_all-waits m s.alive s.fresh xs kept some_wait, short) refl
      ],
    )
