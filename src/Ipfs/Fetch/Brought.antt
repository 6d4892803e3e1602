-- ===== src/Ipfs/Fetch/Brought.antt =====
-- What blocks that come from peers do to those who wait for them (`bitswap` of ipfs/background.rs).
use live_tests.Base.{
  ◌≡◌, inl, inr, refl, sym, subst, ap, ◌∙◌, List, [], ◌∷◌, ◌++◌, true, false, Option, none, some,
  Outcome, ok, ◌==◌, ==→≡, ==_refl, Bool-cases, arith,
}
use mathlib.Core.List.{append-nil, append_assoc}
use live_tests.Exchange.{PeerId, Cid, Block}
use live_tests.Exchange.Represents.{Represents}
use live_tests.Exchange.Ops.{IsValid}
use live_tests.Client.{Sender}
use live_tests.Service.{Service}
use live_tests.Service.Table.{get, delete, get-delete}
use live_tests.Service.Events.{
  World, Reply, Effect, block_reply, accepted, received_block, replies, sends_block,
}
use live_tests.Service.Bitswap.{bitswap}
use live_tests.Service.Sending.{Serves, sending, answered, received_block-Serves}
use live_tests.Service.Stuck.{AllListen}
use live_tests.Ipfs.{Ipfs, hear, answer_to}
use live_tests.Ipfs.Answers.{answer_to-last, answer_to-found}
use live_tests.Ipfs.Calls.{arrives, hear-arrives}
use live_tests.Ipfs.Fetch.{arrived, brought}
use live_tests.Ipfs.Fetch.Handled.{Kept, Handles, Kept-Handles}

pub record Brings (b : Block) (s t : Service) : Type 0 where
  pub handles : Handles b.cid s t
  pub nobody : get b.cid t.pending_get_block ≡ none
  pub valid : IsValid t.block_exchange

-- More is done, but not to those who wait for blocks.
record Passes (s t : Service) : Type 0 where
  extended : (more : List Effect) × (t.effects ≡ s.effects ++ more)
  table : t.pending_get_block ≡ s.pending_get_block
  exchange : t.block_exchange ≡ s.block_exchange

same-Passes : (s : Service) → Passes s s
same-Passes s = record {
  extended = ([], sym (append-nil s.effects));
  table = refl;
  exchange = refl;
}

answered-Passes :
    (waiting : Option Sender) (r : Reply) (s : Service) → Passes s (answered waiting r s)
answered-Passes none r s = same-Passes s
answered-Passes (some k) r s = record {
  extended = (replies k r ∷ [], refl);
  table = refl;
  exchange = refl;
}

served-Passes :
    (s : Service) (w : List (PeerId × Cid)) (out : Outcome Service)
    → Serves s w out
    → (t : Service) × (out ≡ ok t) × Passes s t
served-Passes s w out (inl (_, e)) = (s, e, same-Passes s)
served-Passes s w out (inr (_, inl (_, e))) = (s, e, same-Passes s)
served-Passes s w out (inr (_, inr (before, x, rest, _, _, _, e))) = (
  sending x s,
  e,
  record { extended = (sends_block x.0 x.1 ∷ [], refl); table = refl; exchange = refl },
)

bitswap-Brings :
    (world : World) (s : Service) (peer_id : PeerId) (b : Block)
    → AllListen world
    → IsValid s.block_exchange
    → (t : Service) × (bitswap world s (received_block peer_id b) ≡ ok t) × Brings b s t
bitswap-Brings world s peer_id b listen (w, r) =
    let (exchange, added, w', _, r', served) =
      received_block-Serves world s w peer_id b r (λ k e. listen k) in
    let waiting = get b.cid s.pending_get_block in
    let got = block_reply (accepted b) in
    let stored : Service = record s {
      block_exchange = exchange;
      pending_get_block = delete b.cid s.pending_get_block;
    } in
    let told = answered-Passes waiting got stored in
    let (t, returns, sent) = served-Passes (answered waiting got stored) w' _ served in
    let (more, first) = told.extended in
    let (later, second) = sent.extended in
    let table = sent.table ∙ told.table in
    (
      t,
      returns,
      record {
        handles = record {
          extended = (
            more ++ later,
            second ∙ ap (λ l. l ++ later) first ∙ append_assoc s.effects more later,
          );
          others =
              λ c other. ap (get c) table ∙ get-delete b.cid c s.pending_get_block ∙ rw other refl;
          told = λ k e.
              let (r, h) = answer_to-last k s.effects (accepted b) in
              let one : answer_to k (answered waiting got stored).effects ≡ some r =
                ap (λ o. answer_to k (answered o got stored).effects) e ∙ h in
              (r, ap (answer_to k) second ∙ answer_to-found k _ later r one);
        };
        nobody =
            ap (get b.cid) table
            ∙ get-delete b.cid b.cid s.pending_get_block
            ∙ rw (==_refl b.cid) refl;
        valid = (w', subst (λ e. Represents e w') (sym (sent.exchange ∙ told.exchange)) r');
      },
    )

-- Several blocks, one after the other.
abbrev pub BringsAll : List (PeerId × Block) → Service → Service → Type 0
BringsAll [] s t = t ≡ s
BringsAll (x ∷ xs) s u = (t : Service) × Brings x.1 s t × BringsAll xs t u

pub brought-BringsAll :
    (world : World) (xs : List (PeerId × Block)) (n : Ipfs)
    → AllListen world
    → n.client.service_alive ≡ true
    → IsValid n.service.block_exchange
    → (t : Service) × (brought world xs n ≡ record n { service = t }) × BringsAll xs n.service t
brought-BringsAll world [] n listen alive v = (n.service, refl, refl)
brought-BringsAll world (x ∷ xs) n listen alive v =
    let (t, returns, brings) = bitswap-Brings world n.service x.0 x.1 listen v in
    let m : Ipfs = record n { service = t } in
    let first : hear world (arrives x.0 x.1) n ≡ m =
      hear-arrives world x.0 x.1 n alive ∙ rw returns refl in
    let (u, rest, all) = brought-BringsAll world xs m listen alive brings.valid in
    (u, ap (brought world xs) first ∙ rest, (t, brings, all))

module _ (u : Service) where
  pub Kept-BringsAll :
      (xs : List (PeerId × Block)) (s : Service) (y : Cid × Sender)
      → BringsAll xs s u
      → Kept s y
      → Kept u y
  Kept-BringsAll [] s y e h = subst (λ t. Kept t y) (sym e) h
  Kept-BringsAll (x ∷ xs) s y (t, b, all) h =
      Kept-BringsAll xs t y all (Kept-Handles x.1.cid s t b.handles y h)

  -- Who waits for a block that does not come still does.
  pub missing :
      (xs : List (PeerId × Block)) (s : Service) (c : Cid)
      → BringsAll xs s u
      → arrived c xs ≡ false
      → get c u.pending_get_block ≡ get c s.pending_get_block
  missing [] s c e none_came = ap (λ t. get c t.pending_get_block) e
  missing (x ∷ xs) s c (t, b, all) none_came =
      let (other, rest) : ((x.1.cid == c) ≡ false) × (arrived c xs ≡ false) = ground arith in
      missing xs t c all rest ∙ b.handles.others c other

  -- Nobody waits for a block any more once it is there.
  gone :
      (xs : List (PeerId × Block)) (s : Service) (c : Cid)
      → BringsAll xs s u
      → get c s.pending_get_block ≡ none
      → get c u.pending_get_block ≡ none
  gone [] s c e h = ap (λ t. get c t.pending_get_block) e ∙ h
  gone (x ∷ xs) s c (t, b, all) h = gone xs t c all (elim (Bool-cases (x.1.cid == c)) [
    | inl same ↦ ap (λ d. get d t.pending_get_block) (sym (==→≡ x.1.cid c same)) ∙ b.nobody
    | inr other ↦ b.handles.others c other ∙ h
  ])

  pub delivered :
      (xs : List (PeerId × Block)) (s : Service) (c : Cid)
      → BringsAll xs s u
      → arrived c xs ≡ true
      → get c u.pending_get_block ≡ none
  delivered [] s c e came = cc
  delivered (x ∷ xs) s c (t, b, all) came = elim (Bool-cases (x.1.cid == c)) [
    | inl same ↦
        gone xs t c all (ap (λ d. get d t.pending_get_block) (sym (==→≡ x.1.cid c same)) ∙ b.nobody)
    | inr other ↦ delivered xs t c all (ground arith)
  ]
