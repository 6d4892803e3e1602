-- ===== src/Ipfs/Fetch/Asked.antt =====
-- Getting several blocks at once: the channels that are made, and what the service does with the
-- commands (`play` of video_player.rs, BlockGet of ipfs/background.rs).
use live_tests.Base.{
  suc, ◌≡◌, ◌⊎◌, inl, inr, refl, sym, ap, ◌∙◌, subst, List, [], ◌∷◌, ◌++◌, map, true, false, some,
  ok, ◌>>=◌, All, All-mono, Any, length, ◌==◌, ==→≡, ==_refl, Bool-cases, Option-cases,
}
use mathlib.Core.List.{append_assoc, append-nil}
use live_tests.Exchange.{Cid}
use live_tests.Client.{Sender, Command}
use live_tests.Client.Handle
use live_tests.Client.Handle.{IpfsClient}
use live_tests.Service.{Service, emit, already_getting, command, displaced}
use live_tests.Service.Table.{get, insert, get-insert}
use live_tests.Service.Events.{World, replies, block_reply, refused, wants_block}
use live_tests.Service.Stuck.{AllListen}
use live_tests.Ipfs.{Ipfs, take, take_times, answer_to}
use live_tests.Ipfs.Answers.{answer_to-found, answer_to-last}
use live_tests.Ipfs.Reach.{Fresh, calls, gets_block}
use live_tests.Ipfs.Reach.Kept.{Step-Fresh}
use live_tests.Ipfs.Fetch.{request_all}
use live_tests.Ipfs.Fetch.Handled.{Expects, Kept, Handles, Kept-Handles}

-- The CIDs with their channels.
abbrev pub numbered : List Cid → Sender → List (Cid × Sender)
numbered [] k = []
numbered (cid ∷ cids) k = (cid, k) ∷ numbered cids (suc k)

abbrev pub get_cmd : Cid × Sender → Command
get_cmd x = Command.block_get x.0 x.1

abbrev asked_one : Cid → IpfsClient → IpfsClient
asked_one cid c = record c {
  next_channel = suc c.next_channel;
  sent = c.sent ++ Command.block_get cid c.next_channel ∷ [];
}

abbrev pub asked_all : List Cid → IpfsClient → IpfsClient
asked_all [] c = c
asked_all (cid ∷ cids) c = asked_all cids (asked_one cid c)

pub request_all_lem :
    (cids : List Cid) (c : IpfsClient)
    → c.service_alive ≡ true
    → request_all cids c ≡ ok (asked_all cids c, map (λ x. x.1) (numbered cids c.next_channel))
unfolding request_all Handle.get_block
request_all_lem [] c alive = refl
request_all_lem (cid ∷ cids) c alive =
    let first : Handle.get_block cid c ≡ ok (asked_one cid c, c.next_channel) = rw alive refl in
    ap (λ o. o >>= λ x. request_all cids x.0 >>= λ y. ok (y.0, x.1 ∷ y.1)) first
    ∙ ap (λ o. o >>= λ y. ok (y.0, c.next_channel ∷ y.1))
        (request_all_lem cids (asked_one cid c) alive)

pub asked_all-sent :
    (cids : List Cid) (c : IpfsClient)
    → (asked_all cids c).sent ≡ c.sent ++ map get_cmd (numbered cids c.next_channel)
asked_all-sent [] c = sym (append-nil c.sent)
asked_all-sent (cid ∷ cids) c =
    asked_all-sent cids (asked_one cid c)
    ∙ append_assoc c.sent (Command.block_get cid c.next_channel ∷ [])
        (map get_cmd (numbered cids (suc c.next_channel)))

pub asked_all-alive :
    (cids : List Cid) (c : IpfsClient) → (asked_all cids c).service_alive ≡ c.service_alive
asked_all-alive [] c = refl
asked_all-alive (cid ∷ cids) c = asked_all-alive cids (asked_one cid c)

pub asked_all-Fresh :
    (cids : List Cid) (n : Ipfs)
    → n.client.service_alive ≡ true
    → Fresh n
    → Fresh (record n { client = asked_all cids n.client })
unfolding Handle.get_block
asked_all-Fresh [] n alive f = f
asked_all-Fresh (cid ∷ cids) n alive f =
    asked_all-Fresh cids (record n { client = asked_one cid n.client }) alive
      (Step-Fresh n _
        (calls (asked_one cid n.client) (gets_block cid n.client.next_channel (rw alive refl))) f)

-- The service receives one of the commands.
pub record Asks (x : Cid × Sender) (s t : Service) : Type 0 where
  pub handles : Handles x.0 s t
  pub expects : Expects t x
  pub same_exchange : t.block_exchange ≡ s.block_exchange

command-Asks :
    (world : World) (s : Service) (x : Cid × Sender)
    → AllListen world
    → (t : Service) × (command world s (get_cmd x) ≡ ok t) × Asks x s t
unfolding command displaced answer_to
command-Asks world s (cid, k) listen =
    let found : get cid (insert cid k s.pending_get_block) ≡ some k =
      rw (get-insert cid cid k s.pending_get_block, ==_refl cid) refl in
    let apart : (c : Cid)
        → (cid == c) ≡ false
        → get c (insert cid k s.pending_get_block) ≡ get c s.pending_get_block =
      λ c other. get-insert cid c k s.pending_get_block ∙ rw other refl in
    let stored : Service = record s { pending_get_block = insert cid k s.pending_get_block } in
    elim (Option-cases (get cid s.pending_get_block)) [
      | inl nobody ↦ (
        emit (wants_block cid 0) stored,
        rw nobody refl,
        record {
          handles = record {
            extended = (wants_block cid 0 ∷ [], refl);
            others = apart;
            told = λ j e. cc;
          };
          expects = found;
          same_exchange = refl;
        },
      )
      | inr (j, somebody) ↦
          let already = replies j (block_reply (refused already_getting)) in
          let told_off = emit already stored in
          (
            emit (wants_block cid 0) told_off,
            rw (somebody, listen j) refl,
            record {
              handles = record {
                extended = (already ∷ wants_block cid 0 ∷ [], append_assoc s.effects _ _);
                others = apart;
                told = λ k' e.
                    let same : j ≡ k' = cc in
                    let (r, h) = answer_to-last k' s.effects (refused already_getting) in
                    (
                      r,
                      answer_to-found k' told_off.effects (wants_block cid 0 ∷ []) r (
                          ap
                            (λ i.
                              answer_to k' (
                                s.effects
                                ++ replies i (block_reply (refused already_getting)) ∷ []))
                            same
                          ∙ h),
                    );
              };
              expects = found;
              same_exchange = refl;
            },
          )
    ]

-- It receives all of them.
abbrev pub AsksAll : List (Cid × Sender) → Service → Service → Type 0
AsksAll [] s t = t ≡ s
AsksAll (x ∷ xs) s u = (t : Service) × Asks x s t × AsksAll xs t u

pub take_times-AsksAll :
    (world : World) (xs : List (Cid × Sender)) (n : Ipfs)
    → AllListen world
    → n.client.sent ≡ map get_cmd xs
    → (t : Service) × (take_times world (length xs) n
        ≡ record { client = record n.client { sent = [] }; service = t })
      × AsksAll xs n.service t
unfolding take
take_times-AsksAll world [] n listen sent =
    (n.service, λ i. record n { client = record n.client { sent = sent i } }, refl)
take_times-AsksAll world (x ∷ xs) n listen sent =
    let (t, returns, asks) = command-Asks world n.service x listen in
    let m : Ipfs = record { client = record n.client { sent = map get_cmd xs }; service = t } in
    let first : take world n ≡ m = rw (sent, returns) refl in
    let (u, rest, all) = take_times-AsksAll world xs m listen refl in
    (u, ap (take_times world (length xs)) first ∙ rest, (t, asks, all))

-- Somebody among these expects the block.
abbrev pub Waits : Service → List (Cid × Sender) → Cid → Type 0
Waits s xs cid = Any (λ x. (x.0 ≡ cid) × Expects s x) xs

module _ (u : Service) where
  pub AsksAll-same :
      (xs : List (Cid × Sender)) (s : Service)
      → AsksAll xs s u
      → u.block_exchange ≡ s.block_exchange
  AsksAll-same [] s e = ap (λ t. t.block_exchange) e
  AsksAll-same (x ∷ xs) s (t, a, all) = AsksAll-same xs t all ∙ a.same_exchange

  Kept-AsksAll :
      (xs : List (Cid × Sender)) (s : Service) (y : Cid × Sender)
      → AsksAll xs s u
      → Kept s y
      → Kept u y
  Kept-AsksAll [] s y e h = subst (λ t. Kept t y) (sym e) h
  Kept-AsksAll (x ∷ xs) s y (t, a, all) h =
      Kept-AsksAll xs t y all (Kept-Handles x.0 s t a.handles y h)

  -- All are answered or expect their blocks.
  pub AsksAll-Kept : (xs : List (Cid × Sender)) (s : Service) → AsksAll xs s u → All (Kept u) xs
  AsksAll-Kept [] s e = tt
  AsksAll-Kept (x ∷ xs) s (t, a, all) =
      (Kept-AsksAll xs t x all (inr a.expects), AsksAll-Kept xs t all)

  -- Who expected a block still does, unless a later one does.
  still_expected :
      (xs : List (Cid × Sender)) (s : Service) (y : Cid × Sender)
      → AsksAll xs s u
      → Expects s y
      → Expects u y ⊎ Waits u xs y.0
  still_expected [] s y e h = inl (subst (λ t. Expects t y) (sym e) h)
  still_expected (x ∷ xs) s y (t, a, all) h = elim (Bool-cases (x.0 == y.0)) [
    | inl same ↦ elim (still_expected xs t x all a.expects) [
      | inl e ↦ inr (inl (==→≡ x.0 y.0 same, e))
      | inr w ↦ inr (inr (subst (Waits u xs) (==→≡ x.0 y.0 same) w))
    ]
    | inr other ↦ elim (still_expected xs t y all (a.handles.others y.0 other ∙ h)) [
      | inl e ↦ inl e
      | inr w ↦ inr (inr w)
    ]
  ]

  -- For every CID one does.
  pub AsksAll-Waits :
      (xs : List (Cid × Sender)) (s : Service) → AsksAll xs s u → All (λ x. Waits u xs x.0) xs
  AsksAll-Waits [] s e = tt
  AsksAll-Waits (x ∷ xs) s (t, a, all) = (
    elim (still_expected xs t x all a.expects) [ inl e ↦ inl (refl, e) | inr w ↦ inr w ],
    All-mono _ _ (λ y w. inr w) xs (AsksAll-Waits xs t all),
  )
