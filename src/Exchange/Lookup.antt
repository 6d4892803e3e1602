-- ===== src/Exchange/Lookup.antt =====
-- What a lookup finds: a block of the CID, by the tables of CIDs and data alone.
use live_tests.Base.{
  ◌++◌, ◌≤◌, length, position, ◌≡◌, inl, inr, refl, ap, ◌∙◌, List, [], ◌∷◌, some, All, retain,
  Bool-cases, Option-cases, arith,
}
use live_tests.Exchange.{
  PeerId, Cid, Bytes, Block, BlockExchange, find_block, get_block, intern, add_want,
}
use live_tests.Exchange.Represents.{Represents}
use live_tests.Exchange.Remove.{other_want}
use live_tests.Exchange.Iterate.{held_wants}

find_block-cid :
    (cid : Cid) (ids : List Cid) (ds : List Bytes) (b : Block)
    → find_block cid ids ds ≡ some b
    → b.cid ≡ cid
unfolding find_block
find_block-cid cid [] ds b h = cc
find_block-cid cid (id ∷ ids) [] b h = cc
find_block-cid cid (id ∷ ids) (d ∷ ds) b h = ground (arith, find_block-cid cid ids ds b)

pub get_block-cid :
    (e : BlockExchange) (cid : Cid) (b : Block) → get_block e cid ≡ some b → b.cid ≡ cid
unfolding get_block
get_block-cid e cid b h = find_block-cid cid e.cids e.datums b h

module _ (e e' : BlockExchange) (cids : e'.cids ≡ e.cids) (datums : e'.datums ≡ e.datums) where
  pub get_block_same : (cid : Cid) → get_block e' cid ≡ get_block e cid
  unfolding get_block
  get_block_same cid = λ i. find_block cid (cids i) (datums i)

  pub held_wants_same : (w : List (PeerId × Cid)) → held_wants e' w ≡ held_wants e w
  held_wants_same [] = refl
  held_wants_same (x ∷ w) = rw (get_block_same x.1, held_wants_same w) refl

module _ (e : BlockExchange) where
  -- Each item is a block that a lookup finds.
  abbrev pub Held : PeerId × Block → Type 0
  Held x = get_block e x.1.cid ≡ some x.1

  pub held_wants-Held : (w : List (PeerId × Cid)) → All Held (held_wants e w)
  held_wants-Held [] = tt
  held_wants-Held (x ∷ w) = elim (Option-cases (get_block e x.1)) [
    | inl miss ↦ rw miss (held_wants-Held w)
    | inr (b, hit) ↦ rw hit (ap (get_block e) (get_block-cid e x.1 b hit) ∙ hit, held_wants-Held w)
  ]

  -- Without a want, its items are not there.
  pub held_wants-retain :
      (peer_id : PeerId) (cid : Cid) (w : List (PeerId × Cid))
      → held_wants e (retain (other_want peer_id cid) w)
        ≡ retain (λ x. other_want peer_id cid (x.0, x.1.cid)) (held_wants e w)
  held_wants-retain peer_id cid [] = refl
  held_wants-retain peer_id cid (x ∷ w) =
      let rest = held_wants-retain peer_id cid w in
      elim (Option-cases (get_block e x.1)) [
        | inl miss ↦ elim (Bool-cases (other_want peer_id cid x)) [
          | inl stays ↦ rw (stays, miss) rest
          | inr goes ↦ rw (goes, miss) rest
        ]
        | inr (b, hit) ↦
            let same = ap (λ c. other_want peer_id cid (x.0, c)) (get_block-cid e x.1 b hit) in
            elim (Bool-cases (other_want peer_id cid x)) [
              | inl stays ↦ rw (stays, hit, same ∙ stays) (ap (◌∷◌ (x.0, b)) rest)
              | inr goes ↦ rw (goes, hit, same ∙ goes) rest
            ]
      ]

-- CIDs behind those with data do not matter.
find_block-append :
    (cid : Cid) (ids more : List Cid) (ds : List Bytes)
    → length ds ≤ length ids
    → find_block cid (ids ++ more) ds ≡ find_block cid ids ds
unfolding find_block
find_block-append cid [] [] [] le = refl
find_block-append cid [] (m ∷ more) [] le = refl
find_block-append cid [] more (d ∷ ds) le = absurd (omega arith)
find_block-append cid (id ∷ ids) more [] le = refl
find_block-append cid (id ∷ ids) more (d ∷ ds) le =
    ground (arith, find_block-append cid ids more ds (omega arith))

-- A want changes no lookup.
pub get_block-add_want :
    (e : BlockExchange) (w : List (PeerId × Cid)) (peer_id : PeerId) (cid c : Cid)
    → Represents e w
    → get_block (add_want e peer_id cid) c ≡ get_block e c
unfolding get_block add_want intern
get_block-add_want e w peer_id cid c r = elim (Option-cases (position cid e.cids)) [
  | inl new ↦ rw new (find_block-append c e.cids (cid ∷ []) e.datums r.held)
  | inr (i, known) ↦ rw known refl
]

pub held_wants-append :
    (e : BlockExchange) (v w : List (PeerId × Cid))
    → held_wants e (v ++ w) ≡ held_wants e v ++ held_wants e w
held_wants-append e [] w = refl
held_wants-append e (x ∷ v) w = elim (Option-cases (get_block e x.1)) [
  | inl miss ↦ rw miss (held_wants-append e v w)
  | inr (b, hit) ↦ rw hit (ap (◌∷◌ (x.0, b)) (held_wants-append e v w))
]
