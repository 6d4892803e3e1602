-- ===== src/Service/Unserved.antt =====
-- Which wanted blocks that are held are not on their way, and what a cancel and a sending change.
use live_tests.Base.{
  ℕ, suc, ◌≤◌, ◌≡◌, refl, List, [], ◌∷◌, ◌++◌, Bool, true, false, ◌||◌, All, retain, if◌then◌else◌,
  arith,
}
use live_tests.Exchange.{PeerId, Cid, Block}
use live_tests.Exchange.Remove.{other_want}
use live_tests.Service.Table.{pair_eq, contains, discard, contains-discard}
use live_tests.Service.Sending.{key}

abbrev pub unserved : List (PeerId × Cid) → List (PeerId × Block) → ℕ
unserved sent [] = 0
unserved sent (x ∷ items) =
    let rest = unserved sent items in if contains (key x) sent then rest else suc rest

-- Whether an item has the key.
abbrev pub wanted : PeerId × Cid → List (PeerId × Block) → Bool
wanted k [] = false
wanted k (x ∷ items) = pair_eq k (key x) || wanted k items

pub unserved-zero :
    (sent : List (PeerId × Cid)) (items : List (PeerId × Block))
    → All (λ x. contains (key x) sent ≡ true) items
    → unserved sent items ≡ 0
unserved-zero sent [] h = refl
unserved-zero sent (x ∷ items) h = rw h.0 (unserved-zero sent items h.1)

-- Where one more is on its way, no more are unserved, and one fewer if it was.
unserved-cons :
    (k : PeerId × Cid) (sent : List (PeerId × Cid)) (items : List (PeerId × Block))
    → unserved (k ∷ sent) items ≤ unserved sent items
unfolding contains
unserved-cons k sent [] = omega arith
unserved-cons k sent (x ∷ items) = ground (arith, unserved-cons k sent items)

pub unserved-served :
    (sent : List (PeerId × Cid)) (before : List (PeerId × Block)) (x : PeerId × Block)
    (rest : List (PeerId × Block))
    → contains (key x) sent ≡ false
    → suc (unserved (key x ∷ sent) (before ++ x ∷ rest)) ≤ unserved sent (before ++ x ∷ rest)
unfolding contains
unserved-served sent [] x rest free = ground (arith, unserved-cons (key x) sent rest)
unserved-served sent (y ∷ before) x rest free =
    ground (arith, unserved-served sent before x rest free)

module _ (peer_id : PeerId) (cid : Cid) where
  abbrev pub other_item : PeerId × Block → Bool
  other_item x = other_want peer_id cid (key x)

  -- A cancel of what is on its way leaves as much unserved.
  pub unserved-cancel :
      (sent : List (PeerId × Cid)) (items : List (PeerId × Block))
      → contains (peer_id, cid) sent ≡ true
      → unserved (discard (peer_id, cid) sent) (retain other_item items) ≡ unserved sent items
  unserved-cancel sent [] was = refl
  unserved-cancel sent (x ∷ items) was =
      ground (arith, contains-discard (peer_id, cid) (key x) sent, unserved-cancel sent items was)

  pub wanted-retain :
      (k : PeerId × Cid) (items : List (PeerId × Block))
      → pair_eq (peer_id, cid) k ≡ false
      → wanted k (retain other_item items) ≡ wanted k items
  wanted-retain k [] other = refl
  wanted-retain k (x ∷ items) other = ground (arith, wanted-retain k items other)
