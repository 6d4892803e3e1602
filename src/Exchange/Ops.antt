-- ===== src/Exchange/Ops.antt =====
-- The mutating methods of the exchange as one type of calls, and sequences of them.
use live_tests.Base.{◌≡◌, refl, List, [], ◌∷◌, Outcome, ok, ◌>>=◌}
use live_tests.Exchange.{
  PeerId, Cid, Block, BlockExchange, default, add_want, remove_want, remove_wants,
  insertion_sort_wants, add_block,
}
use live_tests.Exchange.Represents.{Represents, default-Represents}
use live_tests.Exchange.Want.{add_want-Represents}
use live_tests.Exchange.Remove.{remove_want-Keeps, remove_wants-Keeps}
use live_tests.Exchange.Sort.{insertion_sort_wants-Grouped}
use live_tests.Exchange.AddBlock.Both.{add_block_cases}
use live_tests.Base.{inl, inr}

pub data Call : Type 0 where
  adds_want removes_want : PeerId → Cid → Call
  removes_wants : Cid → Call
  sorts_wants : Call
  adds_block : Block → Call

unfoldable pub apply : BlockExchange → Call → Outcome BlockExchange
apply e (adds_want peer_id cid) = ok (add_want e peer_id cid)
apply e (removes_want peer_id cid) = remove_want e peer_id cid
apply e (removes_wants cid) = remove_wants e cid
apply e sorts_wants = insertion_sort_wants e
apply e (adds_block b) = do (e', _) ← add_block e b; ok e'

unfoldable pub apply_all : BlockExchange → List Call → Outcome BlockExchange
unfolding apply
apply_all e [] = ok e
apply_all e (c ∷ cs) = do e' ← apply e c; apply_all e' cs

abbrev pub IsValid : BlockExchange → Type 0
IsValid e = (w : List (PeerId × Cid)) × Represents e w

abbrev pub ReturnsValid : Outcome BlockExchange → Type 0
ReturnsValid out = (e : BlockExchange) × (out ≡ ok e) × IsValid e

-- A call on a valid exchange does not panic, and leaves a valid one.
pub apply-IsValid : (e : BlockExchange) (c : Call) → IsValid e → ReturnsValid (apply e c)
unfolding apply
apply-IsValid e (adds_want peer_id cid) (w, r) =
    (add_want e peer_id cid, refl, (_, (add_want-Represents e w peer_id cid r).0))
apply-IsValid e (removes_want peer_id cid) (w, r) =
    let k = remove_want-Keeps e w peer_id cid r in (k.after, k.returns, (_, k.represents))
apply-IsValid e (removes_wants cid) (w, r) =
    let k = remove_wants-Keeps e w cid r in (k.after, k.returns, (_, k.represents))
apply-IsValid e sorts_wants (w, r) =
    let g = insertion_sort_wants-Grouped e w r in (g.after, g.returns, (g.wants, g.represents))
apply-IsValid e (adds_block b) (w, r) = elim (add_block_cases e w b r) [
  | inl (old, held, returns) ↦ (e, rw returns refl, (w, r))
  | inr (after, missing, returns, s) ↦ (after, rw returns refl, (_, s.represents))
]

apply_all-IsValid : (e : BlockExchange) (cs : List Call) → IsValid e → ReturnsValid (apply_all e cs)
unfolding apply_all
apply_all-IsValid e [] v = (e, refl, v)
apply_all-IsValid e (c ∷ cs) v =
    let (e', returns, v') = apply-IsValid e c v in
    let (out, rest, valid) = apply_all-IsValid e' cs v' in (out, rw returns rest, valid)

-- From the empty exchange no sequence of calls panics, and each ends in a valid exchange.
pub apply_all-default : (cs : List Call) → ReturnsValid (apply_all default cs)
apply_all-default cs = apply_all-IsValid default cs ([], default-Represents)
