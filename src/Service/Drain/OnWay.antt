-- ===== src/Service/Drain/OnWay.antt =====
-- What is on its way to a peer, and what was sent.
use mathlib.Core.List.{append_assoc}
use live_tests.Base.{
  ◌<◌, ◌≡◌, inl, inr, refl, ap, ◌∙◌, List, [], ◌∷◌, ◌++◌, true, All, length, arith,
}
use live_tests.Exchange.{PeerId, Cid, Block}
use live_tests.Service.Table.{pair_eq, contains}
use live_tests.Service.Events.{Effect, sends_block}
use live_tests.Service.Sending.{key}
use live_tests.Service.Unserved.{wanted}
use live_tests.Service.Drain.{Sent, Busy}

pub pair_eq→≡ : (x y : PeerId × Cid) → pair_eq x y ≡ true → x ≡ y
pair_eq→≡ x y h =
    let first : x.0 ≡ y.0 = ground arith in
    let second : x.1 ≡ y.1 = ground arith in λ i. (first i, second i)

contains-length :
    (k : PeerId × Cid) (sent : List (PeerId × Cid)) → contains k sent ≡ true → 0 < length sent
unfolding contains
contains-length k [] h = cc
contains-length k (x ∷ sent) h = omega arith

-- A wanted key is on its way if all items are.
pub wanted_on_way :
    (k : PeerId × Cid) (sent : List (PeerId × Cid)) (items : List (PeerId × Block))
    → All (λ x. contains (key x) sent ≡ true) items
    → wanted k items ≡ true
    → contains k sent ≡ true
wanted_on_way k sent [] h q = cc
wanted_on_way k sent (x ∷ items) h q = ground (arith, wanted_on_way k sent items h.1)

pub All-Busy :
    (sent : List (PeerId × Cid)) (items : List (PeerId × Block))
    → All (λ x. contains (key x) sent ≡ true) items
    → Busy sent items
All-Busy sent [] h = inl refl
All-Busy sent (x ∷ items) h = inr (contains-length (key x) sent h.0)

pub All-middle :
    (P : PeerId × Block → Type 0) (before : List (PeerId × Block)) (y : PeerId × Block)
    (rest : List (PeerId × Block))
    → All P (before ++ y ∷ rest)
    → P y
All-middle P [] y rest h = h.0
All-middle P (x ∷ before) y rest h = All-middle P before y rest h.1

pub Sent-append :
    (x : PeerId × Block) (effects : List Effect) (f : Effect)
    → Sent x effects
    → Sent x (effects ++ f ∷ [])
Sent-append x effects f (before, after, e) = (
  before,
  after ++ f ∷ [],
  ap (λ l. l ++ f ∷ []) e ∙ append_assoc before (sends_block x.0 x.1 ∷ after) (f ∷ []),
)
