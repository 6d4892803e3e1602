-- ===== src/Ipfs/Fetch/Handled.antt =====
-- What a step of the service for one CID does to those who wait for blocks.
use live_tests.Base.{◌≡◌, ◌⊎◌, inl, inr, ap, ◌∙◌, List, ◌++◌, false, some, ◌==◌, ==→≡, Bool-cases}
use live_tests.Exchange.{Cid}
use live_tests.Client.{Sender}
use live_tests.Service.{Service}
use live_tests.Service.Table.{get}
use live_tests.Service.Events.{Effect, Reply}
use live_tests.Ipfs.{answer_to}
use live_tests.Ipfs.Answers.{answer_to-found}

-- The channel has an answer.
abbrev pub Told : Service → Sender → Type 0
Told s k = (r : Reply) × (answer_to k s.effects ≡ some r)

-- The channel is the one that the block goes to.
abbrev pub Expects : Service → Cid × Sender → Type 0
Expects s x = get x.0 s.pending_get_block ≡ some x.1

abbrev pub Kept : Service → Cid × Sender → Type 0
Kept s x = Told s x.1 ⊎ Expects s x

pub record Handles (cid : Cid) (s t : Service) : Type 0 where
  pub extended : (more : List Effect) × (t.effects ≡ s.effects ++ more)
  pub others :
      (c : Cid) → (cid == c) ≡ false → get c t.pending_get_block ≡ get c s.pending_get_block
  pub told : (k : Sender) → get cid s.pending_get_block ≡ some k → Told t k

module _ (cid : Cid) (s t : Service) (h : Handles cid s t) where
  Told-Handles : (k : Sender) → Told s k → Told t k
  Told-Handles k (r, e) =
      let (more, longer) = h.extended in
      (r, ap (answer_to k) longer ∙ answer_to-found k s.effects more r e)

  -- Who has an answer or expects the block still does.
  pub Kept-Handles : (x : Cid × Sender) → Kept s x → Kept t x
  Kept-Handles x (inl told) = inl (Told-Handles x.1 told)
  Kept-Handles x (inr expects) = elim (Bool-cases (cid == x.0)) [
    | inl same ↦
        let at = ap (λ c. get c s.pending_get_block) (==→≡ cid x.0 same) in
        inl (h.told x.1 (at ∙ expects))
    | inr other ↦ inr (h.others x.0 other ∙ expects)
  ]
