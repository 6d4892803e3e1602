-- ===== src/Ipfs/Fetch/Joined.antt =====
-- What the joined futures come to, by who has an answer (`join_all` in `play` of video_player.rs).
use live_tests.Base.{
  ◌≤◌, ◌≡◌, ◌⊎◌, inl, inr, refl, ap, List, [], ◌∷◌, map, true, none, some, ok, All, Any, ◌==◌,
  ==_refl, Bool-cases, arith,
}
use live_tests.Exchange.{Cid}
use live_tests.Client.{Sender}
use live_tests.Service.Table.{get}
use live_tests.Service.Events.{Reply}
use live_tests.Service.Uses.{uses_table}
use live_tests.Ipfs.{Ipfs, in_table, held, receive, awaited}
use live_tests.Ipfs.Answers.{receive-held}
use live_tests.Ipfs.Reach.{Fresh}
use live_tests.Ipfs.Fetch.{join_all}
use live_tests.Ipfs.Fetch.Handled.{Told, Expects, Kept}

-- A channel that is found in a table is used there.
found-uses :
    (k : Sender) (c : Cid) (m : List (Cid × Sender)) → get c m ≡ some k → 1 ≤ uses_table k m
unfolding get
found-uses k c [] e = cc
found-uses k c ((j, sender) ∷ m) e = elim (Bool-cases (j == c)) [
  | inl same ↦ let at : sender ≡ k = ground arith in rw (at, ==_refl k) (omega arith)
  | inr other ↦ let rest : get c m ≡ some k = ground arith in omega (arith, found-uses k c m rest)
]

found-in_table :
    (k : Sender) (c : Cid) (m : List (Cid × Sender)) → get c m ≡ some k → in_table k m ≡ true
unfolding get
found-in_table k c [] e = cc
found-in_table k c ((j, sender) ∷ m) e = elim (Bool-cases (j == c)) [
  | inl same ↦ let at : sender ≡ k = ground arith in rw (at, ==_refl k) refl
  | inr other ↦
      let rest : get c m ≡ some k = ground arith in
      let there = found-in_table k c m rest in ground arith
]

module _ (n : Ipfs) (alive : n.client.service_alive ≡ true) (f : Fresh n) where
  Told-receive : (k : Sender) → Told n.service k → (r : Reply) × (receive k n ≡ some (ok r))
  unfolding receive
  Told-receive k (r, e) = (r, ap (λ o. awaited o (held k n)) e)

  Expects-receive : (x : Cid × Sender) → Expects n.service x → receive x.1 n ≡ none
  unfolding held
  Expects-receive x e =
      let used = found-uses x.1 x.0 n.service.pending_get_block e in
      let at_most = f.once x.1 in
      receive-held x.1 n (omega arith)
        (rw (alive, found-in_table x.1 x.0 n.service.pending_get_block e) (ground arith))

  abbrev pub channels : List (Cid × Sender) → List Sender
  channels = map (λ x. x.1)

  pub join_all-done :
      (xs : List (Cid × Sender))
      → All (λ x. Told n.service x.1) xs
      → (rs : List Reply) × (join_all (channels xs) n ≡ some (ok rs))
  unfolding join_all
  join_all-done [] h = ([], refl)
  join_all-done (x ∷ xs) h =
      let (r, e) = Told-receive x.1 h.0 in
      let (rs, rest) = join_all-done xs h.1 in (r ∷ rs, rw (e, rest) refl)

  -- None of the futures panics.
  join_all-safe :
      (xs : List (Cid × Sender))
      → All (Kept n.service) xs
      → (join_all (channels xs) n ≡ none)
        ⊎ ((rs : List Reply) × (join_all (channels xs) n ≡ some (ok rs)))
  unfolding join_all
  join_all-safe [] h = inr ([], refl)
  join_all-safe (x ∷ xs) (inl told, h) =
      let (r, e) = Told-receive x.1 told in
      elim (join_all-safe xs h) [
        | inl rest ↦ inl (rw (e, rest) refl)
        | inr (rs, rest) ↦ inr (r ∷ rs, rw (e, rest) refl)
      ]
  join_all-safe (x ∷ xs) (inr expects, h) =
      let e = Expects-receive x expects in
      elim (join_all-safe xs h) [
        | inl rest ↦ inl (rw (e, rest) refl)
        | inr (rs, rest) ↦ inl (rw (e, rest) refl)
      ]

  pub join_all-waits :
      (xs : List (Cid × Sender))
      → All (Kept n.service) xs
      → Any (Expects n.service) xs
      → join_all (channels xs) n ≡ none
  unfolding join_all
  join_all-waits [] h w = absurd w
  join_all-waits (x ∷ xs) h (inl expects) =
      let e = Expects-receive x expects in
      elim (join_all-safe xs h.1) [
        | inl rest ↦ rw (e, rest) refl
        | inr (rs, rest) ↦ rw (e, rest) refl
      ]
  join_all-waits (x ∷ xs) (inl told, h) (inr w) =
      let (r, e) = Told-receive x.1 told in rw (e, join_all-waits xs h w) refl
  join_all-waits (x ∷ xs) (inr expects, h) (inr w) =
      rw (Expects-receive x expects, join_all-waits xs h w) refl
