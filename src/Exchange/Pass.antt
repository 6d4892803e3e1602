-- ===== src/Exchange/Pass.antt =====
-- The reverse pass over the want list that `remove_want` and `remove_wants` share.
use live_tests.Base.{
  ℕ, ◌-◌, ◌≡◌, ◌≢◌, refl, sym, ap, subst, ◌∙◌, List, [], ◌∷◌, map, Bool, true, not, All, All-retain,
  All-rev_append, retain, retain-eq_self, map-retain, length, length-map, rev_append,
  length-rev_append, map-rev_append, rev_append_self, retain-rev_append, index, index-rev_append,
  remove-rev_append, Outcome, ok, if◌then◌else◌, Bool-cases, inl, inr, arith,
}
use live_tests.Exchange.{PeerId, Cid, BlockExchange, drop_want, drop_if, drop_from}
use live_tests.Exchange.Represents.{Entry, want, Resolves, Represents}

-- `e` with the wants `es` instead of its own.
abbrev pub with_entries : BlockExchange → List Entry → BlockExchange
with_entries e es = record e {
  peer_indices = map (λ n. n.peer_index) es;
  cid_indices = map (λ n. n.cid_index) es;
}

pub with_own_entries :
    (e : BlockExchange) (w : List (PeerId × Cid)) (r : Represents e w)
    → e ≡ with_entries e r.entries
with_own_entries e w r = λ i. record e { peer_indices = r.peer_side i; cid_indices = r.cid_side i }

module _ (e : BlockExchange) where
  pub peer_index_at :
      (rs : List Entry) (n : Entry) (ds : List Entry)
      → index (with_entries e (rev_append rs (n ∷ ds))).peer_indices (length rs) ≡ ok n.peer_index
  peer_index_at rs n ds = rw (map-rev_append (λ (k : Entry). k.peer_index) rs (n ∷ ds)) (
      index-rev_append (map (λ (k : Entry). k.peer_index) rs) n.peer_index _ (length rs)
        (sym (length-map (λ (k : Entry). k.peer_index) rs)))

  pub cid_index_at :
      (rs : List Entry) (n : Entry) (ds : List Entry)
      → index (with_entries e (rev_append rs (n ∷ ds))).cid_indices (length rs) ≡ ok n.cid_index
  cid_index_at rs n ds = rw (map-rev_append (λ (k : Entry). k.cid_index) rs (n ∷ ds)) (
      index-rev_append (map (λ (k : Entry). k.cid_index) rs) n.cid_index _ (length rs)
        (sym (length-map (λ (k : Entry). k.cid_index) rs)))

  -- The want at the place goes, and the places before it stay where they are.
  drop_want-rev_append :
      (rs : List Entry) (n : Entry) (ds : List Entry)
      → drop_want (with_entries e (rev_append rs (n ∷ ds))) (length rs)
        ≡ ok (with_entries e (rev_append rs ds))
  unfolding drop_want
  drop_want-rev_append rs n ds = rw (
    map-rev_append (λ (k : Entry). k.peer_index) rs (n ∷ ds),
    map-rev_append (λ (k : Entry). k.cid_index) rs (n ∷ ds),
    map-rev_append (λ (k : Entry). k.peer_index) rs ds,
    map-rev_append (λ (k : Entry). k.cid_index) rs ds,
    remove-rev_append (map (λ (k : Entry). k.peer_index) rs) n.peer_index
        (map (λ (k : Entry). k.peer_index) ds) (length rs)
        (sym (length-map (λ (k : Entry). k.peer_index) rs)),
    remove-rev_append (map (λ (k : Entry). k.cid_index) rs) n.cid_index
        (map (λ (k : Entry). k.cid_index) ds) (length rs)
        (sym (length-map (λ (k : Entry). k.cid_index) rs)),
  )

  -- A test that looks at the want at its place decides by `kept`.
  abbrev pub Decides : (BlockExchange → ℕ → Outcome Bool) → (Entry → Bool) → Type 0
  Decides test kept =
      (rs : List Entry) (n : Entry) (ds : List Entry)
      → Resolves e n
      → test (with_entries e (rev_append rs (n ∷ ds))) (length rs) ≡ ok (not (kept n))

  module _ (test : BlockExchange → ℕ → Outcome Bool) (kept : Entry → Bool)
      (decides : Decides test kept) where
    drop_if-rev_append :
        (rs : List Entry) (n : Entry) (ds : List Entry)
        → Resolves e n
        → drop_if test (with_entries e (rev_append rs (n ∷ ds))) (length rs)
          ≡ ok (with_entries e (rev_append rs (if kept n then n ∷ ds else ds)))
    unfolding drop_if
    drop_if-rev_append rs n ds h = elim (Bool-cases (kept n)) [
      | inl m ↦ rw (decides rs n ds h, m) refl
      | inr m ↦ rw (decides rs n ds h, m) (drop_want-rev_append rs n ds)
    ]

    drop_from-rev_append :
        (rs : List Entry) (n : Entry) (ds : List Entry)
        → Resolves e n
        → All (Resolves e) rs
        → drop_from test (length rs) (with_entries e (rev_append rs (n ∷ ds)))
          ≡ ok (with_entries e (rev_append (retain kept (n ∷ rs)) ds))
    unfolding drop_from
    drop_from-rev_append [] n ds h hs = elim (Bool-cases (kept n)) [
      | inl k ↦ rw (drop_if-rev_append [] n ds h, k) refl
      | inr k ↦ rw (drop_if-rev_append [] n ds h, k) refl
    ]
    drop_from-rev_append (m ∷ rs) n ds h hs = elim (Bool-cases (kept n)) [
      | inl k ↦
          rw (drop_if-rev_append (m ∷ rs) n ds h, k) (drop_from-rev_append rs m (n ∷ ds) hs.0 hs.1)
      | inr k ↦ rw (drop_if-rev_append (m ∷ rs) n ds h, k) (drop_from-rev_append rs m ds hs.0 hs.1)
    ]

    -- The whole pass, from the last want down.
    pass :
        (es rs : List Entry)
        → rev_append rs [] ≡ es
        → length es ≢ 0
        → All (Resolves e) rs
        → drop_from test (length es - 1) (with_entries e es) ≡ ok (with_entries e (retain kept es))
    pass es [] same some_left hs = absurd (some_left (ap length (sym same)))
    pass es (n ∷ rs) same some_left hs =
        let len : length es - 1 ≡ length rs =
          omega (arith, ap length same, length-rev_append (n ∷ rs) []) in
        rw (len, ← same)
          (drop_from-rev_append rs n [] hs.0 hs.1
            ∙ ap (λ k. ok (with_entries e k)) (sym (retain-rev_append _ (n ∷ rs) [])))

-- The outcome keeps the wants that pass the test, and all of the tables and blocks.
pub record Keeps (e : BlockExchange) (w : List (PeerId × Cid)) (keep : PeerId × Cid → Bool)
    (out : Outcome BlockExchange) : Type 0 where
  pub after : BlockExchange
  pub returns : out ≡ ok after
  pub represents : Represents after (retain keep w)
  pub same_cids : after.cids ≡ e.cids
  pub same_datums : after.datums ≡ e.datums

module _ (e : BlockExchange) (w : List (PeerId × Cid)) (r : Represents e w)
    (keep : PeerId × Cid → Bool) where
  -- Nothing is meant: the outcome is `e` itself.
  pub unchanged-Keeps : All (λ n. keep (want n) ≡ true) r.entries → Keeps e w keep (ok e)
  unchanged-Keeps all = record {
    after = e;
    returns = refl;
    represents =
        subst (Represents e)
          (sym (
            ap (retain keep) r.wants
            ∙ sym (map-retain want keep r.entries)
            ∙ ap (map want) (retain-eq_self _ r.entries all)
            ∙ sym r.wants))
          r;
    same_cids = refl;
    same_datums = refl;
  }

  pub pass-Keeps :
      (test : BlockExchange → ℕ → Outcome Bool) (len : ℕ)
      → len ≡ length r.entries
      → len ≢ 0
      → Decides e test (λ n. keep (want n))
      → Keeps e w keep (drop_from test (len - 1) e)
  pass-Keeps test len e_len some_left decides =
      let shown = with_own_entries e w r in
      let rs = rev_append r.entries [] in
      let kept = λ (n : Entry). keep (want n) in
      record {
        after = with_entries e (retain kept r.entries);
        returns =
            ap (λ k. drop_from test (k - 1) e) e_len
            ∙ ap (drop_from test (length r.entries - 1)) shown
            ∙ pass e test kept decides r.entries rs (rev_append_self r.entries)
                (λ z. some_left (e_len ∙ z))
                (All-rev_append (Resolves e) r.entries [] r.resolved tt);
        represents = record {
          entries = retain kept r.entries;
          peer_side = refl;
          cid_side = refl;
          wants = ap (retain keep) r.wants ∙ sym (map-retain want keep r.entries);
          resolved = All-retain (Resolves e) kept r.entries r.resolved;
          peers_distinct = r.peers_distinct;
          cids_distinct = r.cids_distinct;
          held = r.held;
        };
        same_cids = refl;
        same_datums = refl;
      }
