-- ===== src/Exchange/Store.antt =====
-- How `add_block` finds the place of a CID, and what filing one more datum does to lookups.
use mathlib.Core.Option
use live_tests.Base.{
  ℕ, suc, ◌+◌, ◌≤◌, ◌<◌, ◌≡◌, refl, sym, ap, ◌∙◌, List, [], ◌∷◌, ◌++◌, Option, none, some, length,
  get_elem?, get_elem?-append, get_elem?-ge, lt-get_elem?, get_elem?-last, length-append, position,
  position-get_elem?, position-none, Distinct, Distinct-head, Distinct-tail, ltb, ltb→lt, ltb→le,
  subst, ◌==◌, if◌then◌else◌, Bool-cases, Option-cases, inl, inr, ==→≡, arith,
}
use live_tests.Exchange.{Cid, Bytes, returns_false, ends, scan_cids, find_block}
use live_tests.Exchange.Iterate.{block_of, find_block-get_elem?}

pub scan_cids-missing :
    (cid : Cid) (held k : ℕ) (ids : List Cid) (found : Option ℕ)
    → position cid ids ≡ none
    → scan_cids cid held k ids found ≡ ends found
unfolding scan_cids position
scan_cids-missing cid held k [] found p = refl
scan_cids-missing cid held k (id ∷ ids) found p =
    ground (arith, scan_cids-missing cid held (suc k) ids found)

-- The loop finds the one place of the CID, and returns early if data is held there.
pub scan_cids-found :
    (cid : Cid) (held k : ℕ) (ids : List Cid) (found : Option ℕ) (j m : ℕ)
    → Distinct ids
    → position cid ids ≡ some j
    → m ≡ k + j
    → scan_cids cid held k ids found ≡ (if ltb m held then returns_false else ends (some m))
unfolding scan_cids position
scan_cids-found cid held k [] found j m d p e = cc
scan_cids-found cid held k (id ∷ ids) found j m d p e = elim (Bool-cases (id == cid)) [
  | inl hit ↦
      let same = ==→≡ id cid hit in
      let once : position cid ids ≡ none = rw (← same) (Distinct-head id ids d) in
      rw hit (ground (arith, scan_cids-missing cid held (suc k) ids (some k) once))
  | inr miss ↦ elim (Option-cases (position cid ids)) [
    | inl q ↦ absurd (ground arith)
    | inr (i, q) ↦
        let next : j ≡ suc i = ground arith in
        rw miss
          (scan_cids-found cid held (suc k) ids found i m (Distinct-tail id ids d) q (omega arith))
  ]
]

pub find_block-missing :
    (cid : Cid) (ids : List Cid) (ds : List Bytes)
    → position cid ids ≡ none
    → find_block cid ids ds ≡ none
unfolding find_block position
find_block-missing cid [] ds p = refl
find_block-missing cid (id ∷ ids) [] p = refl
find_block-missing cid (id ∷ ids) (b ∷ ds) p = ground (arith, find_block-missing cid ids ds)

-- Beyond the data nothing is found.
pub find_block-beyond :
    (cid : Cid) (ids : List Cid) (ds : List Bytes) (k : ℕ)
    → Distinct ids
    → get_elem? ids k ≡ some cid
    → length ds ≤ k
    → find_block cid ids ds ≡ none
find_block-beyond cid ids ds k d h beyond =
    find_block-get_elem? cid ids ds k d h
    ∙ ap (Option.map (block_of cid)) (get_elem?-ge ds k beyond)

-- The CIDs `ids` become `ids'`, with the same ones at the places that hold data and none lost.
pub record Refiled (ids ids' : List Cid) (held : ℕ) : Type 0 where
  pub before : Distinct ids
  pub after : Distinct ids'
  pub agree : (k : ℕ) → k < held → get_elem? ids' k ≡ get_elem? ids k
  pub kept :
      (k cid : ℕ)
      → held ≤ k
      → get_elem? ids k ≡ some cid
      → (k' : ℕ) × (held ≤ k') × (get_elem? ids' k' ≡ some cid)

module _ (ids ids' : List Cid) (ds : List Bytes) (bytes : Bytes) (filed : Cid)
    (r : Refiled ids ids' (length ds)) (here : get_elem? ids' (length ds) ≡ some filed)
    (cid : Cid) where
  abbrev pub Filed : Type 0
  Filed =
      find_block cid ids' (ds ++ bytes ∷ [])
      ≡ (if cid == filed then some (block_of cid bytes) else find_block cid ids ds)

  below : (k : ℕ) → get_elem? ids' k ≡ some cid → k < length ds → Filed
  below k h low =
      let (b, eb) = lt-get_elem? ds k low in
      ground (
        arith,
        find_block-get_elem? cid ids' (ds ++ bytes ∷ []) k r.after h,
        find_block-get_elem? cid ids ds k r.before (sym (r.agree k low) ∙ h),
        get_elem?-append ds (bytes ∷ []) k b eb,
        eb,
        r.after k (length ds) cid h,
      )

  beyond_in_old :
      (k : ℕ) → get_elem? ids' k ≡ some cid → length ds < k → find_block cid ids ds ≡ none
  beyond_in_old k h high = elim (Option-cases (position cid ids)) [
    | inl q ↦ find_block-missing cid ids ds q
    | inr (m, q) ↦
        let hm = position-get_elem? cid ids m q in
        elim (Bool-cases (ltb m (length ds))) [
          | inl low ↦
              let lt = ltb→lt m (length ds) low in
              let same : m ≡ k = r.after m k cid (r.agree m lt ∙ hm) h in absurd (omega arith)
          | inr above ↦ find_block-beyond cid ids ds m r.before hm (ltb→le _ _ above)
        ]
  ]

  above : (k : ℕ) → get_elem? ids' k ≡ some cid → length ds < k → Filed
  above k h high =
      let full : length (ds ++ bytes ∷ []) ≤ k = omega (arith, length-append ds (bytes ∷ [])) in
      ground (
        arith,
        find_block-beyond cid ids' (ds ++ bytes ∷ []) k r.after h full,
        beyond_in_old k h high,
        r.after k (length ds) cid h,
      )

  -- A place that reads `cid` in the new list.
  at_place : (k : ℕ) → get_elem? ids' k ≡ some cid → Filed
  at_place k h = elim (Bool-cases (ltb k (length ds))) [
    | inl low ↦ below k h (ltb→lt _ _ low)
    | inr not_low ↦
        let ge = ltb→le k (length ds) not_low in
        elim (Bool-cases (ltb (length ds) k)) [
          | inl high ↦ above k h (ltb→lt _ _ high)
          | inr not_high ↦
              let le = ltb→le (length ds) k not_high in
              let same : k ≡ length ds = omega arith in
              let h' = subst (λ j. get_elem? ids' j ≡ some cid) same h in
              ground (
                arith,
                find_block-get_elem? cid ids' (ds ++ bytes ∷ []) (length ds) r.after h',
                get_elem?-last ds bytes,
              )
        ]
  ]

  not_there : position cid ids' ≡ none → Filed
  not_there p = elim (Option-cases (position cid ids)) [
    | inl q ↦ ground (
      arith,
      find_block-missing cid ids' (ds ++ bytes ∷ []) p,
      find_block-missing cid ids ds q,
      position-none cid ids' (length ds) p,
    )
    | inr (m, q) ↦ absurd (elim (Bool-cases (ltb m (length ds))) [
      | inl low ↦
          position-none cid ids' m p (r.agree m (ltb→lt _ _ low) ∙ position-get_elem? cid ids m q)
      | inr high ↦
          let (k', _, h) = r.kept m cid (ltb→le _ _ high) (position-get_elem? cid ids m q) in
          position-none cid ids' k' p h
    ])
  ]

  -- One more datum, filed at the first place without data, changes the lookup of the CID that
  -- stands there and no other.
  pub find_block-filed : Filed
  find_block-filed = elim (Option-cases (position cid ids')) [
    | inl p ↦ not_there p
    | inr (k, p) ↦ at_place k (position-get_elem? cid ids' k p)
  ]
