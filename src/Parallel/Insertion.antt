-- ===== src/Parallel/Insertion.antt =====
-- The reference: stable insertion sort of one list of keyed entries.
use mathlib.Core.List.{append-nil, perm_middle, Perm}
use mathlib.Core.List.Perm
use live_tests.Base.{
  ℕ, ◌≤◌, ◌≡◌, refl, ◌∙◌, ap, subst, List, [], ◌∷◌, ◌++◌, All, All-mono, All-rev_append, retain,
  rev_append, rev_append_twice, retain-rev_append, ltb, ◌==◌, if◌then◌else◌, arith, Bool-cases, inl,
  inr, ltb→lt, ltb→le, length, suc,
}

module _ {ℓ} {A : Type ℓ} (key : A → ℕ) where
  abbrev pub Ascending : List A → Type 0
  Ascending [] = Unit
  Ascending (x ∷ es) = All (λ y. key x ≤ key y) es × Ascending es

  abbrev pub Descending : List A → Type 0
  Descending [] = Unit
  Descending (x ∷ es) = All (λ y. key y ≤ key x) es × Descending es

  -- Insertion into a list with the greatest key first, in front of equal keys.
  abbrev pub insert : A → List A → List A
  insert x [] = x ∷ []
  insert x (r ∷ rs) = if ltb (key x) (key r) then r ∷ insert x rs else x ∷ r ∷ rs

  abbrev pub insert_all : List A → List A → List A
  insert_all rs [] = rs
  insert_all rs (x ∷ es) = insert_all (insert x rs) es

  -- The entries with the least key first.
  abbrev pub sorted : List A → List A
  sorted es = rev_append (insert_all [] es) []

  pub length-insert : (x : A) (rs : List A) → length (insert x rs) ≡ suc (length rs)
  length-insert x [] = refl
  length-insert x (r ∷ rs) = ground (arith, length-insert x rs)

  All-insert {κ} : (P : A → Type κ) (x : A) (rs : List A) → P x → All P rs → All P (insert x rs)
  All-insert P x [] px h = (px, tt)
  All-insert P x (r ∷ rs) px h = elim (Bool-cases (ltb (key x) (key r))) [
    | inl e ↦ rw e (h.0, All-insert P x rs px h.1)
    | inr e ↦ rw e (px, h)
  ]

  insert-Descending : (x : A) (rs : List A) → Descending rs → Descending (insert x rs)
  insert-Descending x [] d = (tt, tt)
  insert-Descending x (r ∷ rs) d = elim (Bool-cases (ltb (key x) (key r))) [
    | inl e ↦
        let h = ltb→lt (key x) (key r) e in
        rw e (All-insert (λ y. key y ≤ key r) x rs (omega arith) d.0, insert-Descending x rs d.1)
    | inr e ↦
        let h = ltb→le (key x) (key r) e in
        rw e
          ((h, All-mono (λ y. key y ≤ key r) (λ y. key y ≤ key x) (λ y k. omega arith) rs d.0), d)
  ]

  insert_all-Descending : (rs es : List A) → Descending rs → Descending (insert_all rs es)
  insert_all-Descending rs [] d = d
  insert_all-Descending rs (x ∷ es) d =
      insert_all-Descending (insert x rs) es (insert-Descending x rs d)

  rev_append-Ascending :
      (rs ds : List A)
      → Descending rs
      → Ascending ds
      → All (λ r. All (λ d. key r ≤ key d) ds) rs
      → Ascending (rev_append rs ds)
  rev_append-Ascending [] ds d a h = a
  rev_append-Ascending (r ∷ rs) ds d a h =
      rev_append-Ascending rs (r ∷ ds) d.1 (h.0, a) (both rs d.0 h.1)
    where
      both :
          (xs : List A)
          → All (λ y. key y ≤ key r) xs
          → All (λ y. All (λ d. key y ≤ key d) ds) xs
          → All (λ y. All (λ d. key y ≤ key d) (r ∷ ds)) xs
      both [] p q = tt
      both (x ∷ xs) p q = ((p.0, q.0), both xs p.1 q.1)

  pub sorted-Ascending : (es : List A) → Ascending (sorted es)
  sorted-Ascending es =
      let d = insert_all-Descending [] es tt in
      rev_append-Ascending (insert_all [] es) [] d tt (alone (insert_all [] es))
    where
      alone : (xs : List A) → All (λ (y : A). Unit {0}) xs
      alone [] = tt
      alone (x ∷ xs) = (tt, alone xs)

  insert_all-All {κ} :
      (P : A → Type κ) (rs es : List A) → All P rs → All P es → All P (insert_all rs es)
  insert_all-All P rs [] hr he = hr
  insert_all-All P rs (x ∷ es) hr he =
      insert_all-All P (insert x rs) es (All-insert P x rs he.0 hr) he.1

  pub sorted-All {κ} : (P : A → Type κ) (es : List A) → All P es → All P (sorted es)
  sorted-All P es h = All-rev_append P (insert_all [] es) [] (insert_all-All P [] es tt h) tt

  insert-perm : (x : A) (rs : List A) → Perm (insert x rs) (x ∷ rs)
  insert-perm x [] = Perm.refl _
  insert-perm x (r ∷ rs) = elim (Bool-cases (ltb (key x) (key r))) [
    | inl e ↦ rw e (Perm.trans (Perm.cons r (insert-perm x rs)) (Perm.swap x r rs))
    | inr e ↦ rw e (Perm.refl _)
  ]

  insert_all-perm : (rs es : List A) → Perm (insert_all rs es) (rev_append es rs)
  insert_all-perm rs [] = Perm.refl rs
  insert_all-perm rs (x ∷ es) =
      Perm.trans (insert_all-perm (insert x rs) es) (under es (insert-perm x rs))
    where
      under :
          (es : List A) {xs ys : List A} → Perm xs ys → Perm (rev_append es xs) (rev_append es ys)
      under [] p = p
      under (e ∷ es) p = under es (Perm.cons e p)

  rev_append-perm : (es rs : List A) → Perm (rev_append es rs) (es ++ rs)
  rev_append-perm [] rs = Perm.refl rs
  rev_append-perm (e ∷ es) rs = Perm.trans (rev_append-perm es (e ∷ rs)) (perm_middle es rs)

  pub sorted-perm : (es : List A) → Perm (sorted es) es
  sorted-perm es =
      let laid =
        subst (Perm _) (append-nil (insert_all [] es)) (rev_append-perm (insert_all [] es) []) in
      let given = subst (Perm _) (append-nil es) (rev_append-perm es []) in
      Perm.trans laid (Perm.trans (insert_all-perm [] es) given)

  -- Entries with one key keep their order.
  abbrev pub with_key : ℕ → List A → List A
  with_key k = retain (λ e. key e == k)

  with_key-insert : (k : ℕ) (x : A) (rs : List A) → with_key k (insert x rs) ≡ with_key k (x ∷ rs)
  with_key-insert k x [] = refl
  with_key-insert k x (r ∷ rs) = ground (arith, with_key-insert k x rs)

  with_key-insert_all :
      (k : ℕ) (rs es : List A)
      → with_key k (insert_all rs es) ≡ rev_append (with_key k es) (with_key k rs)
  with_key-insert_all k rs [] = refl
  with_key-insert_all k rs (x ∷ es) =
      with_key-insert_all k (insert x rs) es
      ∙ ap (rev_append (with_key k es)) (with_key-insert k x rs)
      ∙ ground arith

  pub with_key-sorted : (k : ℕ) (es : List A) → with_key k (sorted es) ≡ with_key k es
  with_key-sorted k es =
      retain-rev_append (λ e. key e == k) (insert_all [] es) []
      ∙ ap (λ xs. rev_append xs []) (with_key-insert_all k [] es)
      ∙ rev_append_twice (with_key k es) [] []
      ∙ append-nil (with_key k es)
