-- ===== src/Parallel/Laws.antt =====
-- The two loops compute the reference sort, on vectors of one length.
use mathlib.Core.List.{Perm}
use live_tests.Base.{
  ℕ, suc, ◌-◌, ◌≡◌, refl, sym, ap, ◌∙◌, List, [], ◌∷◌, map, ok, length, length-map, ltb, rev_append,
  map-rev_append, index-rev_append, swap-rev_append, arith, Bool-cases, inl, inr,
}
use live_tests.Parallel.{sink, sort_from, sort}
use live_tests.Parallel.Insertion.{
  insert, insert_all, sorted, length-insert, Ascending, sorted-Ascending, sorted-perm, with_key,
  with_key-sorted,
}

module _ {ℓ κ} {A : Type ℓ} {V : Type κ} (key : A → ℕ) (value : A → V) where
  -- The vectors of a list of entries that is seen from a place within.
  abbrev split : List A → List A → List ℕ × List V
  split rs ds = (rev_append (map key rs) (map key ds), rev_append (map value rs) (map value ds))

  sink-insert :
      (rs : List A) (x : A) (ds : List A)
      → sink (length rs) (split rs (x ∷ ds)).0 (split rs (x ∷ ds)).1
        ≡ ok (split (insert key x rs) ds)
  unfolding sink
  sink-insert [] x ds = refl
  sink-insert (r ∷ rs) x ds =
      let ek = sym (length-map key rs) in
      let ev = sym (length-map value rs) in
      let before = index-rev_append (map key rs) (key r) (key x ∷ map key ds) (length rs) ek in
      let moving =
        index-rev_append (key r ∷ map key rs) (key x) (map key ds) (suc (length rs)) (ap suc ek) in
      let keys = swap-rev_append (map key rs) (key r) (key x) (map key ds) (length rs) ek in
      let values =
        swap-rev_append (map value rs) (value r) (value x) (map value ds) (length rs) ev in
      elim (Bool-cases (ltb (key x) (key r))) [
        | inl e ↦ rw (before, moving, e, keys, values) (sink-insert rs x (r ∷ ds))
        | inr e ↦ rw (before, moving, e) refl
      ]

  sort_from-insert_all :
      (rs ds : List A) (i : ℕ)
      → i ≡ length rs
      → sort_from (length ds) i (split rs ds).0 (split rs ds).1
        ≡ ok (split (insert_all key rs ds) [])
  unfolding sort_from
  sort_from-insert_all rs [] i e = refl
  sort_from-insert_all rs (x ∷ ds) i e =
      rw (e, sink-insert rs x ds)
        (sort_from-insert_all (insert key x rs) ds (suc (length rs)) (sym (length-insert key x rs)))

  -- The loops end without a panic, and leave the entries sorted.
  pub sort-sorted :
      (es : List A)
      → sort (map key es) (map value es) ≡ ok (map key (sorted key es), map value (sorted key es))
  unfolding sort
  sort-sorted [] = refl
  sort-sorted (x ∷ es) =
      let es_left : length (key x ∷ map key es) - 1 ≡ length es =
        omega (arith, length-map key es) in
      rw es_left
        (sort_from-insert_all (x ∷ []) es 1 refl ∙ ap ok (joined (insert_all key (x ∷ []) es)))
    where
      joined :
          (rs : List A) → split rs [] ≡ (map key (rev_append rs []), map value (rev_append rs []))
      joined rs = λ i. (sym (map-rev_append key rs []) i, sym (map-rev_append value rs []) i)

  -- On vectors of one length the sort returns; the keys ascend, the pairs of the two vectors are
  -- the same ones, and those with equal keys keep their order.
  pub sort_lem :
      (es : List A)
      → (out : List A) × (sort (map key es) (map value es) ≡ ok (map key out, map value out))
        × Ascending key out
        × Perm out es
        × ((k : ℕ) → with_key key k out ≡ with_key key k es)
  sort_lem es = (
    sorted key es,
    sort-sorted es,
    sorted-Ascending key es,
    sorted-perm key es,
    λ k. with_key-sorted key k es,
  )
