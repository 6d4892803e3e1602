-- ===== src/Base/Vec.antt =====
-- `Vec<T>` as a list: the accesses that panic out of range, and their laws at a place within.
use Prim.Native.Nat.{ℕ, zero, suc, ◌+◌, ◌≤◌, ◌<◌}
use mathlib.Core.Path.{◌≡◌, refl, sym, ap, ◌∙◌}
use mathlib.Core.Logic.{◌≢◌, ◌⊎◌, inl, inr}
use mathlib.Core.List.{List, [], ◌∷◌, ◌++◌}
use mathlib.Core.Option
use mathlib.Core.Option.{Option, none, some}
use native.Mathlib.Omega.{arith}
use live_tests.Base.Tests.{ltb, ◌==◌, if◌then◌else◌, Option-cases}
use live_tests.Base.Lists.{
  length, get_elem?, set, remove_at, rev_append, length-rev_append, lt-get_elem?,
}
use live_tests.Base.Outcomes.{Outcome, ok, panic, out_of_range, unwrapped, ◌>>=◌}

-- `v.iter().position(|item| *item == a)`
unfoldable pub position : ℕ → List ℕ → Option ℕ
position a [] = none
position a (x ∷ xs) = if x == a then some 0 else Option.map suc (position a xs)

module _ {ℓ} {A : Type ℓ} where
  abbrev pub at_index : Option A → Outcome A
  at_index (some a) = ok a
  at_index none = panic out_of_range

  -- `v[i]`
  abbrev pub index : List A → ℕ → Outcome A
  index xs i = at_index (get_elem? xs i)

  -- `v.remove(i)`
  unfoldable pub remove : List A → ℕ → Outcome (List A)
  remove xs i = if ltb i (length xs) then ok (remove_at xs i) else panic out_of_range

  -- `v.swap(i, j)`
  unfoldable pub swap : List A → ℕ → ℕ → Outcome (List A)
  swap xs i j = do a ← index xs i; b ← index xs j; ok (set (set xs i b) j a)

  -- `v.pop_front().unwrap()`
  abbrev pub pop_front : List A → Outcome (A × List A)
  pop_front [] = panic unwrapped
  pop_front (x ∷ xs) = ok (x, xs)

  get_elem?-rev_append :
      (rs ys : List A) (k j : ℕ)
      → j ≡ length rs + k
      → get_elem? (rev_append rs ys) j ≡ get_elem? ys k
  get_elem?-rev_append [] ys k j e = let e' : j ≡ k = omega arith in ap (get_elem? ys) e'
  get_elem?-rev_append (r ∷ rs) ys k j e = get_elem?-rev_append rs (r ∷ ys) (suc k) j (omega arith)

  set-rev_append :
      (rs ys : List A) (k j : ℕ) (a : A)
      → j ≡ length rs + k
      → set (rev_append rs ys) j a ≡ rev_append rs (set ys k a)
  set-rev_append [] ys k j a e = let e' : j ≡ k = omega arith in ap (λ n. set ys n a) e'
  set-rev_append (r ∷ rs) ys k j a e = set-rev_append rs (r ∷ ys) (suc k) j a (omega arith)

  remove_at-rev_append :
      (rs ys : List A) (k j : ℕ)
      → j ≡ length rs + k
      → remove_at (rev_append rs ys) j ≡ rev_append rs (remove_at ys k)
  remove_at-rev_append [] ys k j e = let e' : j ≡ k = omega arith in ap (remove_at ys) e'
  remove_at-rev_append (r ∷ rs) ys k j e = remove_at-rev_append rs (r ∷ ys) (suc k) j (omega arith)

  pub index-rev_append :
      (rs : List A) (x : A) (ds : List A) (j : ℕ)
      → j ≡ length rs
      → index (rev_append rs (x ∷ ds)) j ≡ ok x
  index-rev_append rs x ds j e = ap at_index (get_elem?-rev_append rs (x ∷ ds) 0 j (omega arith))

  pub remove-rev_append :
      (rs : List A) (x : A) (ds : List A) (j : ℕ)
      → j ≡ length rs
      → remove (rev_append rs (x ∷ ds)) j ≡ ok (rev_append rs ds)
  unfolding remove
  remove-rev_append rs x ds j e =
      ground (arith, length-rev_append rs (x ∷ ds), remove_at-rev_append rs (x ∷ ds) 0 j)

  -- Exchanging two neighbours, the later index first, as the sorting loops do.
  pub swap-rev_append :
      (rs : List A) (x y : A) (ds : List A) (j : ℕ)
      → j ≡ length rs
      → swap (rev_append rs (x ∷ y ∷ ds)) (suc j) j ≡ ok (rev_append rs (y ∷ x ∷ ds))
  unfolding swap
  swap-rev_append rs x y ds j e = rw (
    get_elem?-rev_append rs (x ∷ y ∷ ds) 1 (suc j) (omega arith),
    get_elem?-rev_append rs (x ∷ y ∷ ds) 0 j (omega arith),
    set-rev_append rs (x ∷ y ∷ ds) 1 (suc j) x (omega arith),
    set-rev_append rs (x ∷ x ∷ ds) 0 j y (omega arith),
  )

pub position-get_elem? :
    (a : ℕ) (xs : List ℕ) (i : ℕ) → position a xs ≡ some i → get_elem? xs i ≡ some a
unfolding position
position-get_elem? a [] i e = cc
position-get_elem? a (x ∷ xs) zero e = ground arith
position-get_elem? a (x ∷ xs) (suc i) e = ground (arith, position-get_elem? a xs i)

-- What `position` misses stands nowhere in the vector.
pub position-none : (a : ℕ) (xs : List ℕ) (i : ℕ) → position a xs ≡ none → get_elem? xs i ≢ some a
unfolding position
position-none a [] i e = λ h. cc
position-none a (x ∷ xs) zero e = λ h. ground arith
position-none a (x ∷ xs) (suc i) e = λ h. ground (arith, position-none a xs i)

-- The two places of an exchange, swapped.
abbrev pub transpose : ℕ → ℕ → ℕ → ℕ
transpose i j k = if k == i then j else if k == j then i else k

module _ {A : Type 0} where
  get_elem?-set :
      (xs : List A) (i k : ℕ) (v : A)
      → i < length xs
      → get_elem? (set xs i v) k ≡ (if k == i then some v else get_elem? xs k)
  get_elem?-set [] i k v h = absurd (omega arith)
  get_elem?-set (x ∷ xs) zero zero v h = refl
  get_elem?-set (x ∷ xs) zero (suc k) v h = ground arith
  get_elem?-set (x ∷ xs) (suc i) zero v h = ground arith
  get_elem?-set (x ∷ xs) (suc i) (suc k) v h = ground (arith, get_elem?-set xs i k v)

  length-set : (xs : List A) (i : ℕ) (v : A) → length (set xs i v) ≡ length xs
  length-set [] i v = refl
  length-set (x ∷ xs) zero v = refl
  length-set (x ∷ xs) (suc i) v = ap suc (length-set xs i v)

  -- In range `swap` returns, and each place reads what stood at the transposed place.
  pub swap-transpose :
      (xs : List A) (i j : ℕ)
      → i < length xs
      → j < length xs
      → (ys : List A) × (swap xs i j ≡ ok ys)
        × (length ys ≡ length xs)
        × ((k : ℕ) → get_elem? ys k ≡ get_elem? xs (transpose i j k))
  unfolding swap
  swap-transpose xs i j hi hj =
      let (a, ea) = lt-get_elem? xs i hi in
      let (b, eb) = lt-get_elem? xs j hj in
      (
        set (set xs i b) j a,
        rw (ea, eb) refl,
        length-set (set xs i b) j a ∙ length-set xs i b,
        λ k. ground (
          arith,
          length-set xs i b,
          get_elem?-set (set xs i b) j k a,
          get_elem?-set xs i k b,
          ea,
          eb,
        ),
      )

  pub get_elem?-ge : (xs : List A) (k : ℕ) → length xs ≤ k → get_elem? xs k ≡ none
  get_elem?-ge [] k h = refl
  get_elem?-ge (x ∷ xs) zero h = absurd (omega arith)
  get_elem?-ge (x ∷ xs) (suc k) h = get_elem?-ge xs k (omega arith)

-- A vector that holds no value twice.
abbrev pub Distinct : List ℕ → Type 0
Distinct xs = (i j a : ℕ) → get_elem? xs i ≡ some a → get_elem? xs j ≡ some a → i ≡ j

pub position_of_get :
    (a : ℕ) (xs : List ℕ) (i : ℕ) → Distinct xs → get_elem? xs i ≡ some a → position a xs ≡ some i
position_of_get a xs i d h = elim (Option-cases (position a xs)) [
  | inl e ↦ absurd (position-none a xs i e h)
  | inr (j, e) ↦ rw (d i j a h (position-get_elem? a xs j e)) e
]

-- A place of a vector with one more element is an old place or the last.
pub get_elem?-push :
    (xs : List ℕ) (a i b : ℕ)
    → get_elem? (xs ++ a ∷ []) i ≡ some b
    → (get_elem? xs i ≡ some b) ⊎ ((i ≡ length xs) × (b ≡ a))
get_elem?-push [] a zero b h = inr (refl, ground arith)
get_elem?-push [] a (suc i) b h = cc
get_elem?-push (x ∷ xs) a zero b h = inl h
get_elem?-push (x ∷ xs) a (suc i) b h = ground (arith, get_elem?-push xs a i b)

pub Distinct-push :
    (xs : List ℕ) (a : ℕ) → Distinct xs → position a xs ≡ none → Distinct (xs ++ a ∷ [])
Distinct-push xs a d e i j b hi hj = ground (
  arith,
  get_elem?-push xs a i b hi,
  get_elem?-push xs a j b hj,
  d i j b,
  position-none a xs i e,
  position-none a xs j e,
)

pub Distinct-head : (x : ℕ) (xs : List ℕ) → Distinct (x ∷ xs) → position x xs ≡ none
Distinct-head x xs d = elim (Option-cases (position x xs)) [
  | inl e ↦ e
  | inr (j, e) ↦
      let h : 0 ≡ suc j = d 0 (suc j) x refl (position-get_elem? x xs j e) in absurd (omega arith)
]

pub Distinct-tail : (x : ℕ) (xs : List ℕ) → Distinct (x ∷ xs) → Distinct xs
Distinct-tail x xs d i j a hi hj = ground (arith, d (suc i) (suc j) a hi hj)

-- An exchange of two places keeps the values distinct.
pub Distinct-transpose :
    (xs ys : List ℕ) (i j : ℕ)
    → Distinct xs
    → ((k : ℕ) → get_elem? ys k ≡ get_elem? xs (transpose i j k))
    → Distinct ys
Distinct-transpose xs ys i j d at k m a hk hm =
    let same = d (transpose i j k) (transpose i j m) a (sym (at k) ∙ hk) (sym (at m) ∙ hm) in
    ground arith
