-- ===== src/Base/Lists.antt =====
-- Lists measured and indexed by the native numbers.
use Prim.Native.Nat.{ℕ, zero, suc, ◌+◌, ◌≤◌, ◌<◌}
use mathlib.Core.Path.{◌≡◌, refl, ap, ◌∙◌}
use mathlib.Core.Bool.{Bool, true}
use mathlib.Core.List.{List, [], ◌∷◌, ◌++◌, map, append-nil}
use mathlib.Core.Option.{Option, none, some}
use native.Mathlib.Omega.{arith}
use live_tests.Base.Tests.{if◌then◌else◌, Bool-cases}
use mathlib.Core.Logic.{◌⊎◌, inl, inr}

module _ {ℓ} {A : Type ℓ} where
  abbrev pub length : List A → ℕ
  length [] = 0
  length (x ∷ xs) = suc (length xs)

  abbrev pub get_elem? : List A → ℕ → Option A
  get_elem? [] i = none
  get_elem? (x ∷ xs) zero = some x
  get_elem? (x ∷ xs) (suc i) = get_elem? xs i

  -- A write out of bounds changes nothing.
  abbrev pub set : List A → ℕ → A → List A
  set [] i v = []
  set (x ∷ xs) zero v = v ∷ xs
  set (x ∷ xs) (suc i) v = x ∷ set xs i v

  abbrev pub remove_at : List A → ℕ → List A
  remove_at [] i = []
  remove_at (x ∷ xs) zero = xs
  remove_at (x ∷ xs) (suc i) = x ∷ remove_at xs i

  -- The elements that pass the test, in their order.
  abbrev pub retain : (A → Bool) → List A → List A
  retain p [] = []
  retain p (x ∷ xs) = if p x then x ∷ retain p xs else retain p xs

  abbrev pub All {κ} : (A → Type κ) → List A → Type κ
  All P [] = Unit
  All P (x ∷ xs) = P x × All P xs

  abbrev pub Any : (A → Type 0) → List A → Type 0
  Any P [] = ⊥
  Any P (x ∷ xs) = P x ⊎ Any P xs

  -- The first list, last element first, in front of the second: a list seen from a place within.
  abbrev pub rev_append : List A → List A → List A
  rev_append [] ys = ys
  rev_append (x ∷ xs) ys = rev_append xs (x ∷ ys)

  abbrev pub back : List A → Option A
  back [] = none
  back (x ∷ []) = some x
  back (x ∷ y ∷ xs) = back (y ∷ xs)

  pub length-append : (xs ys : List A) → length (xs ++ ys) ≡ length xs + length ys
  length-append [] ys = omega arith
  length-append (x ∷ xs) ys = omega (arith, length-append xs ys)

  pub length-retain : (p : A → Bool) (xs : List A) → length (retain p xs) ≤ length xs
  length-retain p [] = omega arith
  length-retain p (x ∷ xs) = ground (arith, length-retain p xs)

  pub length-rev_append : (xs ys : List A) → length (rev_append xs ys) ≡ length xs + length ys
  length-rev_append [] ys = omega arith
  length-rev_append (x ∷ xs) ys = omega (arith, length-rev_append xs (x ∷ ys))

  pub All-retain {κ} :
      (P : A → Type κ) (p : A → Bool) (xs : List A) → All P xs → All P (retain p xs)
  All-retain P p [] h = h
  All-retain P p (x ∷ xs) h = ground (arith, All-retain P p xs h.1)

  pub All-append {κ} : (P : A → Type κ) (vs ws : List A) → All P ws → All P vs → All P (vs ++ ws)
  All-append P [] ws behind h = behind
  All-append P (v ∷ vs) ws behind h = (h.0, All-append P vs ws behind h.1)

  pub All-rev_append {κ} :
      (P : A → Type κ) (rs ds : List A) → All P rs → All P ds → All P (rev_append rs ds)
  All-rev_append P [] ds hr hd = hd
  All-rev_append P (r ∷ rs) ds hr hd = All-rev_append P rs (r ∷ ds) hr.1 (hr.0, hd)

  pub Any-mono : (P Q : A → Type 0) → ((x : A) → P x → Q x) → (xs : List A) → Any P xs → Any Q xs
  Any-mono P Q f [] h = absurd h
  Any-mono P Q f (x ∷ xs) (inl h) = inl (f x h)
  Any-mono P Q f (x ∷ xs) (inr h) = inr (Any-mono P Q f xs h)

  pub All-mono {κ μ} :
      (P : A → Type κ) (Q : A → Type μ)
      → ((x : A) → P x → Q x)
      → (xs : List A) → All P xs
      → All Q xs
  All-mono P Q f [] h = tt
  All-mono P Q f (x ∷ xs) h = (f x h.0, All-mono P Q f xs h.1)

  pub get_elem?-append :
      (xs ys : List A) (i : ℕ) (a : A) → get_elem? xs i ≡ some a → get_elem? (xs ++ ys) i ≡ some a
  get_elem?-append [] ys i a h = cc
  get_elem?-append (x ∷ xs) ys zero a h = h
  get_elem?-append (x ∷ xs) ys (suc i) a h = get_elem?-append xs ys i a h

  -- A place of a list with one more element is an old place or the new one.
  pub get_elem?-lt : (xs : List A) (i : ℕ) (a : A) → get_elem? xs i ≡ some a → i < length xs
  get_elem?-lt [] i a h = cc
  get_elem?-lt (x ∷ xs) zero a h = omega arith
  get_elem?-lt (x ∷ xs) (suc i) a h = omega (arith, get_elem?-lt xs i a h)

  pub lt-get_elem? : (xs : List A) (i : ℕ) → i < length xs → (a : A) × (get_elem? xs i ≡ some a)
  lt-get_elem? [] i h = absurd (omega arith)
  lt-get_elem? (x ∷ xs) zero h = (x, refl)
  lt-get_elem? (x ∷ xs) (suc i) h = lt-get_elem? xs i (omega arith)

  pub get_elem?-last : (xs : List A) (a : A) → get_elem? (xs ++ a ∷ []) (length xs) ≡ some a
  get_elem?-last [] a = refl
  get_elem?-last (x ∷ xs) a = get_elem?-last xs a

module _ {ℓ} {A : Type ℓ} where
  pub rev_append_twice :
      (xs ys zs : List A) → rev_append (rev_append xs ys) zs ≡ rev_append ys (xs ++ zs)
  rev_append_twice [] ys zs = refl
  rev_append_twice (x ∷ xs) ys zs = rev_append_twice xs (x ∷ ys) zs

  pub rev_append_self : (xs : List A) → rev_append (rev_append xs []) [] ≡ xs
  rev_append_self xs = rev_append_twice xs [] [] ∙ append-nil xs

  pub retain-rev_append :
      (p : A → Bool) (rs ds : List A)
      → retain p (rev_append rs ds) ≡ rev_append (retain p rs) (retain p ds)
  retain-rev_append p [] ds = refl
  retain-rev_append p (r ∷ rs) ds = elim (Bool-cases (p r)) [
    | inl e ↦ retain-rev_append p rs (r ∷ ds) ∙ rw (e) refl
    | inr e ↦ retain-rev_append p rs (r ∷ ds) ∙ rw (e) refl
  ]

  pub retain_agree :
      (p q : A → Bool) (xs : List A) → All (λ x. p x ≡ q x) xs → retain p xs ≡ retain q xs
  retain_agree p q [] h = refl
  retain_agree p q (x ∷ xs) h = rw (h.0, retain_agree p q xs h.1)

  -- Where nothing fails the test, all stays.
  pub retain-eq_self : (p : A → Bool) (xs : List A) → All (λ x. p x ≡ true) xs → retain p xs ≡ xs
  retain-eq_self p [] h = refl
  retain-eq_self p (x ∷ xs) h = rw h.0 (ap (◌∷◌ x) (retain-eq_self p xs h.1))

module _ {ℓ κ} {A : Type ℓ} {B : Type κ} where
  pub map-retain :
      (f : A → B) (p : B → Bool) (xs : List A)
      → map f (retain (λ x. p (f x)) xs) ≡ retain p (map f xs)
  map-retain f p [] = refl
  map-retain f p (x ∷ xs) = ground (arith, map-retain f p xs)

  pub All-map {μ} :
      (P : B → Type μ) (f : A → B) (xs : List A) → All (λ x. P (f x)) xs → All P (map f xs)
  All-map P f [] h = tt
  All-map P f (x ∷ xs) h = (h.0, All-map P f xs h.1)

  pub length-map : (f : A → B) (xs : List A) → length (map f xs) ≡ length xs
  length-map f [] = refl
  length-map f (x ∷ xs) = ap suc (length-map f xs)

  pub map-rev_append :
      (f : A → B) (xs ys : List A) → map f (rev_append xs ys) ≡ rev_append (map f xs) (map f ys)
  map-rev_append f [] ys = refl
  map-rev_append f (x ∷ xs) ys = map-rev_append f xs (x ∷ ys)
