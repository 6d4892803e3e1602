-- ===== src/Service/Table.antt =====
-- `HashMap` and `HashSet` of the standard library as association lists.
use live_tests.Base.{
  ℕ, suc, ◌≤◌, ◌≡◌, refl, List, [], ◌∷◌, Bool, true, false, ◌&&◌, ◌||◌, Option, none, some, ◌==◌,
  if◌then◌else◌, length, arith,
}

module _ {V : Type 0} where
  -- `map.get(&k)`
  unfoldable pub get : ℕ → List (ℕ × V) → Option V
  get k [] = none
  get k ((j, v) ∷ m) = if j == k then some v else get k m

  -- `map.insert(k, v)`; the value that it returns is `get k` of the map before.
  unfoldable pub insert : ℕ → V → List (ℕ × V) → List (ℕ × V)
  insert k v [] = (k, v) ∷ []
  insert k v ((j, w) ∷ m) =
      let inserted = insert k v m in if j == k then (k, v) ∷ m else (j, w) ∷ inserted

  -- `map.remove(&k)`; the value that it returns is `get k` of the map before.
  unfoldable pub delete : ℕ → List (ℕ × V) → List (ℕ × V)
  delete k [] = []
  delete k ((j, v) ∷ m) = if j == k then delete k m else (j, v) ∷ delete k m

  pub get-insert :
      (k j : ℕ) (v : V) (m : List (ℕ × V))
      → get j (insert k v m) ≡ (if k == j then some v else get j m)
  unfolding get insert
  get-insert k j v [] = refl
  get-insert k j v ((i, w) ∷ m) = ground (arith, get-insert k j v m)

  pub get-delete :
      (k j : ℕ) (m : List (ℕ × V)) → get j (delete k m) ≡ (if k == j then none else get j m)
  unfolding get delete
  get-delete k j [] = ground arith
  get-delete k j ((i, w) ∷ m) = ground (arith, get-delete k j m)

-- The set of pairs of numbers: `insert` and `remove` also return whether they changed it.
abbrev pub pair_eq : ℕ × ℕ → ℕ × ℕ → Bool
pair_eq x y = x.0 == y.0 && x.1 == y.1

unfoldable pub contains : ℕ × ℕ → List (ℕ × ℕ) → Bool
contains x [] = false
contains x (y ∷ s) = pair_eq x y || contains x s

unfoldable pub discard : ℕ × ℕ → List (ℕ × ℕ) → List (ℕ × ℕ)
discard x [] = []
discard x (y ∷ s) = if pair_eq x y then discard x s else y ∷ discard x s

-- No pair twice.
abbrev pub IsSetLike : List (ℕ × ℕ) → Type 0
IsSetLike [] = Unit
IsSetLike (x ∷ s) = (contains x s ≡ false) × IsSetLike s

pub contains-discard :
    (x y : ℕ × ℕ) (s : List (ℕ × ℕ))
    → contains y (discard x s) ≡ (if pair_eq x y then false else contains y s)
unfolding contains discard
contains-discard x y [] = ground arith
contains-discard x y (z ∷ s) = ground (arith, contains-discard x y s)

pub discard-IsSetLike : (x : ℕ × ℕ) (s : List (ℕ × ℕ)) → IsSetLike s → IsSetLike (discard x s)
unfolding discard
discard-IsSetLike x [] h = tt
discard-IsSetLike x (y ∷ s) h = ground (arith, discard-IsSetLike x s h.1, contains-discard x y s)

pub length-discard : (x : ℕ × ℕ) (s : List (ℕ × ℕ)) → length (discard x s) ≤ length s
unfolding discard
length-discard x [] = omega arith
length-discard x (y ∷ s) = ground (arith, length-discard x s)

-- Taking out a pair that is there makes room for one more.
pub length-discard_found :
    (x : ℕ × ℕ) (s : List (ℕ × ℕ)) → contains x s ≡ true → suc (length (discard x s)) ≤ length s
unfolding contains discard
length-discard_found x [] h = absurd (ground arith)
length-discard_found x (y ∷ s) h = ground (arith, length-discard x s, length-discard_found x s)

-- What is not there cannot be taken off.
pub discard_missing : (x : ℕ × ℕ) (s : List (ℕ × ℕ)) → contains x s ≡ false → discard x s ≡ s
unfolding contains discard
discard_missing x [] h = refl
discard_missing x (y ∷ s) h = ground (arith, discard_missing x s)
