-- ===== src/Params/Dict.antt =====
-- Texts, and a `HashMap` with texts as keys.
use Prim.Native.Char.{code}
use Prim.Native.String.{String}
use live_tests.Base.{
  ℕ, ◌≡◌, refl, List, [], ◌∷◌, Bool, true, false, ◌&&◌, Option, none, some, ◌==◌, if◌then◌else◌,
  Bool-cases, inl, inr, arith,
}

abbrev pub Text : Type 0
Text = List ℕ

-- The code points of a literal.
abbrev pub codes : String → Text
codes String.[] = []
codes (String.◌∷◌ c s) = code c ∷ codes s

unfoldable pub text_eq : Text → Text → Bool
text_eq [] [] = true
text_eq [] (d ∷ t) = false
text_eq (c ∷ s) [] = false
text_eq (c ∷ s) (d ∷ t) = c == d && text_eq s t

pub text_eq_refl : (s : Text) → text_eq s s ≡ true
unfolding text_eq
text_eq_refl [] = refl
text_eq_refl (c ∷ s) = ground (arith, text_eq_refl s)

pub text_eq→≡ : (s t : Text) → text_eq s t ≡ true → s ≡ t
unfolding text_eq
text_eq→≡ [] [] h = refl
text_eq→≡ [] (d ∷ t) h = cc
text_eq→≡ (c ∷ s) [] h = cc
text_eq→≡ (c ∷ s) (d ∷ t) h = ground (arith, text_eq→≡ s t)

unfoldable pub get : Text → List (Text × Text) → Option Text
unfolding text_eq
get k [] = none
get k ((j, v) ∷ m) = if text_eq j k then some v else get k m

unfoldable pub insert : Text → Text → List (Text × Text) → List (Text × Text)
unfolding text_eq
insert k v [] = (k, v) ∷ []
insert k v ((j, w) ∷ m) =
    let kept = insert k v m in if text_eq j k then (k, v) ∷ m else (j, w) ∷ kept

-- No third text equals two that differ.
other_key : (i k j : Text) → text_eq i k ≡ false → text_eq i j ≡ true → text_eq k j ≡ false
other_key i k j other same = elim (Bool-cases (text_eq k j)) [
  | inl h ↦ cc (text_eq→≡ k j h)
  | inr h ↦ h
]

pub get-insert :
    (k j v : Text) (m : List (Text × Text))
    → get j (insert k v m) ≡ (if text_eq k j then some v else get j m)
unfolding get insert
get-insert k j v [] = refl
get-insert k j v ((i, w) ∷ m) = elim (Bool-cases (text_eq i k)) [
  | inl same ↦ rw (text_eq→≡ i k same, text_eq_refl k) (ground arith)
  | inr other ↦ rw (other, get-insert k j v m) (ground (arith, other_key i k j other))
]
