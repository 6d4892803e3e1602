-- ===== src/Params/Parts.antt =====
-- The parts of a text at its first separator, and texts made of items with bars between them, for
-- `split` in `custom_instance_params` of plans/streaming_test/src/utils.rs.
use live_tests.Base.{
  sym, ap, ◌∙◌, ==→≡, ==→≢, ℕ, ◌≡◌, ◌≢◌, refl, List, [], ◌∷◌, ◌++◌, All, Option, none, some, inl,
  inr, Bool-cases, ==_refl, ≢→==, ◌==◌, if◌then◌else◌,
}
use live_tests.Params.{split, into_first}
use live_tests.Params.Dict.{Text}

abbrev pub Without : ℕ → Text → Type 0
Without separator = All (λ c. c ≢ separator)

-- The text in front of the first separator, and the text behind it, if there is one.
abbrev pub before : ℕ → Text → Text
before separator [] = []
before separator (c ∷ text) = if c == separator then [] else c ∷ before separator text

abbrev pub behind : ℕ → Text → Option Text
behind separator [] = none
behind separator (c ∷ text) = if c == separator then some text else behind separator text

abbrev pub parts_behind : ℕ → Option Text → List Text
parts_behind separator none = []
parts_behind separator (some text) = split separator text

-- `split` cuts off the text in front of the first separator, and goes on behind it.
pub split_lem :
    (separator : ℕ) (text : Text)
    → split separator text ≡ before separator text ∷ parts_behind separator (behind separator text)
unfolding split
split_lem separator [] = refl
split_lem separator (c ∷ text) = elim (Bool-cases (c == separator)) [
  | inl same ↦ rw same refl
  | inr other ↦ rw (other, split_lem separator text) refl
]

-- A part without the separator is the first part, in front of the separator or at the end.
pub split_end :
    (separator : ℕ) (part : Text) → Without separator part → split separator part ≡ part ∷ []
unfolding split
split_end separator [] h = refl
split_end separator (c ∷ part) h = rw (≢→== c separator h.0, split_end separator part h.1) refl

pub split_first :
    (separator : ℕ) (part text : Text)
    → Without separator part
    → split separator (part ++ separator ∷ text) ≡ part ∷ split separator text
unfolding split
split_first separator [] text h = rw (==_refl separator) refl
split_first separator (c ∷ part) text h =
    rw (≢→== c separator h.0, split_first separator part text h.1) refl

-- Items with bars between them.
abbrev pub write_items : List Text → Text
write_items [] = []
write_items (item ∷ []) = item
write_items (item ∷ item' ∷ items) = item ++ b'|' ∷ write_items (item' ∷ items)

-- No item has a bar in it. Every text is written by such items: cut it at its bars.
abbrev pub WithoutBars : List Text → Type 0
WithoutBars = All (Without b'|')

pub split-write_items :
    (item : Text) (items : List Text)
    → WithoutBars (item ∷ items)
    → split b'|' (write_items (item ∷ items)) ≡ item ∷ items
split-write_items item [] h = split_end b'|' item h.0
split-write_items item (item' ∷ items) h =
    split_first b'|' item (write_items (item' ∷ items)) h.0
    ∙ ap (◌∷◌ item) (split-write_items item' items h.1)

-- Every text is written by the items without bars that `split` cuts it into.
into_first-WithoutBars :
    (c : ℕ) (parts : List Text) → c ≢ b'|' → WithoutBars parts → WithoutBars (into_first c parts)
into_first-WithoutBars c [] other h = ((other, tt), tt)
into_first-WithoutBars c (part ∷ parts) other h = ((other, h.0), h.1)

pub split-WithoutBars : (text : Text) → WithoutBars (split b'|' text)
unfolding split
split-WithoutBars [] = (tt, tt)
split-WithoutBars (c ∷ text) = elim (Bool-cases (c == b'|')) [
  | inl same ↦ rw same (tt, split-WithoutBars text)
  | inr other ↦
      rw other
        (into_first-WithoutBars c (split b'|' text) (==→≢ c b'|' other) (split-WithoutBars text))
]

write_items-into_first :
    (c : ℕ) (parts : List Text) → write_items (into_first c parts) ≡ c ∷ write_items parts
write_items-into_first c [] = refl
write_items-into_first c (part ∷ []) = refl
write_items-into_first c (part ∷ part' ∷ parts) = refl

write_items-bar :
    (parts : List Text) (part : Text) (more : List Text)
    → parts ≡ part ∷ more
    → write_items ([] ∷ parts) ≡ b'|' ∷ write_items parts
write_items-bar [] part more e = cc
write_items-bar (first ∷ parts) part more e = refl

pub write_items-split : (text : Text) → write_items (split b'|' text) ≡ text
unfolding split
write_items-split [] = refl
write_items-split (c ∷ text) = elim (Bool-cases (c == b'|')) [
  | inl same ↦ rw same (
      write_items-bar (split b'|' text) _ _ (split_lem b'|' text)
      ∙ ap (◌∷◌ b'|') (write_items-split text)
      ∙ ap (λ d. d ∷ text) (sym (==→≡ c b'|' same)))
  | inr other ↦
      rw other (write_items-into_first c (split b'|' text) ∙ ap (◌∷◌ c) (write_items-split text))
]
