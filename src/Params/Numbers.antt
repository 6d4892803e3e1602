-- ===== src/Params/Numbers.antt =====
-- `str::parse` into a `bool` and into a `usize`, and how such values are written.
use live_tests.Base.{
  ℕ, zero, suc, ◌+◌, ◌-◌, ◌*◌, ◌/◌, ◌%◌, ◌≤◌, ◌<◌, ◌≡◌, inl, inr, refl, ap, ◌∙◌, [], ◌∷◌, Bool,
  true, false, ◌&&◌, Option, none, some, ltb, leb, ◌==◌, if◌then◌else◌, ==→≡, Bool-cases, word,
  arith,
}
use live_tests.Params.Dict.{Text, codes, text_eq}

unfoldable pub parse_bool : Text → Option Bool
unfolding text_eq
parse_bool text =
    if text_eq text (codes "true")
    then some true
    else if text_eq text (codes "false")
    then some false
    else none

-- The loop over the digits, with checked arithmetic.
scan : Text → ℕ → Option ℕ
scan [] n = some n
scan (c ∷ text) n =
    let m = n * 10 + (c - b'0') in
    let rest = scan text m in if leb b'0' c && leb c b'9' && ltb m word then rest else none

-- One leading `+` is accepted, and at least one digit is wanted.
unfoldable pub parse_usize : Text → Option ℕ
unfolding scan
parse_usize [] = none
parse_usize (c ∷ []) = scan (c ∷ []) 0
parse_usize (c ∷ d ∷ text) = if c == b'+' then scan (d ∷ text) 0 else scan (c ∷ d ∷ text) 0

abbrev pub write_bool : Bool → Text
write_bool b = codes (if b then "true" else "false")

pub parse_bool-write_bool : (b : Bool) → parse_bool (write_bool b) ≡ some b
unfolding parse_bool
parse_bool-write_bool true = refl
parse_bool-write_bool false = refl

-- The digits of `n` in front of a text; a round for each of the `fuel` at most.
digits : ℕ → ℕ → Text → Text
digits zero n text = text
digits (suc fuel) n text =
    let more = digits fuel (n / 10) ((b'0' + n % 10) ∷ text) in if n == 0 then text else more

-- A number has no more digits than its value, so the fuel is enough.
unfoldable pub write_usize : ℕ → Text
unfolding digits
write_usize n = if n == 0 then b'0' ∷ [] else digits n n []

scan_last : (n : ℕ) (text : Text) → n < word → scan ((b'0' + n % 10) ∷ text) (n / 10) ≡ scan text n
unfolding scan
scan_last n text fits =
    let m : n / 10 * 10 + (b'0' + n % 10 - b'0') ≡ n = omega arith in rw m (ground arith)

scan-digits :
    (fuel n : ℕ) (text : Text) → n ≤ fuel → n < word → scan (digits fuel n text) 0 ≡ scan text n
unfolding scan digits
scan-digits zero n text enough fits = let none_left : n ≡ 0 = omega arith in rw none_left refl
scan-digits (suc fuel) n text enough fits = elim (Bool-cases (n == 0)) [
  | inl done ↦ rw done (rw (==→≡ n 0 done) refl)
  | inr more ↦ rw more (
      scan-digits fuel (n / 10) ((b'0' + n % 10) ∷ text) (ground arith) (omega arith)
      ∙ scan_last n text fits)
]

-- A text that begins with a digit, or another character behind `+`.
abbrev DigitFirst : Text → Type 0
DigitFirst [] = ⊥
DigitFirst (c ∷ text) = b'0' ≤ c

digits-DigitFirst : (fuel n : ℕ) (text : Text) → DigitFirst text → DigitFirst (digits fuel n text)
unfolding digits
digits-DigitFirst zero n text h = h
digits-DigitFirst (suc fuel) n text h = elim (Bool-cases (n == 0)) [
  | inl done ↦ rw done h
  | inr more ↦ rw more (digits-DigitFirst fuel (n / 10) ((b'0' + n % 10) ∷ text) (omega arith))
]

parse_usize-scan : (text : Text) → DigitFirst text → parse_usize text ≡ scan text 0
unfolding parse_usize
parse_usize-scan [] h = absurd h
parse_usize-scan (c ∷ []) h = refl
parse_usize-scan (c ∷ d ∷ text) h = let e : (c == b'+') ≡ false = ground arith in rw e refl

written-DigitFirst : (n : ℕ) → DigitFirst (write_usize n)
unfolding write_usize
written-DigitFirst zero = omega arith
written-DigitFirst (suc n) =
    let e : (suc n == 0) ≡ false = ground arith in
    rw e (digits-DigitFirst n (suc n / 10) ((b'0' + suc n % 10) ∷ []) (omega arith))

scan-write_usize : (n : ℕ) → n < word → scan (write_usize n) 0 ≡ some n
unfolding write_usize scan
scan-write_usize zero fits = refl
scan-write_usize (suc n) fits =
    let e : (suc n == 0) ≡ false = ground arith in
    let w : write_usize (suc n) ≡ digits (suc n) (suc n) [] = rw e refl in
    ap (λ t. scan t 0) w ∙ scan-digits (suc n) (suc n) [] (omega arith) fits

pub parse_usize-write_usize : (n : ℕ) → n < word → parse_usize (write_usize n) ≡ some n
parse_usize-write_usize n fits =
    parse_usize-scan (write_usize n) (written-DigitFirst n) ∙ scan-write_usize n fits
