-- ===== src/Base/Words.antt =====
-- Unsigned 64-bit arithmetic as the release build does it: it wraps. A signed number is its bit
-- pattern.
use Prim.Native.Nat.{ℕ, ◌+◌, ◌-◌, ◌*◌, ◌%◌, ◌^◌, ◌≤◌, ◌<◌}
use mathlib.Core.Path.{◌≡◌}
use native.Mathlib.Omega.{arith}

abbrev pub word : ℕ
word = 2 ^ 64

unfoldable pub add64 : ℕ → ℕ → ℕ
add64 a b = (a + b) % word

unfoldable pub sub64 : ℕ → ℕ → ℕ
sub64 a b = (a + word - b) % word

unfoldable pub mul64 : ℕ → ℕ → ℕ
mul64 a b = a * b % word

pub sub64-eq_of_le : (a b : ℕ) → a < word → b ≤ a → sub64 a b ≡ a - b
unfolding sub64
sub64-eq_of_le a b h le = omega arith

-- Below the subtrahend the difference wraps to the top of the range.
pub sub64-eq_of_lt : (a b : ℕ) → b < word → a < b → sub64 a b ≡ word - (b - a)
unfolding sub64
sub64-eq_of_lt a b h lt = omega arith
