-- ===== src/Base/Outcomes.antt =====
-- What a call of the program comes to: a value, or the panic that ends its task.

-- `out_of_range` is an index past the end of a vector, `unwrapped` an `unwrap` or `expect` of
-- nothing, `receiver_dropped` an `expect` on a channel whose other end is gone, `empty_range` a
-- random choice from nothing, `zero_period` an interval of no time. `out_of_memory` ends the whole
-- process.
pub data Fault : Type 0 where
  out_of_range unwrapped receiver_dropped empty_range zero_period out_of_memory : Fault

pub data Outcome {ℓ} (A : Type ℓ) : Type ℓ where
  ok : A → Outcome A
  panic : Fault → Outcome A

infixl 5 ◌>>=◌ ◌>>◌
abbrev pub ◌>>=◌ {ℓ κ} : {A : Type ℓ} {B : Type κ} → Outcome A → (A → Outcome B) → Outcome B
ok a >>= f = f a
panic e >>= f = panic e

abbrev pub ◌>>◌ {ℓ} : {B : Type ℓ} → Outcome (Unit {0}) → Outcome B → Outcome B
m >> k = m >>= λ _. k
