-- ===== src/Prelude/Calls.antt =====
-- How a call ends: it returns, it spins for ever in `kASSERT` (common/include/common/assert.h), it
-- goes through an object pointer that is NULL, or the fuel that the model gives a loop is used up.

pub data Outcome {ℓ} (A : Type ℓ) : Type ℓ where
  returns : A → Outcome A
  spins : Outcome A
  faults : Outcome A
  out_of_fuel : Outcome A

infixl 5 ◌>>=◌
abbrev pub ◌>>=◌ {ℓ κ} : {A : Type ℓ} {B : Type κ} → Outcome A → (A → Outcome B) → Outcome B
returns a >>= f = f a
spins >>= f = spins
faults >>= f = faults
out_of_fuel >>= f = out_of_fuel
