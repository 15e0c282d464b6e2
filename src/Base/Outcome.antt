-- ===== src/Base/Outcome.antt =====
-- The outcome of code that may raise, and of loops that take fuel.
-- `out_of_fuel` has no counterpart in the program: it stands for a loop that is still running.

pub data Outcome {ℓ} (A : Type ℓ) : Type ℓ where
  returned : A → Outcome A
  raised out_of_fuel : Outcome A

infixl 5 ◌>>=◌
abbrev pub ◌>>=◌ {ℓ κ} : {A : Type ℓ} {B : Type κ} → Outcome A → (A → Outcome B) → Outcome B
returned a >>= f = f a
raised >>= f = raised
out_of_fuel >>= f = out_of_fuel
