-- ===== src/Base/Calls.antt =====
-- What a call of Go code comes to: it returns, or it panics on an index out of range, or (for a loop
-- on fuel, and never in the theorems) the fuel of the model is used up.

pub data Outcome {ℓ} (A : Type ℓ) : Type ℓ where
  ret : A → Outcome A
  panic stuck : Outcome A

infixl 5 ◌>>=◌
abbrev pub ◌>>=◌ {ℓ κ} : {A : Type ℓ} {B : Type κ} → Outcome A → (A → Outcome B) → Outcome B
ret a >>= f = f a
panic >>= f = panic
stuck >>= f = stuck

-- The fuel was enough.
abbrev pub Finishes {ℓ} : {A : Type ℓ} → Outcome A → Type 0
Finishes (ret a) = Unit
Finishes panic = Unit
Finishes stuck = ⊥
