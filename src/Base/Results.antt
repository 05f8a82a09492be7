-- ===== src/Base/Results.antt =====
-- A computation that fails with an error value, as an Effect does.

pub data Result {ℓ κ} (E : Type κ) (A : Type ℓ) : Type (ℓ ⊔ κ) where
  ok : A → Result E A
  err : E → Result E A
