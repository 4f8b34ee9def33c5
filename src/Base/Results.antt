-- ===== src/Base/Results.antt =====
-- Errors as values. An error keeps the sentinel that it wraps (internal/state/state.go), not its
-- text; `other` is an error that wraps none of them.

pub data Error : Type 0 where
  not_found conflict invalid other : Error

pub data Result {ℓ} (A : Type ℓ) : Type ℓ where
  ok : A → Result A
  err : Error → Result A
