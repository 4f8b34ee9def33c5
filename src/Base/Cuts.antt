-- ===== src/Base/Cuts.antt =====
-- Lists cut in pieces and put together.
use Prim.Native.Nat.{ℕ, zero, suc, ◌≤◌}
use mathlib.Core.Path.{◌≡◌, refl, ap}
use mathlib.Core.List.{List, [], ◌∷◌, ◌++◌}
use native.Mathlib.Omega.{arith}
use hand.Base.Lists.{length, take, drop}

module _ {ℓ} {A : Type ℓ} where
  pub append_assoc : (s t u : List A) → (s ++ t) ++ u ≡ s ++ (t ++ u)
  append_assoc [] t u = refl
  append_assoc (c ∷ s) t u = ap (λ r. c ∷ r) (append_assoc s t u)

  pub append_nil : (s : List A) → s ++ [] ≡ s
  append_nil [] = refl
  append_nil (c ∷ s) = ap (λ r. c ∷ r) (append_nil s)

  pub take-append-drop : (n : ℕ) (s : List A) → take n s ++ drop n s ≡ s
  take-append-drop zero s = refl
  take-append-drop (suc n) [] = refl
  take-append-drop (suc n) (c ∷ s) = ap (λ r. c ∷ r) (take-append-drop n s)

  pub length-drop_le : (n : ℕ) (s : List A) → length (drop n s) ≤ length s
  length-drop_le zero s = omega arith
  length-drop_le (suc n) [] = omega arith
  length-drop_le (suc n) (c ∷ s) = omega (arith, length-drop_le n s)

  pub length-take_le : (n : ℕ) (s : List A) → length (take n s) ≤ length s
  length-take_le zero s = omega arith
  length-take_le (suc n) [] = omega arith
  length-take_le (suc n) (c ∷ s) = omega (arith, length-take_le n s)
