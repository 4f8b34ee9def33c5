-- ===== src/Base/Keys.antt =====
-- Keys that no two rows share.
use hand.Base.Tests.{if◌then◌else◌, Bool-cases, ◌==◌}
use hand.Base.Lists.{All, count_where, find, max_of, update_where}
use hand.Base.Rows.{All-append, All-imp, All-update, count_where-none}
use Prim.Native.Nat.{ℕ, ◌+◌, ◌≤◌, ◌<◌, max}
use mathlib.Core.Path.{◌≡◌}
use mathlib.Core.Logic.{inl, inr, ◌≢◌}
use mathlib.Core.Bool.{Bool, true, false}
use mathlib.Core.Option.{some}
use mathlib.Core.List.{List, [], ◌∷◌, ◌++◌}
use native.Mathlib.Omega.{arith}

module _ {A : Type 0} where
  -- No two rows have the same key.
  abbrev pub UniqueKeys : (A → ℕ) → List A → Type 0
  UniqueKeys key [] = Unit {0}
  UniqueKeys key (x ∷ xs) = All (λ y. key y ≢ key x) xs × UniqueKeys key xs

  pub max_of-bounds : (key : A → ℕ) (xs : List A) → All (λ x. key x ≤ max_of key xs) xs
  max_of-bounds key [] = tt
  max_of-bounds key (x ∷ xs) = (
    omega arith,
    All-imp (λ y. key y ≤ max_of key xs) (λ y. key y ≤ max (key x) (max_of key xs)) xs
        (λ y h. omega arith) (max_of-bounds key xs),
  )

  -- A row whose key is past the others' may be appended.
  pub UniqueKeys-append :
      (key : A → ℕ) (xs : List A) (y : A)
      → All (λ x. key x < key y) xs
      → UniqueKeys key xs
      → UniqueKeys key (xs ++ y ∷ [])
  UniqueKeys-append key [] y h u = (tt, tt)
  UniqueKeys-append key (x ∷ xs) y h u = (
    All-append (λ z. key z ≢ key x) xs (y ∷ []) u.0 (omega arith, tt),
    UniqueKeys-append key xs y h.1 u.1,
  )

  -- The next key is past all others.
  pub UniqueKeys-append_next :
      (key : A → ℕ) (xs : List A) (y : A)
      → key y ≡ max_of key xs + 1
      → UniqueKeys key xs
      → UniqueKeys key (xs ++ y ∷ [])
  UniqueKeys-append_next key xs y e u =
      UniqueKeys-append key xs y
        (All-imp (λ x. key x ≤ max_of key xs) (λ x. key x < key y) xs (λ x h. omega arith)
          (max_of-bounds key xs))
        u

  -- An update that leaves the keys alone.
  pub UniqueKeys-update :
      (key : A → ℕ) (p : A → Bool) (f : A → A) (xs : List A)
      → ((x : A) → key (f x) ≡ key x)
      → UniqueKeys key xs
      → UniqueKeys key (update_where p f xs)
  UniqueKeys-update key p f [] same u = tt
  UniqueKeys-update key p f (x ∷ xs) same u = (
    All-update (λ y. key y ≢ key x) (λ y. key y ≢ key (if p x then f x else x)) p f xs
        (λ y h _. ground (arith, same x, same y)) (λ y h _. ground (arith, same x)) u.0,
    UniqueKeys-update key p f xs same u.1,
  )

  -- The row that a key finds is the only one with that key.
  pub find-only :
      (key : A → ℕ) (k : ℕ) (xs : List A) (x : A)
      → UniqueKeys key xs
      → find (λ y. key y == k) xs ≡ some x
      → All (λ y. key y ≡ k → y ≡ x) xs
  find-only key k [] x u e = tt
  find-only key k (y ∷ ys) x u e = elim (Bool-cases (key y == k)) [
    | inl t ↦ (
      λ _. cc (rw t at e),
      All-imp (λ z. key z ≢ key y) (λ z. key z ≡ k → z ≡ x) ys (λ z h q. absurd (h (ground arith)))
          u.0,
    )
    | inr t ↦ (λ q. absurd (ground arith), find-only key k ys x u.1 (rw t at e))
  ]

  -- A key that finds its row counts it once.
  pub count_where-key_le :
      (key : A → ℕ) (k : ℕ) (p : A → Bool) (xs : List A)
      → ((x : A) → p x ≡ true → key x ≡ k)
      → UniqueKeys key xs
      → count_where p xs ≤ 1
  count_where-key_le key k p [] h u = omega arith
  count_where-key_le key k p (x ∷ xs) h u = elim (Bool-cases (p x)) [
    | inl e ↦ rw e (
        let none_left : count_where p xs ≡ 0 = count_where-none p xs (
          All-imp (λ y. key y ≢ key x) (λ y. p y ≡ false) xs (λ y n. ground (arith, h x, h y))
            u.0) in
        omega (arith, none_left))
    | inr e ↦ rw e (count_where-key_le key k p xs h u.1)
  ]
