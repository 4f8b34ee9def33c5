-- ===== src/Base/Rows.antt =====
-- What holds of every row, and how the queries and updates of a table keep it.
use hand.Base.Tests.{Bool-cases, if◌then◌else◌}
use hand.Base.Lists.{All, count_where, exists_where, find, select, update_where}
use Prim.Native.Nat.{◌+◌, ◌≤◌}
use mathlib.Core.Path.{◌≡◌, refl, ap}
use mathlib.Core.Logic.{inl, inr}
use mathlib.Core.Bool.{Bool, true, false}
use mathlib.Core.Option.{none, some}
use mathlib.Core.List.{List, [], ◌∷◌, ◌++◌}
use native.Mathlib.Omega.{arith}

module _ {ℓ κ} {A : Type ℓ} where
  pub All-append : (P : A → Type κ) (xs ys : List A) → All P xs → All P ys → All P (xs ++ ys)
  All-append P [] ys h k = k
  All-append P (x ∷ xs) ys h k = (h.0, All-append P xs ys h.1 k)

  pub All-of : (P : A → Type κ) (xs : List A) → ((x : A) → P x) → All P xs
  All-of P [] f = tt
  All-of P (x ∷ xs) f = (f x, All-of P xs f)

  pub All-imp : (P Q : A → Type κ) (xs : List A) → ((x : A) → P x → Q x) → All P xs → All Q xs
  All-imp P Q [] f h = tt
  All-imp P Q (x ∷ xs) f h = (f x h.0, All-imp P Q xs f h.1)

  -- With a second fact about each row at hand.
  pub All-imp₂ :
      (P Q R : A → Type κ) (xs : List A)
      → ((x : A) → P x → Q x → R x)
      → All P xs
      → All Q xs
      → All R xs
  All-imp₂ P Q R [] f h k = tt
  All-imp₂ P Q R (x ∷ xs) f h k = (f x h.0 k.0, All-imp₂ P Q R xs f h.1 k.1)

  pub All-update :
      (P Q : A → Type κ) (p : A → Bool) (f : A → A) (xs : List A)
      → ((x : A) → P x → p x ≡ true → Q (f x))
      → ((x : A) → P x → p x ≡ false → Q x)
      → All P xs
      → All Q (update_where p f xs)
  All-update P Q p f [] yes' no' h = tt
  All-update P Q p f (x ∷ xs) yes' no' h = (
    elim (Bool-cases (p x)) [ inl e ↦ rw e (yes' x h.0 e) | inr e ↦ rw e (no' x h.0 e) ],
    All-update P Q p f xs yes' no' h.1,
  )

  pub All-select : (P : A → Type κ) (p : A → Bool) (xs : List A) → All P xs → All P (select p xs)
  All-select P p [] h = tt
  All-select P p (x ∷ xs) h = elim (Bool-cases (p x)) [
    | inl e ↦ rw e (h.0, All-select P p xs h.1)
    | inr e ↦ rw e (All-select P p xs h.1)
  ]

  pub find-All :
      (P : A → Type κ) (p : A → Bool) (xs : List A) {x : A} → find p xs ≡ some x → All P xs → P x
  find-All P p [] e h = cc
  find-All P p (y ∷ ys) {x = x} e h = elim (Bool-cases (p y)) [
    | inl t ↦ rw (some_inj y x (rw t at e)) at h.0
    | inr t ↦ find-All P p ys (rw t at e) h.1
  ]
    where
      some_inj : (a b : A) → some a ≡ some b → a ≡ b
      some_inj a b q = cc

module _ {ℓ} {A : Type ℓ} where
  pub find-none : (p : A → Bool) (xs : List A) → find p xs ≡ none → All (λ x. p x ≡ false) xs
  find-none p [] e = tt
  find-none p (x ∷ xs) e = elim (Bool-cases (p x)) [
    | inl t ↦ cc (rw t at e)
    | inr t ↦ (t, find-none p xs (rw t at e))
  ]

  pub find-true : (p : A → Bool) (xs : List A) {x : A} → find p xs ≡ some x → p x ≡ true
  find-true p [] e = cc
  find-true p (y ∷ ys) {x = x} e = ground (arith, find-true p ys {x = x})

  pub exists_where-false :
      (p : A → Bool) (xs : List A) → exists_where p xs ≡ false → All (λ x. p x ≡ false) xs
  exists_where-false p [] e = tt
  exists_where-false p (x ∷ xs) e = (ground arith, exists_where-false p xs (ground arith))

  pub count_where-append :
      (p : A → Bool) (xs ys : List A)
      → count_where p (xs ++ ys) ≡ count_where p xs + count_where p ys
  count_where-append p [] ys = omega arith
  count_where-append p (x ∷ xs) ys = ground (arith, count_where-append p xs ys)

  pub count_where-none :
      (p : A → Bool) (xs : List A) → All (λ x. p x ≡ false) xs → count_where p xs ≡ 0
  count_where-none p [] h = refl
  count_where-none p (x ∷ xs) h = ground (arith, count_where-none p xs)

  -- An update that makes no row pass makes the count no larger.
  pub count_where-update_le :
      (p q : A → Bool) (f : A → A) (xs : List A)
      → ((x : A) → q x ≡ true → p (f x) ≡ true → p x ≡ true)
      → count_where p (update_where q f xs) ≤ count_where p xs
  count_where-update_le p q f [] h = omega arith
  count_where-update_le p q f (x ∷ xs) h = ground (arith, h x, count_where-update_le p q f xs h)

  -- The same, of the rows that the table has.
  pub count_where-update_le_of :
      (p q : A → Bool) (f : A → A) (xs : List A)
      → All (λ x. q x ≡ true → p (f x) ≡ true → p x ≡ true) xs
      → count_where p (update_where q f xs) ≤ count_where p xs
  count_where-update_le_of p q f [] h = omega arith
  count_where-update_le_of p q f (x ∷ xs) h =
      ground (arith, h.0, count_where-update_le_of p q f xs h.1)

  -- An update that leaves its own test alone changes the row that the test finds.
  pub find-update :
      (p : A → Bool) (f : A → A) (xs : List A) {x : A}
      → ((y : A) → p (f y) ≡ p y)
      → find p xs ≡ some x
      → find p (update_where p f xs) ≡ some (f x)
  find-update p f [] same e = cc
  find-update p f (y ∷ ys) {x = x} same e = elim (Bool-cases (p y)) [
    | inl t ↦ rw t (rw (same y, t) (cc (rw t at e)))
    | inr t ↦ rw t (rw t (find-update p f ys same (rw t at e)))
  ]

  -- An update by another test, that leaves the first test alone.
  pub find-update_where :
      (q p : A → Bool) (f : A → A) (xs : List A) {x : A}
      → ((y : A) → q (f y) ≡ q y)
      → find q xs ≡ some x
      → find q (update_where p f xs) ≡ some (if p x then f x else x)
  find-update_where q p f [] same e = cc
  find-update_where q p f (y ∷ ys) {x = x} same e = elim (Bool-cases (q y)) [
    | inl t ↦
        let hit : y ≡ x = some_eq y x (rw t at e) in
        elim (Bool-cases (p y)) [
          | inl u ↦ rw u (rw (same y, t) (rw (rw hit at u) (ap (λ z. some (f z)) hit)))
          | inr u ↦ rw u (rw t (rw (rw hit at u) (ap some hit)))
        ]
    | inr t ↦
        let rest = find-update_where q p f ys same (rw t at e) in
        elim (Bool-cases (p y)) [ inl u ↦ rw u (rw (same y, t) rest) | inr u ↦ rw u (rw t rest) ]
  ]
    where
      some_eq : (a b : A) → some a ≡ some b → a ≡ b
      some_eq a b h = cc

  -- A row that is found is found still when another comes behind it.
  pub find-append :
      (q : A → Bool) (xs ys : List A) {x : A} → find q xs ≡ some x → find q (xs ++ ys) ≡ some x
  find-append q [] ys e = cc
  find-append q (y ∷ xs) ys {x = x} e = elim (Bool-cases (q y)) [
    | inl t ↦ rw t (rw t at e)
    | inr t ↦ rw t (find-append q xs ys (rw t at e))
  ]

  pub find-append_none :
      (q : A → Bool) (xs : List A) (y : A)
      → All (λ x. q x ≡ false) xs
      → q y ≡ true
      → find q (xs ++ y ∷ []) ≡ some y
  find-append_none q [] y h t = rw t refl
  find-append_none q (x ∷ xs) y h t = rw h.0 (find-append_none q xs y h.1 t)
