-- ===== src/State/Transactions.antt =====
-- internal/state/state.go: a transaction reads and writes the database and may fail. `tx` runs one
-- and rolls back on an error; `commit_error` is what the driver's COMMIT answers.
pub mod Success
use hand.State.Schema.{Db}
use hand.Base.{
  Option-cases, inl, inr, Bool, Error, Option, Result, err, false, if◌then◌else◌, none, ok, refl,
  some, subst, true, ◌≡◌,
}

abbrev pub M : Type 0 → Type 0
M A = Db → Result (A × Db)

pub pure : {A : Type 0} → A → M A
pure a db = ok (a, db)

pub fail : {A : Type 0} → Error → M A
fail e db = err e

-- `if test { return error }`.
pub refuse : Bool → Error → M (Unit {0})
refuse test e db = if test then err e else ok (tt, db)

pub query : {A : Type 0} → (Db → A) → M A
query f db = ok (f db, db)

pub exec : (Db → Db) → M (Unit {0})
exec f db = ok (tt, f db)

-- QueryRow(...).Scan with sql.ErrNoRows turned into `e`.
pub query_row : {A : Type 0} → (Db → Option A) → Error → M A
query_row f e db = elim (f db) [ none ↦ err e | some a ↦ ok (a, db) ]

-- A word that was read, or `e` where it could not be.
pub require : {A : Type 0} → Option A → Error → M A
require none e db = err e
require (some a) e db = ok (a, db)

-- A callback's result.
pub lift : {A : Type 0} → Result A → M A
lift (ok a) db = ok (a, db)
lift (err e) db = err e

infixl 5 ◌>>=◌ ◌>>◌
-- Opening this opens the statements too.
unfoldable pub ◌>>=◌ : {A B : Type 0} → M A → (A → M B) → M B
unfolding pure fail refuse query exec query_row require lift
◌>>=◌ m f db = elim (m db) [ ok (a, db') ↦ f a db' | err e ↦ err e ]

abbrev pub ◌>>◌ : {B : Type 0} → M (Unit {0}) → M B → M B
m >> k = m >>= λ _. k

-- Store.tx: the result that the caller gets, and the database that is left.
unfoldable pub tx : {A : Type 0} → Option Error → M A → Db → Result A × Db
tx commit_error m db = elim (m db) [
  | err e ↦ (err e, db)
  | ok (a, db') ↦ elim commit_error [ some e ↦ (err e, db) | none ↦ (ok a, db') ]
]

-- Result and state, where there is no error, satisfy `Q`.
pub record Holds {A : Type 0} (Q : A → Db → Type 0) (r : Result (A × Db)) : Type 0 where
  pub at : (a : A) (db : Db) → r ≡ ok (a, db) → Q a db

module _ {A : Type 0} {Q : A → Db → Type 0} where
  pub ok-Holds : (a : A) (db : Db) → Q a db → Holds Q (ok (a, db))
  ok-Holds a db h = record { at = λ a' db' e. subst (λ r. AtResult r) e h }
    where
      AtResult : Result (A × Db) → Type 0
      AtResult (ok (a, db)) = Q a db
      AtResult (err e) = Unit

  pub err-Holds : (e : Error) → Holds Q (err e)
  err-Holds e = record { at = λ a' db' h. cc }

  pub pure-Holds : (a : A) (db : Db) → Q a db → Holds Q (pure a db)
  unfolding pure
  pure-Holds a db h = ok-Holds a db h

  pub fail-Holds : (e : Error) (db : Db) → Holds Q (fail e db)
  unfolding fail
  fail-Holds e db = err-Holds e

  pub if-Holds :
      (test : Bool) (m n : M A) (db : Db)
      → (test ≡ true → Holds Q (m db))
      → (test ≡ false → Holds Q (n db))
      → Holds Q ((if test then m else n) db)
  if-Holds true m n db h k = h refl
  if-Holds false m n db h k = k refl

module _ {B : Type 0} {Q : B → Db → Type 0} where
  pub refuse-Holds :
      (test : Bool) (e : Error) (k : Unit {0} → M B) (db : Db)
      → (test ≡ false → Holds Q (k tt db))
      → Holds Q ((refuse test e >>= k) db)
  unfolding ◌>>=◌
  refuse-Holds true e k db h = err-Holds e
  refuse-Holds false e k db h = h refl

  pub exec-Holds :
      (f : Db → Db) (k : Unit {0} → M B) (db : Db)
      → Holds Q (k tt (f db))
      → Holds Q ((exec f >>= k) db)
  unfolding ◌>>=◌
  exec-Holds f k db h = h

-- A transaction that ends in a callback.
pub lift_last-Holds :
    {A : Type 0} {P : A → Db → Type 0} (r : Result A) (db : Db)
    → ((a : A) → P a db)
    → Holds P (lift r db)
unfolding lift
lift_last-Holds (ok a) db h = ok-Holds a db (h a)
lift_last-Holds (err e) db h = err-Holds e

-- A transaction that ends in a check.
pub refuse_last-Holds :
    {P : Unit {0} → Db → Type 0} (test : Bool) (e : Error) (db : Db)
    → (test ≡ false → P tt db)
    → Holds P (refuse test e db)
unfolding refuse
refuse_last-Holds true e db h = err-Holds e
refuse_last-Holds false e db h = ok-Holds tt db (h refl)

-- A transaction that ends in a write.
pub exec_last-Holds :
    {P : Unit {0} → Db → Type 0} (f : Db → Db) (db : Db) → P tt (f db) → Holds P (exec f db)
unfolding exec
exec_last-Holds f db h = ok-Holds tt (f db) h

module _ {A B : Type 0} {Q : B → Db → Type 0} where
  pub query-Holds :
      (f : Db → A) (k : A → M B) (db : Db) → Holds Q (k (f db) db) → Holds Q ((query f >>= k) db)
  unfolding ◌>>=◌
  query-Holds f k db h = h

  pub row-Holds :
      (f : Db → Option A) (e : Error) (k : A → M B) (db : Db)
      → ((a : A) → f db ≡ some a → Holds Q (k a db))
      → Holds Q ((query_row f e >>= k) db)
  unfolding ◌>>=◌
  row-Holds f e k db h = elim (Option-cases (f db)) [
    | inl q ↦ record { at = λ a' db' r. cc (rw (q, ◌>>=◌, query_row) at r) }
    | inr (a, q) ↦ rw (q, ◌>>=◌, query_row) (h a q)
  ]

  pub require-Holds :
      (o : Option A) (e : Error) (k : A → M B) (db : Db)
      → ((a : A) → o ≡ some a → Holds Q (k a db))
      → Holds Q ((require o e >>= k) db)
  unfolding ◌>>=◌
  require-Holds none e k db h = err-Holds e
  require-Holds (some a) e k db h = h a refl

  pub lift-Holds :
      (r : Result A) (k : A → M B) (db : Db)
      → ((a : A) → r ≡ ok a → Holds Q (k a db))
      → Holds Q ((lift r >>= k) db)
  unfolding ◌>>=◌
  lift-Holds (ok a) k db h = h a refl
  lift-Holds (err e) k db h = err-Holds e

  -- A call of another transaction.
  pub bind-Holds :
      (P : A → Db → Type 0) (m : M A) (k : A → M B) (db : Db)
      → Holds P (m db)
      → ((a : A) (db' : Db) → P a db' → Holds Q (k a db'))
      → Holds Q ((m >>= k) db)
  unfolding ◌>>=◌
  bind-Holds P m k db h g = after (m db) refl
    where
      after : (r : Result (A × Db)) → m db ≡ r → Holds Q ((m >>= k) db)
      after (ok (a, db')) q = rw (q, ◌>>=◌) (g a db' (h.at a db' q))
      after (err e) q = rw (q, ◌>>=◌) (err-Holds e)

module _ {A : Type 0} where
  -- A transaction that is rolled back leaves what it found.
  pub tx-keeps :
      (P : Db → Type 0) (commit_error : Option Error) (m : M A) (db : Db)
      → P db
      → Holds (λ _ db'. P db') (m db)
      → P (tx commit_error m db).1
  unfolding tx
  tx-keeps P commit_error m db h k = after (m db) refl commit_error
    where
      after : (r : Result (A × Db)) → m db ≡ r → (c : Option Error) → P (tx c m db).1
      after (ok (a, db')) q none = rw (q, tx) (k.at a db' q)
      after (ok (a, db')) q (some e) = rw (q, tx) h
      after (err e) q c = rw (q, tx) h

  pub imp-Holds :
      (P Q : A → Db → Type 0) (r : Result (A × Db))
      → ((a : A) (db : Db) → P a db → Q a db)
      → Holds P r
      → Holds Q r
  imp-Holds P Q r f h = record { at = λ a db e. f a db (h.at a db e) }
