-- ===== src/State/Transactions/Success.antt =====
-- When a transaction succeeds: the counterpart of the rules for `Holds` in Transactions.
use hand.Base.{Bool, Error, Option, Result, false, none, ok, refl, some, true, ◌≡◌}
use hand.State.Schema.{Db}
use hand.State.Transactions.{Holds, M, exec, pure, query, query_row, refuse, require, ◌>>=◌}

-- There is a result.
abbrev pub Succeeds : {A : Type 0} → Result (A × Db) → Type 0
Succeeds {A} r = (a : A) × (db : Db) × (r ≡ ok (a, db))

-- What every result satisfies is there where there is a result.
pub held :
    {A : Type 0} {Q : A → Db → Type 0} (r : Result (A × Db))
    → Holds Q r
    → (s : Succeeds r) → Q s.0 s.1
held r h s = h.at s.0 s.1 s.2

module _ {A : Type 0} where
  pub pure-Succeeds : (a : A) (db : Db) → Succeeds (pure a db)
  unfolding pure
  pure-Succeeds a db = (a, db, refl)

  pub refuse-Succeeds :
      (test : Bool) (e : Error) (k : Unit {0} → M A) (db : Db)
      → test ≡ false
      → Succeeds (k tt db)
      → Succeeds ((refuse test e >>= k) db)
  unfolding ◌>>=◌
  refuse-Succeeds true e k db h s = cc
  refuse-Succeeds false e k db h s = s

  pub exec-Succeeds :
      (f : Db → Db) (k : Unit {0} → M A) (db : Db)
      → Succeeds (k tt (f db))
      → Succeeds ((exec f >>= k) db)
  unfolding ◌>>=◌
  exec-Succeeds f k db s = s

pub exec_last-Succeeds : (f : Db → Db) (db : Db) → Succeeds (exec f db)
unfolding exec
exec_last-Succeeds f db = (tt, f db, refl)

pub refuse_last-Succeeds :
    (test : Bool) (e : Error) (db : Db) → test ≡ false → Succeeds (refuse test e db)
unfolding refuse
refuse_last-Succeeds true e db h = cc
refuse_last-Succeeds false e db h = (tt, db, refl)

module _ {A B : Type 0} where
  pub query-Succeeds :
      (f : Db → A) (k : A → M B) (db : Db) → Succeeds (k (f db) db) → Succeeds ((query f >>= k) db)
  unfolding ◌>>=◌
  query-Succeeds f k db s = s

  pub row-Succeeds :
      (f : Db → Option A) (e : Error) (k : A → M B) (db : Db) (a : A)
      → f db ≡ some a
      → Succeeds (k a db)
      → Succeeds ((query_row f e >>= k) db)
  unfolding ◌>>=◌
  row-Succeeds f e k db a q s = rw (q, ◌>>=◌, query_row) s

  pub require-Succeeds :
      (o : Option A) (e : Error) (k : A → M B) (db : Db) (a : A)
      → o ≡ some a
      → Succeeds (k a db)
      → Succeeds ((require o e >>= k) db)
  unfolding ◌>>=◌
  require-Succeeds none e k db a q s = cc
  require-Succeeds (some x) e k db a q s = rw (some_inj x a q) s
    where
      some_inj : (x a : A) → some x ≡ some a → x ≡ a
      some_inj x a q = cc

  pub bind-Succeeds :
      (m : M A) (k : A → M B) (db : Db) (s : Succeeds (m db))
      → Succeeds (k s.0 s.1)
      → Succeeds ((m >>= k) db)
  unfolding ◌>>=◌
  bind-Succeeds m k db s t = rw (s.2, ◌>>=◌) t
