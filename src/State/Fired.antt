-- ===== src/State/Fired.antt =====
-- internal/state/timer.go: what FireTimers does to every timer.
use hand.Base.{
  All, All-imp, All-imp₂, Bool, Bool-cases, List, UniqueKeys, [], ap, arith, exists_where, false,
  if◌then◌else◌, inl, inr, ltb, ltb→lt, refl, select, some, subst, sym, true, update_where, ℕ, ◌*◌,
  ◌+◌, ◌<◌, ◌==◌, ◌∙◌, ◌∷◌, ◌≡◌, ◌≢◌, ◌≤◌, ◌⊎◌,
}
use hand.State.Schema.{Db, Timer, TimerStatus}
use hand.State.Transactions.{Holds, bind-Holds, exec-Holds, pure-Holds, query-Holds}
use hand.State.Transactions.Success.{Succeeds, held}
use hand.State.Statuses.{is_armed}
use hand.State.Clock.{second}
use hand.State.Timers.{
  armed_timers, fire_all, fire_one, fire_row, fire_timers, is_due, next_due, sort_by_due,
}
use hand.State.Firing.{
  due_found, fire_row-id, fire_timers-Succeeds, fire_timers-none_due, has_key, insert_by_due-All,
  is_armed_due, none_due,
}

-- The rows of two tables, pair by pair.
abbrev pub Pairs : (Timer → Timer → Type 0) → List Timer → List Timer → Type 0
Pairs R [] [] = Unit {0}
Pairs R (u ∷ us) (v ∷ vs) = R u v × Pairs R us vs
Pairs R us vs = ⊥

-- What becomes of a timer: one that is not armed and due is left alone; one that does not repeat has
-- fired; one that repeats is due again, later than now and within one period.
abbrev pub Fired : ℕ → Timer → Timer → Type 0
Fired now u v =
    ((is_armed_due now u ≡ false) × (v ≡ u))
    ⊎ ((is_armed_due now u ≡ true)
        × (u.every ≡ 0)
        × (v ≡ record u { status = TimerStatus.fired; ended_at = some now }))
    ⊎ ((is_armed_due now u ≡ true)
        × (0 < u.every)
        × (v ≡ record u { due = v.due })
        × (now < v.due)
        × (v.due ≤ now + u.every * second))

-- The same while `ts` are still to be fired.
abbrev Stage : ℕ → List Timer → Timer → Timer → Type 0
Stage now ts u v =
    ((v ≡ fire_row now u u) × (is_armed_due now u ≡ true))
    ⊎ ((v ≡ u) × (is_armed_due now u ≡ true → has_key u.id ts ≡ true))

-- A timer is armed and due, and the only row with its key.
abbrev Genuine : ℕ → List Timer → Timer → Type 0
Genuine now rows t = (is_armed_due now t ≡ true) × All (λ (u : Timer). u.id ≡ t.id → u ≡ t) rows

fire_row_again : (now : ℕ) (t : Timer) → fire_row now t (fire_row now t t) ≡ fire_row now t t
unfolding fire_row
fire_row_again now t = elim (Bool-cases (ltb 0 t.every)) [ inl e ↦ rw e refl | inr e ↦ rw e refl ]

fire_row-Stage :
    (now : ℕ) (t : Timer) (ts : List Timer) (u v : Timer)
    → is_armed_due now t ≡ true
    → (u.id ≡ t.id → u ≡ t)
    → Stage now (t ∷ ts) u v
    → Stage now ts u (if v.id == t.id then fire_row now t v else v)
fire_row-Stage now t ts u v due only (inl (e, d)) = elim (Bool-cases (v.id == t.id)) [
  | inl hit ↦ rw hit (inl (again (only (named hit)), d))
  | inr miss ↦ rw miss (inl (e, d))
]
  where
    named : (v.id == t.id) ≡ true → u.id ≡ t.id
    named hit =
        let kept : v.id ≡ u.id = ap (λ (x : Timer). x.id) e ∙ fire_row-id now u u in ground arith

    again : u ≡ t → fire_row now t v ≡ fire_row now u u
    again same =
        ap (fire_row now t) e
        ∙ subst (λ (x : Timer). fire_row now t (fire_row now x x) ≡ fire_row now x x) (sym same)
            (fire_row_again now t)
fire_row-Stage now t ts u v due only (inr (e, k)) =
    let kept : v.id ≡ u.id = ap (λ (x : Timer). x.id) e in
    elim (Bool-cases (v.id == t.id)) [
      | inl hit ↦
          let same : u ≡ t = only (ground arith) in
          rw hit (
            inl (
              ap (fire_row now t) e ∙ ap (λ (x : Timer). fire_row now x u) (sym same),
              subst (λ (x : Timer). is_armed_due now x ≡ true) (sym same) due,
            ))
      | inr miss ↦ rw miss (inr (e, λ d. later (k d) (ground arith)))
    ]
  where
    later : has_key u.id (t ∷ ts) ≡ true → (t.id == u.id) ≡ false → has_key u.id ts ≡ true
    later h e = rw e at h

update-Stage :
    (now : ℕ) (t : Timer) (ts us vs : List Timer)
    → is_armed_due now t ≡ true
    → All (λ (u : Timer). u.id ≡ t.id → u ≡ t) us
    → Pairs (Stage now (t ∷ ts)) us vs
    → Pairs (Stage now ts) us (update_where (λ (x : Timer). x.id == t.id) (fire_row now t) vs)
update-Stage now t ts [] [] due only s = tt
update-Stage now t ts [] (v ∷ vs) due only s = elim s [ ]
update-Stage now t ts (u ∷ us) [] due only s = elim s [ ]
update-Stage now t ts (u ∷ us) (v ∷ vs) due only s =
    (fire_row-Stage now t ts u v due only.0 s.0, update-Stage now t ts us vs due only.1 s.1)

fire_all-Stage :
    (now : ℕ) (rows ts : List Timer) (db : Db)
    → All (Genuine now rows) ts
    → Pairs (Stage now ts) rows db.timers
    → Holds (λ _ db'. Pairs (Stage now []) rows db'.timers) (fire_all now ts db)
unfolding fire_all
fire_all-Stage now rows [] db g s = pure-Holds _ _ s
fire_all-Stage now rows (t ∷ ts) db g s = exec-Holds _ _ _ (
    bind-Holds _ _ _ _
      (fire_all-Stage now rows ts (fire_one now t db) g.1
        (update-Stage now t ts rows db.timers g.0.0 g.0.1 s))
      λ fired db' k. pure-Holds _ _ k)

Pairs-self :
    (R : Timer → Timer → Type 0) (P : Timer → Type 0) (us : List Timer)
    → ((u : Timer) → P u → R u u)
    → All P us
    → Pairs R us us
Pairs-self R P [] f h = tt
Pairs-self R P (u ∷ us) f h = (f u h.0, Pairs-self R P us f h.1)

Pairs-imp :
    (R S : Timer → Timer → Type 0) (us vs : List Timer)
    → ((u v : Timer) → R u v → S u v)
    → Pairs R us vs
    → Pairs S us vs
Pairs-imp R S [] [] f h = tt
Pairs-imp R S [] (v ∷ vs) f h = elim h [ ]
Pairs-imp R S (u ∷ us) [] f h = elim h [ ]
Pairs-imp R S (u ∷ us) (v ∷ vs) f h = (f u v h.0, Pairs-imp R S us vs f h.1)

sort_by_due-All : (P : Timer → Type 0) (ts : List Timer) → All P ts → All P (sort_by_due ts)
unfolding sort_by_due
sort_by_due-All P [] h = tt
sort_by_due-All P (t ∷ ts) h = insert_by_due-All P t (sort_by_due ts) h.0 (sort_by_due-All P ts h.1)

select-All :
    (P : Timer → Type 0) (p : Timer → Bool) (ts : List Timer)
    → All P ts
    → All (λ t. (p t ≡ true) × P t) (select p ts)
select-All P p [] h = tt
select-All P p (t ∷ ts) h = elim (Bool-cases (p t)) [
  | inl e ↦ rw e ((e, h.0), select-All P p ts h.1)
  | inr e ↦ rw e (select-All P p ts h.1)
]

only_rows :
    (rows : List Timer)
    → UniqueKeys (λ (t : Timer). t.id) rows
    → All (λ (t : Timer). All (λ (u : Timer). u.id ≡ t.id → u ≡ t) rows) rows
only_rows [] k = tt
only_rows (x ∷ xs) k = (
  (
    λ e. refl,
    All-imp (λ (u : Timer). u.id ≢ x.id) (λ (u : Timer). u.id ≡ x.id → u ≡ x) xs
        (λ u ne e. absurd (ne e)) k.0,
  ),
  All-imp₂ (λ (t : Timer). t.id ≢ x.id) (λ (t : Timer). All (λ (u : Timer). u.id ≡ t.id → u ≡ t) xs)
      (λ (t : Timer). All (λ (u : Timer). u.id ≡ t.id → u ≡ t) (x ∷ xs)) xs
      (λ t ne h. ((λ e. absurd (ne (sym e))), h)) k.0 (only_rows xs k.1),
)

due-Genuine :
    (now : ℕ) (db : Db)
    → UniqueKeys (λ (t : Timer). t.id) db.timers
    → All (Genuine now db.timers) (select (is_due now) (armed_timers db))
unfolding armed_timers
due-Genuine now db k =
    let P : Timer → Type 0 = λ t. All (λ (u : Timer). u.id ≡ t.id → u ≡ t) db.timers in
    let armed = select-All P (λ (t : Timer). is_armed t.status) db.timers (only_rows db.timers k) in
    let sorted = sort_by_due-All (λ t. (is_armed t.status ≡ true) × P t) _ armed in
    All-imp (λ t. (is_due now t ≡ true) × ((is_armed t.status ≡ true) × P t))
      (Genuine now db.timers) _ (λ t h. (rw (h.1.0, h.0) refl, h.1.1))
      (select-All (λ t. (is_armed t.status ≡ true) × P t) (is_due now) _ sorted)

-- The next due time is later than now, and within one period.
next_due-bounds :
    (now : ℕ) (u : Timer)
    → u.due ≤ now
    → 0 < u.every
    → (now < next_due now u) × (next_due now u ≤ now + u.every * second)
next_due-bounds now u due repeats = (ground arith, ground arith)

due_by : (now : ℕ) (u : Timer) → is_armed_due now u ≡ true → u.due ≤ now
due_by now u h = ground arith

Stage-Fired : (now : ℕ) (u v : Timer) → Stage now [] u v → Fired now u v
unfolding fire_row
Stage-Fired now u v (inl (e, d)) = elim (Bool-cases (ltb 0 u.every)) [
  | inl q ↦
      let moved : v ≡ record u { due = next_due now u } = rw q at e in
      let at : v.due ≡ next_due now u = ap (λ (x : Timer). x.due) moved in
      let repeats : 0 < u.every = ltb→lt 0 u.every q in
      let (after, within) = next_due-bounds now u (due_by now u d) repeats in
      inr (
        inr
          (d, repeats, moved ∙ ap (λ n. record u { due = n }) (sym at), rw at after, rw at within))
  | inr q ↦ inr (inl (d, ground arith, rw q at e))
]
Stage-Fired now u v (inr (e, k)) = elim (Bool-cases (is_armed_due now u)) [
  | inl d ↦ absurd (differ (k d))
  | inr d ↦ inl (d, e)
]
  where
    differ : false ≡ true → ⊥
    differ e = cc

fire_timers-Stage :
    (now : ℕ) (db : Db)
    → UniqueKeys (λ (t : Timer). t.id) db.timers
    → Holds (λ _ db'. Pairs (Stage now []) db.timers db'.timers) (fire_timers now db)
unfolding fire_timers
fire_timers-Stage now db keys =
    query-Holds _ _ _ (elim (Bool-cases (exists_where (is_due now) (armed_timers db))) [
      | inl e ↦ rw e (
          fire_all-Stage now db.timers _ db (due-Genuine now db keys) (
            Pairs-self (Stage now (select (is_due now) (armed_timers db)))
              (λ (u : Timer).
                is_armed_due now u ≡ true
                → has_key u.id (select (is_due now) (armed_timers db)) ≡ true)
              db.timers (λ u h. inr (refl, h)) (due_found now db)))
      | inr e ↦ rw e (
          pure-Holds _ _ (
            Pairs-self (Stage now []) (λ (u : Timer). is_armed_due now u ≡ false) db.timers
              (λ u h. inr (refl, λ d. sym h ∙ d)) (none_due now db e)))
    ])

-- FireTimers succeeds and leaves no armed timer that is due. With keys of their own, as the table's
-- primary key has it, the rows stay in place: one that was not armed and due is left alone; one that
-- does not repeat has fired, now; and one that repeats is armed still and has changed in its due
-- time alone, which is later than now and no later than one period from now.
pub fire_timers_settles :
    (now : ℕ) (db : Db)
    → UniqueKeys (λ (t : Timer). t.id) db.timers
    → (s : Succeeds (fire_timers now db)) × All
        (λ (u : Timer). is_armed_due now u ≡ false)
        s.1.timers
      × Pairs (Fired now) db.timers s.1.timers
fire_timers_settles now db keys =
    let s = fire_timers-Succeeds now db in
    (
      s,
      held _ (fire_timers-none_due now db) s,
      Pairs-imp (Stage now []) (Fired now) _ _ (Stage-Fired now)
          (held _ (fire_timers-Stage now db keys) s),
    )
