-- ===== src/State/Firing.antt =====
-- internal/state/timer.go: the order of the armed timers, and what FireTimers leaves.
use hand.Base.{
  All, All-imp, All-update, Bool, Bool-cases, List, [], ap, arith, count_where, count_where-none,
  exists_where, exists_where-false, false, inl, inr, leb, leb→le, ltb, lt→ltb, refl, select, sym,
  true, ℕ, ◌&&◌, ◌<◌, ◌==◌, ◌∙◌, ◌∷◌, ◌≡◌, ◌≤◌,
}
use hand.State.Schema.{Db, Timer}
use hand.State.Transactions.{Holds, bind-Holds, exec-Holds, imp-Holds, pure-Holds, query-Holds}
use hand.State.Transactions.Success.{
  Succeeds, bind-Succeeds, exec-Succeeds, pure-Succeeds, query-Succeeds,
}
use hand.State.Statuses.{is_armed}
use hand.State.Events.{append_event}
use hand.State.Timers.{
  armed_timers, fire_all, fire_one, fire_row, fire_timers, insert_by_due, is_due, sort_by_due,
}

-- Each timer is due no later than all that stand behind it.
abbrev pub SortedByDue : List Timer → Type 0
SortedByDue [] = Unit {0}
SortedByDue (t ∷ ts) = All (λ (u : Timer). t.due ≤ u.due) ts × SortedByDue ts

pub insert_by_due-All :
    (P : Timer → Type 0) (t : Timer) (ts : List Timer) → P t → All P ts → All P (insert_by_due t ts)
unfolding insert_by_due
insert_by_due-All P t [] p h = (p, tt)
insert_by_due-All P t (u ∷ us) p h = elim (Bool-cases (leb t.due u.due)) [
  | inl e ↦ rw e (p, h)
  | inr e ↦ rw e (h.0, insert_by_due-All P t us p h.1)
]

insert_by_due-SortedByDue :
    (t : Timer) (ts : List Timer) → SortedByDue ts → SortedByDue (insert_by_due t ts)
unfolding insert_by_due
insert_by_due-SortedByDue t [] s = (tt, tt)
insert_by_due-SortedByDue t (u ∷ us) s = elim (Bool-cases (leb t.due u.due)) [
  | inl e ↦ rw e (
    let first : t.due ≤ u.due = leb→le t.due u.due e in
        (
          first,
          All-imp (λ (x : Timer). u.due ≤ x.due) (λ (x : Timer). t.due ≤ x.due) us
              (λ x h. omega arith) s.0,
        ),
    s,
  )
  | inr e ↦ rw e (
    insert_by_due-All (λ (x : Timer). u.due ≤ x.due) t us (ground arith) s.0,
    insert_by_due-SortedByDue t us s.1,
  )
]

sort_by_due-SortedByDue : (ts : List Timer) → SortedByDue (sort_by_due ts)
unfolding sort_by_due
sort_by_due-SortedByDue [] = tt
sort_by_due-SortedByDue (t ∷ ts) =
    insert_by_due-SortedByDue t (sort_by_due ts) (sort_by_due-SortedByDue ts)

insert_by_due-count :
    (p : Timer → Bool) (t : Timer) (ts : List Timer)
    → count_where p (insert_by_due t ts) ≡ count_where p (t ∷ ts)
unfolding insert_by_due
insert_by_due-count p t [] = refl
insert_by_due-count p t (u ∷ us) = elim (Bool-cases (leb t.due u.due)) [
  | inl e ↦ rw e refl
  | inr e ↦ rw e (ground (arith, insert_by_due-count p t us))
]

sort_by_due-count :
    (p : Timer → Bool) (ts : List Timer) → count_where p (sort_by_due ts) ≡ count_where p ts
unfolding sort_by_due
sort_by_due-count p [] = refl
sort_by_due-count p (t ∷ ts) =
    ground (arith, insert_by_due-count p t (sort_by_due ts), sort_by_due-count p ts)

select-count :
    (p q : Timer → Bool) (ts : List Timer)
    → count_where p (select q ts) ≡ count_where (λ t. q t && p t) ts
select-count p q [] = refl
select-count p q (t ∷ ts) = ground (arith, select-count p q ts)

-- The armed timers that the store lists are in the order of their due times, and are those of the
-- table: of the rows that pass any test, the list has as many as there are armed ones in the table.
pub armed_timers-SortedByDue :
    (db : Db)
    → SortedByDue (armed_timers db)
      × ((p : Timer → Bool)
          → count_where p (armed_timers db)
            ≡ count_where (λ (t : Timer). is_armed t.status && p t) db.timers)
unfolding armed_timers
armed_timers-SortedByDue db = (
  sort_by_due-SortedByDue (select (λ (t : Timer). is_armed t.status) db.timers),
  λ p.
      sort_by_due-count p (select (λ (t : Timer). is_armed t.status) db.timers)
      ∙ select-count p (λ (t : Timer). is_armed t.status) db.timers,
)

abbrev pub has_key : ℕ → List Timer → Bool
has_key id ts = exists_where (λ (t : Timer). t.id == id) ts

abbrev pub is_armed_due : ℕ → Timer → Bool
is_armed_due now u = is_armed u.status && leb u.due now

-- Of the rows that are armed and due, each has its key among `ts`.
abbrev pub DueIn : ℕ → List Timer → List Timer → Type 0
DueIn now ts rows = All (λ (u : Timer). is_armed_due now u ≡ true → has_key u.id ts ≡ true) rows

-- A row that has fired is not due any more.
fire_row-not_due : (now : ℕ) (t u : Timer) → is_armed_due now (fire_row now t u) ≡ false
unfolding fire_row
fire_row-not_due now t u = ground arith

pub fire_row-id : (now : ℕ) (t u : Timer) → (fire_row now t u).id ≡ u.id
unfolding fire_row
fire_row-id now t u = ground arith

fire_one-DueIn :
    (now : ℕ) (t : Timer) (ts : List Timer) (db : Db)
    → DueIn now (t ∷ ts) db.timers
    → DueIn now ts (fire_one now t db).timers
unfolding fire_one append_event
fire_one-DueIn now t ts db h =
    All-update (λ (u : Timer). is_armed_due now u ≡ true → has_key u.id (t ∷ ts) ≡ true)
      (λ (u : Timer). is_armed_due now u ≡ true → has_key u.id ts ≡ true)
      (λ (u : Timer). u.id == t.id) (fire_row now t) db.timers
      (λ u k hit. λ due. absurd (ground (arith, fire_row-not_due now t u, due)))
      (λ u k miss. λ due. ground (arith, k due)) h

fire_all-DueIn :
    (now : ℕ) (ts : List Timer) (db : Db)
    → DueIn now ts db.timers
    → Holds (λ _ db'. DueIn now [] db'.timers) (fire_all now ts db)
unfolding fire_all
fire_all-DueIn now [] db h = pure-Holds _ _ h
fire_all-DueIn now (t ∷ ts) db h = exec-Holds _ _ _ (
    bind-Holds _ _ _ _ (fire_all-DueIn now ts (fire_one now t db) (fire_one-DueIn now t ts db h))
      λ fired db' k. pure-Holds _ _ k)

module _ {A : Type 0} where
  exists-count : (p : A → Bool) (xs : List A) → exists_where p xs ≡ ltb 0 (count_where p xs)
  exists-count p [] = refl
  exists-count p (x ∷ xs) = ground (arith, exists-count p xs)

  exists-select :
      (p q : A → Bool) (xs : List A)
      → exists_where p (select q xs) ≡ exists_where (λ x. q x && p x) xs
  exists-select p q [] = refl
  exists-select p q (x ∷ xs) = ground (arith, exists-select p q xs)

  -- A row that passes a test of its own is counted.
  counted : (q : A → A → Bool) (xs : List A) → All (λ u. q u u ≡ true → 0 < count_where (q u) xs) xs
  counted q [] = tt
  counted q (x ∷ xs) = (
    λ h. ground arith,
    All-imp (λ u. q u u ≡ true → 0 < count_where (q u) xs)
        (λ u. q u u ≡ true → 0 < count_where (q u) (x ∷ xs)) xs (λ u k h. ground (arith, k h))
        (counted q xs),
  )

  count-zero : (p : A → Bool) (xs : List A) → count_where p xs ≡ 0 → All (λ x. p x ≡ false) xs
  count-zero p [] e = tt
  count-zero p (x ∷ xs) e = (ground arith, count-zero p xs (ground arith))

-- The armed rows with a key, as FireTimers finds them, by what the table counts.
has_key-due :
    (now id : ℕ) (db : Db)
    → has_key id (select (is_due now) (armed_timers db))
      ≡ ltb 0
          (count_where (λ (t : Timer). is_armed t.status && (is_due now t && t.id == id)) db.timers)
has_key-due now id db =
    exists-select (λ (t : Timer). t.id == id) (is_due now) (armed_timers db)
    ∙ exists-count (λ (t : Timer). is_due now t && t.id == id) (armed_timers db)
    ∙ ap (ltb 0) ((armed_timers-SortedByDue db).1 (λ (t : Timer). is_due now t && t.id == id))

pub due_found : (now : ℕ) (db : Db) → DueIn now (select (is_due now) (armed_timers db)) db.timers
due_found now db =
    let q : Timer → Timer → Bool = λ u t. is_armed t.status && (is_due now t && t.id == u.id) in
    All-imp (λ u. q u u ≡ true → 0 < count_where (q u) db.timers)
      (λ (u : Timer).
        is_armed_due now u ≡ true → has_key u.id (select (is_due now) (armed_timers db)) ≡ true)
      db.timers
      (λ u k due.
        has_key-due now u.id db ∙ lt→ltb 0 (count_where (q u) db.timers) (k (ground arith)))
      (counted q db.timers)

pub none_due :
    (now : ℕ) (db : Db)
    → exists_where (is_due now) (armed_timers db) ≡ false
    → All (λ (u : Timer). is_armed_due now u ≡ false) db.timers
none_due now db e = count-zero (is_armed_due now) db.timers (
    sym ((armed_timers-SortedByDue db).1 (is_due now))
    ∙ count_where-none (is_due now) (armed_timers db)
        (exists_where-false (is_due now) (armed_timers db) e))

pub fire_timers-none_due :
    (now : ℕ) (db : Db)
    → Holds
        (λ _ db'. All (λ (u : Timer). is_armed_due now u ≡ false) db'.timers)
        (fire_timers now db)
unfolding fire_timers
fire_timers-none_due now db =
    query-Holds _ _ _ (elim (Bool-cases (exists_where (is_due now) (armed_timers db))) [
      | inl e ↦ rw e (
          imp-Holds (λ _ db'. DueIn now [] db'.timers)
            (λ _ db'. All (λ (u : Timer). is_armed_due now u ≡ false) db'.timers) _
            (λ _ db' h.
              All-imp (λ (u : Timer). is_armed_due now u ≡ true → has_key u.id [] ≡ true)
                (λ (u : Timer). is_armed_due now u ≡ false) db'.timers (λ u k. settle u k) h)
            (fire_all-DueIn now _ db (due_found now db)))
      | inr e ↦ rw e (pure-Holds _ _ (none_due now db e))
    ])
  where
    settle : (u : Timer) → (is_armed_due now u ≡ true → false ≡ true) → is_armed_due now u ≡ false
    settle u k = elim (Bool-cases (is_armed_due now u)) [
      | inl e ↦ absurd (ground (arith, k e))
      | inr e ↦ e
    ]

fire_all-Succeeds : (now : ℕ) (ts : List Timer) (db : Db) → Succeeds (fire_all now ts db)
unfolding fire_all
fire_all-Succeeds now [] db = pure-Succeeds _ _
fire_all-Succeeds now (t ∷ ts) db =
    exec-Succeeds _ _ _
      (bind-Succeeds _ _ _ (fire_all-Succeeds now ts (fire_one now t db)) (pure-Succeeds _ _))

pub fire_timers-Succeeds : (now : ℕ) (db : Db) → Succeeds (fire_timers now db)
unfolding fire_timers
fire_timers-Succeeds now db =
    query-Succeeds _ _ _ (elim (Bool-cases (exists_where (is_due now) (armed_timers db))) [
      | inl e ↦ rw e (fire_all-Succeeds now _ db)
      | inr e ↦ rw e (pure-Succeeds _ _)
    ])
