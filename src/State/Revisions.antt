-- ===== src/State/Revisions.antt =====
-- internal/state/plan.go: the plan that SetPlan stores is the plan that CurrentPlan reads.
use hand.Base.{
  ==_iff, ==_refl, All, All-imp, Bool, Bool-cases, List, Text, [], ap, arith, inl, inr, max_of,
  max_of-bounds, refl, select, some, sym, ℕ, ◌++◌, ◌+◌, ◌<◌, ◌==◌, ◌∷◌, ◌≡◌, ◌≢◌, ◌≤◌,
}
use hand.State.Schema.{Db, Plan}
use hand.State.Transactions.{Holds, bind-Holds, exec-Holds, pure-Holds, query-Holds, refuse-Holds}
use hand.State.Events.{append_event}
use hand.State.Decisions.{
  current_plan, insert_plan, is_plan_of, newest_plan, next_revision, set_plan,
}
use hand.State.Consistency.Decisions.{require_open_task-Holds}

-- A plan that comes last and has the largest revision is the newest.
newest_plan-append :
    (ps : List Plan) (p : Plan)
    → All (λ (q : Plan). q.revision < p.revision) ps
    → newest_plan (ps ++ p ∷ []) ≡ some p
unfolding newest_plan
newest_plan-append [] p h = refl
newest_plan-append (q ∷ ps) p h = rw (newest_plan-append ps p h.1) (ground (arith, h.0))

select-append :
    {A : Type 0} (p : A → Bool) (xs : List A) (y : A)
    → select p (xs ++ y ∷ []) ≡ select p xs ++ select p (y ∷ [])
select-append p [] y = refl
select-append p (x ∷ xs) y = elim (Bool-cases (p x)) [
  | inl e ↦ rw e (ap (λ t. x ∷ t) (select-append p xs y))
  | inr e ↦ rw e (select-append p xs y)
]

older :
    (task_id : ℕ) (db : Db)
    → All
        (λ (q : Plan). q.revision < next_revision task_id db)
        (select (is_plan_of task_id) db.plans)
unfolding next_revision
older task_id db =
    let ps = select (is_plan_of task_id) db.plans in
    All-imp (λ (q : Plan). q.revision ≤ max_of (λ (p : Plan). p.revision) ps)
      (λ (q : Plan). q.revision < max_of (λ (p : Plan). p.revision) ps + 1) ps (λ q h. omega arith)
      (max_of-bounds (λ (p : Plan). p.revision) ps)

-- After SetPlan the current plan of the task is the one that it returned, its body is the text that
-- was given, and its revision is past that of every plan that the task had; the current plan of
-- every other task is what it was.
pub set_plan-current :
    (task_id : ℕ) (text : Text) (now : ℕ) (db : Db)
    → Holds
        (λ p db'.
          (current_plan task_id db' ≡ some p)
          × (p.body ≡ text)
          × All (λ (q : Plan). q.revision < p.revision) (select (is_plan_of task_id) db.plans)
          × ((k : ℕ) → k ≢ task_id → current_plan k db' ≡ current_plan k db))
        (set_plan task_id text now db)
unfolding set_plan current_plan insert_plan append_event
set_plan-current task_id text now db = refuse-Holds _ _ _ _ λ _.
    bind-Holds _ _ _ _ (require_open_task-Holds task_id db) λ _ db' h. rw h.0 (
      query-Holds _ _ _ (
        exec-Holds _ _ _ (
          exec-Holds _ _ _ (
            pure-Holds _ _ (
              let p : Plan = record {
                task_id = task_id;
                revision = next_revision task_id db;
                body = text;
                created_at = now;
              } in
              (
                rw (select-append (is_plan_of task_id) db.plans p, ==_refl task_id)
                    (newest_plan-append (select (is_plan_of task_id) db.plans) p
                      (older task_id db)),
                refl,
                older task_id db,
                λ k differs.
                    rw (select-append (is_plan_of k) db.plans p)
                      (ap newest_plan (dropped k p (λ e. differs (sym e)))),
              ))))))
  where
    append_nil : (ps : List Plan) → ps ++ [] ≡ ps
    append_nil [] = refl
    append_nil (q ∷ ps) = ap (λ t. q ∷ t) (append_nil ps)

    dropped :
        (k : ℕ) (p : Plan)
        → p.task_id ≢ k
        → select (is_plan_of k) db.plans ++ select (is_plan_of k) (p ∷ [])
          ≡ select (is_plan_of k) db.plans
    dropped k p differs = elim (Bool-cases (p.task_id == k)) [
      | inl e ↦ absurd (differs ((==_iff p.task_id k).0 e))
      | inr e ↦ rw e (append_nil (select (is_plan_of k) db.plans))
    ]
