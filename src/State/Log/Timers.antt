-- ===== src/State/Log/Timers.antt =====
-- The operations of timer.go append to the log.
use hand.Base.{Bool-cases, List, [], exists_where, inl, inr, ℕ, ◌∷◌}
use hand.State.Schema.{Db, Timer}
use hand.State.Transactions.{
  Holds, bind-Holds, exec-Holds, pure-Holds, query-Holds, refuse-Holds, row-Holds,
}
use hand.State.Timers.{
  TimerSpec, add_timer, armed_timers, cancel_timer, fire_all, fire_one, fire_timers, is_due,
}
use hand.State.Log.{Sound, emitted_Sound, write_Sound}
use hand.State.Consistency.Timers.{require_unfinished-Holds}

pub add_timer-Sound :
    {before : Db} (spec : TimerSpec) (now at : ℕ) (db : Db)
    → Sound before db
    → Holds (λ _ db'. Sound before db') (add_timer spec now at db)
unfolding add_timer
add_timer-Sound spec now at db l = refuse-Holds _ _ _ _ λ _.
    bind-Holds _ _ _ _ (require_unfinished-Holds spec.task_id db) λ _ db' h. rw h.0 (
      query-Holds _ _ _ (
        refuse-Holds _ _ _ _ λ _. query-Holds _ _ _ (
          refuse-Holds _ _ _ _ λ room. query-Holds _ _ _ (
            exec-Holds _ _ _
              (exec-Holds _ _ _ (pure-Holds _ _ (emitted_Sound (write_Sound l) _ _ _ _)))))))

fire_one-Sound :
    {before : Db} (now : ℕ) (t : Timer) (db : Db)
    → Sound before db
    → Sound before (fire_one now t db)
unfolding fire_one
fire_one-Sound now t db l = emitted_Sound (write_Sound l) _ _ _ _

fire_all-Sound :
    {before : Db} (now : ℕ) (ts : List Timer) (db : Db)
    → Sound before db
    → Holds (λ _ db'. Sound before db') (fire_all now ts db)
unfolding fire_all
fire_all-Sound now [] db l = pure-Holds _ _ l
fire_all-Sound now (t ∷ ts) db l = exec-Holds _ _ _ (
    bind-Holds _ _ _ _ (fire_all-Sound now ts (fire_one now t db) (fire_one-Sound now t db l))
      λ fired db' h. pure-Holds _ _ h)

pub fire_timers-Sound :
    {before : Db} (now : ℕ) (db : Db)
    → Sound before db
    → Holds (λ _ db'. Sound before db') (fire_timers now db)
unfolding fire_timers
fire_timers-Sound now db l =
    query-Holds _ _ _ (elim (Bool-cases (exists_where (is_due now) (armed_timers db))) [
      | inl e ↦ rw e (fire_all-Sound now _ db l)
      | inr e ↦ rw e (pure-Holds _ _ l)
    ])

pub cancel_timer-Sound :
    {before : Db} (id at : ℕ) (db : Db)
    → Sound before db
    → Holds (λ _ db'. Sound before db') (cancel_timer id at db)
unfolding cancel_timer
cancel_timer-Sound id at db l = row-Holds _ _ _ _ λ t _. refuse-Holds _ _ _ _ λ _.
    exec-Holds _ _ _ (exec-Holds _ _ _ (pure-Holds _ _ (emitted_Sound (write_Sound l) _ _ _ _)))
