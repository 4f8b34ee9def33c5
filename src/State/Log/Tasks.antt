-- ===== src/State/Log/Tasks.antt =====
-- The operations of task.go and the notes of event.go append to the log.
use hand.Base.{
  Bool, Bool-cases, List, Text, [], codes, exists_where, inl, inr, map, refl, select, ℕ, ◌++◌, ◌∷◌,
  ◌≡◌,
}
use hand.State.Schema.{Db, Decision, TaskStatus, Timer}
use hand.State.Transactions.{
  Holds, bind-Holds, exec-Holds, exec_last-Holds, pure-Holds, query-Holds, refuse-Holds,
  refuse_last-Holds, require-Holds, row-Holds,
}
use hand.State.Events.{append_closed, append_event, gc_removed, inbox_pruned, note_luvus}
use hand.State.Statuses.{is_finished, task_status_text}
use hand.State.Tasks.{
  add_task, append_delivered, apply_transition, cancel_timers, cancel_where, check_transition,
  deliver, deliver_refs, is_armed_of, is_delivery, is_open_of, set_task_status, transition,
  withdraw_open,
}
use hand.State.Log.{Sound, emitted_Sound, write_Sound}

pub add_task-Sound :
    {before : Db} (project title goal : Text) (now : ℕ) (db : Db)
    → Sound before db
    → Holds (λ _ db'. Sound before db') (add_task project title goal now db)
unfolding add_task
add_task-Sound project title goal now db l = refuse-Holds _ _ _ _ λ _. row-Holds _ _ _ _ λ _ _.
    query-Holds _ _ _
      (exec-Holds _ _ _ (exec-Holds _ _ _ (pure-Holds _ _ (emitted_Sound (write_Sound l) _ _ _ _))))

pub append_closed-Sound :
    {before : Db} (task_id now : ℕ) (kind : Text) (ref : ℕ → Text) (ids : List ℕ) (db : Db)
    → Sound before db
    → Sound before (append_closed task_id now kind ref ids db)
unfolding append_closed
append_closed-Sound task_id now kind ref [] db l = l
append_closed-Sound task_id now kind ref (id ∷ ids) db l =
    append_closed-Sound task_id now kind ref ids _ (emitted_Sound l now kind task_id (ref id))

append_delivered-Sound :
    {before : Db} (id now : ℕ) (refs : List Text) (db : Db)
    → Sound before db
    → Sound before (append_delivered id now refs db)
unfolding append_delivered
append_delivered-Sound id now [] db l = l
append_delivered-Sound id now (ref ∷ refs) db l =
    append_delivered-Sound id now refs _ (emitted_Sound l now (codes "task.delivered") id ref)

withdraw_open-Sound :
    {before : Db} (task_id now : ℕ) (db : Db)
    → Sound before db
    → Sound before (withdraw_open task_id now db)
unfolding withdraw_open
withdraw_open-Sound task_id now db l =
    append_closed-Sound task_id now _ _
      (map (λ (d : Decision). d.id) (select (is_open_of task_id) db.decisions)) _ (write_Sound l)

pub cancel_where-Sound :
    {before : Db} (p : Timer → Bool) (task_id now : ℕ) (db : Db)
    → Sound before db
    → Sound before (cancel_where p task_id now db)
unfolding cancel_where
cancel_where-Sound p task_id now db l =
    append_closed-Sound task_id now _ _ (map (λ (t : Timer). t.id) (select p db.timers)) _
      (write_Sound l)

apply_transition-Sound :
    {before : Db} (id : ℕ) (from to : TaskStatus) (delivered : List Text) (now : ℕ) (db : Db)
    → Sound before db
    → Sound before (apply_transition id from to delivered now db)
unfolding apply_transition cancel_timers
apply_transition-Sound {before} id from to delivered now db l =
    let kind = codes "task." ++ task_status_text to in
    let detail = task_status_text from ++ codes "->" ++ task_status_text to in
    let moved = append_event now kind id detail (set_task_status id from to now db) in
    let announced : Sound before (append_delivered id now delivered moved) =
      append_delivered-Sound id now delivered moved
        (emitted_Sound (write_Sound l) now kind id detail) in
    elim (Bool-cases (is_finished to)) [
      | inl fin ↦
          rw fin
            (cancel_where-Sound (is_armed_of id) id now _ (withdraw_open-Sound id now _ announced))
      | inr unfinished ↦ rw unfinished announced
    ]

check_transition-keeps :
    (id : ℕ) (from to : TaskStatus) (db : Db)
    → Holds (λ _ db'. db' ≡ db) (check_transition id from to db)
unfolding check_transition
check_transition-keeps id from to db = refuse-Holds _ _ _ _ λ _.
    query-Holds _ _ _
      (refuse-Holds _ _ _ _ λ _. query-Holds _ _ _ (refuse_last-Holds _ _ _ λ _. refl))

pub transition-Sound :
    {before : Db} (id : ℕ) (to : Text) (delivered : List Text) (now : ℕ) (db : Db)
    → Sound before db
    → Holds (λ _ db'. Sound before db') (transition id to delivered now db)
unfolding transition
transition-Sound id to delivered now db l = require-Holds _ _ _ _ λ s _. refuse-Holds _ _ _ _ λ _.
    row-Holds _ _ _ _ λ t _. bind-Holds _ _ _ _ (check_transition-keeps id t.status s db) λ _ db' e.
      query-Holds _ _ _ (
        refuse-Holds _ _ _ _ λ _.
          exec-Holds _ _ _
            (pure-Holds _ _ (rw e (apply_transition-Sound id t.status s delivered now db l))))

deliver_refs-Sound :
    {before : Db} (id now : ℕ) (refs : List Text) (db : Db)
    → Sound before db
    → Holds (λ _ db'. Sound before db') (deliver_refs id now refs db)
unfolding deliver_refs
deliver_refs-Sound id now [] db l = pure-Holds _ _ l
deliver_refs-Sound id now (ref ∷ refs) db l =
    query-Holds _ _ _ (elim (Bool-cases (exists_where (is_delivery id ref) db.events)) [
      | inl e ↦ rw e (deliver_refs-Sound id now refs db l)
      | inr e ↦ rw e (
          exec-Holds _ _ _ (
            bind-Holds _ _ _ _
              (deliver_refs-Sound id now refs _
                (emitted_Sound l now (codes "task.delivered") id ref))
              λ added db' h. pure-Holds _ _ h))
    ])

pub deliver-Sound :
    {before : Db} (id : ℕ) (refs : List Text) (now : ℕ) (db : Db)
    → Sound before db
    → Holds (λ _ db'. Sound before db') (deliver id refs now db)
unfolding deliver
deliver-Sound id refs now db l = row-Holds _ _ _ _ λ t _.
    refuse-Holds _ _ _ _
      λ _. bind-Holds _ _ _ _ (deliver_refs-Sound id now refs db l) λ added db' h. pure-Holds _ _ h

pub note_luvus-Sound :
    {before : Db} (now : ℕ) (kind detail : Text) (db : Db)
    → Sound before db
    → Holds (λ _ db'. Sound before db') (note_luvus now kind detail db)
unfolding note_luvus
note_luvus-Sound now kind detail db l = exec_last-Holds _ _ (emitted_Sound l now _ 0 detail)

pub inbox_pruned-Sound :
    {before : Db} (now : ℕ) (detail : Text) (db : Db)
    → Sound before db
    → Holds (λ _ db'. Sound before db') (inbox_pruned now detail db)
unfolding inbox_pruned
inbox_pruned-Sound now detail db l = exec_last-Holds _ _ (emitted_Sound l now _ 0 detail)

pub gc_removed-Sound :
    {before : Db} (now : ℕ) (detail : Text) (db : Db)
    → Sound before db
    → Holds (λ _ db'. Sound before db') (gc_removed now detail db)
unfolding gc_removed
gc_removed-Sound now detail db l = exec_last-Holds _ _ (emitted_Sound l now _ 0 detail)
