-- ===== src/State/Consistency/Settings.antt =====
-- The operations of project.go, grant.go, fleet.go and device.go write none of the tables that the invariant reads.
use hand.Base.{
  Bool-cases, List, Option-cases, Text, [], codes, find, inl, inr, is_empty, select, trim_space, ℕ,
  ◌∷◌,
}
use hand.State.Schema.{Db, Device}
use hand.State.Transactions.{
  Holds, exec-Holds, exec_last-Holds, pure-Holds, query-Holds, refuse-Holds, row-Holds,
}
use hand.State.Projects.{
  add_grant, add_new_grant, add_project, adopt_project, create_fleet, is_grant, remove_grant,
  rename_fleet, trust_project,
}
use hand.State.Devices.{
  add_device, append_revoked, delete_phone, device_detail, is_phone, revoke_device, revoke_phone,
}
use hand.State.Consistency.{SameCore, SameCore-refl, SameCore-trans}
use hand.State.Events.{append_event}
use hand.State.Consistency.Rest.{rest_SameCore}

pub add_project-SameCore :
    (clean stored : Text → Text) (name repo settings : Text) (now : ℕ) (db : Db)
    → Holds (λ _ db'. SameCore db db') (add_project clean stored name repo settings now db)
unfolding add_project
add_project-SameCore clean stored name repo settings now db = refuse-Holds _ _ _ _ λ _.
    refuse-Holds _ _ _ _ λ _.
      query-Holds _ _ _ (
        refuse-Holds _ _ _ _
          λ _. exec-Holds _ _ _ (exec-Holds _ _ _ (pure-Holds _ _ rest_SameCore)))

pub adopt_project-SameCore :
    (name settings : Text) (now : ℕ) (db : Db)
    → Holds (λ _ db'. SameCore db db') (adopt_project name settings now db)
unfolding adopt_project
adopt_project-SameCore name settings now db = row-Holds _ _ _ _ λ p _.
    elim (Bool-cases (is_empty p.settings)) [
      | inl e ↦ rw e (exec-Holds _ _ _ (exec-Holds _ _ _ (pure-Holds _ _ rest_SameCore)))
      | inr e ↦ rw e (pure-Holds _ _ (SameCore-refl db))
    ]

pub trust_project-SameCore :
    (name settings : Text) (now : ℕ) (db : Db)
    → Holds (λ _ db'. SameCore db db') (trust_project name settings now db)
unfolding trust_project
trust_project-SameCore name settings now db = refuse-Holds _ _ _ _ λ _.
    query-Holds _ _ _
      (exec-Holds _ _ _ (refuse-Holds _ _ _ _ λ _. exec_last-Holds _ _ rest_SameCore))

add_new_grant-SameCore :
    (project harness pattern : Text) (now : ℕ) (db : Db)
    → Holds (λ _ db'. SameCore db db') (add_new_grant project harness pattern now db)
unfolding add_new_grant
add_new_grant-SameCore project harness pattern now db = query-Holds _ _ _ (
    refuse-Holds _ _ _ _
      λ _. query-Holds _ _ _ (exec-Holds _ _ _ (exec-Holds _ _ _ (pure-Holds _ _ rest_SameCore))))

pub add_grant-SameCore :
    (project harness pattern : Text) (now : ℕ) (db : Db)
    → Holds (λ _ db'. SameCore db db') (add_grant project harness pattern now db)
unfolding add_grant
add_grant-SameCore project harness pattern now db = refuse-Holds _ _ _ _ λ _.
    query-Holds _ _ _
      (elim (Option-cases (find (is_grant project harness (trim_space pattern)) db.grants)) [
        | inl e ↦ rw e (add_new_grant-SameCore project harness (trim_space pattern) now db)
        | inr (g, e) ↦ rw e (pure-Holds _ _ (SameCore-refl db))
      ])

pub remove_grant-SameCore :
    (project : Text) (id now : ℕ) (db : Db)
    → Holds (λ _ db'. SameCore db db') (remove_grant project id now db)
unfolding remove_grant
remove_grant-SameCore project id now db =
    row-Holds _ _ _ _ λ g _. exec-Holds _ _ _ (exec-Holds _ _ _ (pure-Holds _ _ rest_SameCore))

pub create_fleet-SameCore :
    (random_id home name : Text) (now : ℕ) (db : Db)
    → Holds (λ _ db'. SameCore db db') (create_fleet random_id home name now db)
unfolding create_fleet
create_fleet-SameCore random_id home name now db = refuse-Holds _ _ _ _ λ _.
    query-Holds _ _ _
      (refuse-Holds _ _ _ _ λ _. exec-Holds _ _ _ (exec-Holds _ _ _ (pure-Holds _ _ rest_SameCore)))

pub rename_fleet-SameCore :
    (name : Text) (now : ℕ) (db : Db) → Holds (λ _ db'. SameCore db db') (rename_fleet name now db)
unfolding rename_fleet
rename_fleet-SameCore name now db =
    refuse-Holds _ _ _ _ λ _.
      row-Holds _ _ _ _ λ f _. exec-Holds _ _ _ (exec-Holds _ _ _ (pure-Holds _ _ rest_SameCore))

pub add_device-SameCore :
    (name login secret_hash phone : Text) (now : ℕ) (db : Db)
    → Holds (λ _ db'. SameCore db db') (add_device name login secret_hash phone now db)
unfolding add_device
add_device-SameCore name login secret_hash phone now db = refuse-Holds _ _ _ _ λ _.
    refuse-Holds _ _ _ _
      λ _. query-Holds _ _ _ (exec-Holds _ _ _ (exec-Holds _ _ _ (pure-Holds _ _ rest_SameCore)))

pub revoke_device-SameCore :
    (id now : ℕ) (db : Db) → Holds (λ _ db'. SameCore db db') (revoke_device id now db)
unfolding revoke_device
revoke_device-SameCore id now db =
    row-Holds _ _ _ _ λ d _. exec-Holds _ _ _ (exec-Holds _ _ _ (pure-Holds _ _ rest_SameCore))

append_revoked-SameCore :
    (now : ℕ) (ds : List Device) (db : Db) → SameCore db (append_revoked now ds db)
unfolding append_revoked
append_revoked-SameCore now [] db = SameCore-refl db
append_revoked-SameCore now (d ∷ ds) db =
    let revoked = append_event now (codes "board.revoked") 0 (device_detail d) db in
    SameCore-trans {b = revoked} rest_SameCore (append_revoked-SameCore now ds revoked)

pub revoke_phone-SameCore :
    (label : Text) (now : ℕ) (db : Db)
    → Holds (λ _ db'. SameCore db db') (revoke_phone label now db)
unfolding revoke_phone
revoke_phone-SameCore label now db = refuse-Holds _ _ _ _ λ _. query-Holds _ _ _ (
    exec-Holds _ _ _ (
      exec-Holds _ _ _ (
        pure-Holds _ _ (
          SameCore-trans {b = delete_phone label db} rest_SameCore (
            append_revoked-SameCore now (select (is_phone label) db.devices)
              (delete_phone label db))))))
