-- ===== src/State/Log/Settings.antt =====
-- The operations of project.go, grant.go, fleet.go and device.go append to the log.
use hand.Base.{
  All-append, All-imp, All-select, Bool, Bool-cases, List, Option-cases, Text, [], arith, find, inl,
  inr, is_empty, not, refl, select, trim_space, ℕ, ◌+◌, ◌==◌, ◌∷◌, ◌≡◌, ◌≤◌,
}
use hand.State.Schema.{Db, Device}
use hand.State.Transactions.{
  Holds, exec-Holds, exec_last-Holds, pure-Holds, query-Holds, refuse-Holds, row-Holds,
}
use hand.State.Projects.{
  add_grant, add_new_grant, add_project, adopt_project, create_fleet, is_grant, remove_grant,
  rename_fleet, trust_project,
}
use hand.State.Devices.{
  add_device, append_revoked, delete_device, delete_phone, insert_device, is_phone, revoke_device,
  revoke_phone,
}
use hand.State.Log.{Sound, devices_Sound, emitted_Sound, write_Sound}

pub add_project-Sound :
    {before : Db} (clean stored : Text → Text) (name repo settings : Text) (now : ℕ) (db : Db)
    → Sound before db
    → Holds (λ _ db'. Sound before db') (add_project clean stored name repo settings now db)
unfolding add_project
add_project-Sound clean stored name repo settings now db c = refuse-Holds _ _ _ _ λ _.
    refuse-Holds _ _ _ _ λ _. query-Holds _ _ _ (
      refuse-Holds _ _ _ _ λ _.
        exec-Holds _ _ _
          (exec-Holds _ _ _ (pure-Holds _ _ (emitted_Sound (write_Sound c) _ _ _ _))))

pub adopt_project-Sound :
    {before : Db} (name settings : Text) (now : ℕ) (db : Db)
    → Sound before db
    → Holds (λ _ db'. Sound before db') (adopt_project name settings now db)
unfolding adopt_project
adopt_project-Sound name settings now db c = row-Holds _ _ _ _ λ p _.
    elim (Bool-cases (is_empty p.settings)) [
      | inl e ↦ rw e (
          exec-Holds _ _ _
            (exec-Holds _ _ _ (pure-Holds _ _ (emitted_Sound (write_Sound c) _ _ _ _))))
      | inr e ↦ rw e (pure-Holds _ _ c)
    ]

pub trust_project-Sound :
    {before : Db} (name settings : Text) (now : ℕ) (db : Db)
    → Sound before db
    → Holds (λ _ db'. Sound before db') (trust_project name settings now db)
unfolding trust_project
trust_project-Sound name settings now db c = refuse-Holds _ _ _ _ λ _. query-Holds _ _ _ (
    exec-Holds _ _ _
      (refuse-Holds _ _ _ _ λ _. exec_last-Holds _ _ (emitted_Sound (write_Sound c) _ _ _ _)))

add_new_grant-Sound :
    {before : Db} (project harness pattern : Text) (now : ℕ) (db : Db)
    → Sound before db
    → Holds (λ _ db'. Sound before db') (add_new_grant project harness pattern now db)
unfolding add_new_grant
add_new_grant-Sound project harness pattern now db c = query-Holds _ _ _ (
    refuse-Holds _ _ _ _ λ _. query-Holds _ _ _ (
      exec-Holds _ _ _ (exec-Holds _ _ _ (pure-Holds _ _ (emitted_Sound (write_Sound c) _ _ _ _)))))

pub add_grant-Sound :
    {before : Db} (project harness pattern : Text) (now : ℕ) (db : Db)
    → Sound before db
    → Holds (λ _ db'. Sound before db') (add_grant project harness pattern now db)
unfolding add_grant
add_grant-Sound project harness pattern now db c = refuse-Holds _ _ _ _ λ _.
    query-Holds _ _ _
      (elim (Option-cases (find (is_grant project harness (trim_space pattern)) db.grants)) [
        | inl e ↦ rw e (add_new_grant-Sound project harness (trim_space pattern) now db c)
        | inr (g, e) ↦ rw e (pure-Holds _ _ c)
      ])

pub remove_grant-Sound :
    {before : Db} (project : Text) (id now : ℕ) (db : Db)
    → Sound before db
    → Holds (λ _ db'. Sound before db') (remove_grant project id now db)
unfolding remove_grant
remove_grant-Sound project id now db c = row-Holds _ _ _ _ λ g _.
    exec-Holds _ _ _ (exec-Holds _ _ _ (pure-Holds _ _ (emitted_Sound (write_Sound c) _ _ _ _)))

pub create_fleet-Sound :
    {before : Db} (random_id home name : Text) (now : ℕ) (db : Db)
    → Sound before db
    → Holds (λ _ db'. Sound before db') (create_fleet random_id home name now db)
unfolding create_fleet
create_fleet-Sound random_id home name now db c = refuse-Holds _ _ _ _ λ _. query-Holds _ _ _ (
    refuse-Holds _ _ _ _ λ _.
      exec-Holds _ _ _ (exec-Holds _ _ _ (pure-Holds _ _ (emitted_Sound (write_Sound c) _ _ _ _))))

pub rename_fleet-Sound :
    {before : Db} (name : Text) (now : ℕ) (db : Db)
    → Sound before db
    → Holds (λ _ db'. Sound before db') (rename_fleet name now db)
unfolding rename_fleet
rename_fleet-Sound name now db c = refuse-Holds _ _ _ _ λ _. row-Holds _ _ _ _ λ f _.
    exec-Holds _ _ _ (exec-Holds _ _ _ (pure-Holds _ _ (emitted_Sound (write_Sound c) _ _ _ _)))

inserted_Sound :
    {before db : Db} (d : Device)
    → Sound before db
    → d.id ≡ db.device_seq + 1
    → Sound before (insert_device d db)
unfolding insert_device
inserted_Sound {before} {db} d c e = devices_Sound c (omega arith) (
    All-append (λ (x : Device). x.id ≤ db.device_seq + 1) db.devices (d ∷ [])
      (All-imp (λ (x : Device). x.id ≤ db.device_seq) (λ (x : Device). x.id ≤ db.device_seq + 1)
        db.devices (λ x h. omega arith) c.bounded)
      (omega (arith, e), tt))

-- What stands in delete_device and delete_phone.
selected_Sound :
    {before db : Db} (keep : Device → Bool)
    → Sound before db
    → Sound before (record db { devices = select keep db.devices })
selected_Sound {before} {db} keep c =
    devices_Sound c (omega arith)
      (All-select (λ (d : Device). d.id ≤ db.device_seq) keep db.devices c.bounded)

pub add_device-Sound :
    {before : Db} (name login secret_hash phone : Text) (now : ℕ) (db : Db)
    → Sound before db
    → Holds (λ _ db'. Sound before db') (add_device name login secret_hash phone now db)
unfolding add_device
add_device-Sound name login secret_hash phone now db c = refuse-Holds _ _ _ _ λ _.
    refuse-Holds _ _ _ _ λ _. query-Holds _ _ _ (
      exec-Holds _ _ _
        (exec-Holds _ _ _ (pure-Holds _ _ (emitted_Sound (inserted_Sound _ c refl) _ _ _ _))))

pub revoke_device-Sound :
    {before : Db} (id now : ℕ) (db : Db)
    → Sound before db
    → Holds (λ _ db'. Sound before db') (revoke_device id now db)
unfolding revoke_device delete_device
revoke_device-Sound id now db c = row-Holds _ _ _ _ λ d _. exec-Holds _ _ _ (
    exec-Holds _ _ _ (
      pure-Holds _ _
        (emitted_Sound (selected_Sound {db = db} (λ (x : Device). not (x.id == id)) c) _ _ _ _)))

append_revoked-Sound :
    {before : Db} (now : ℕ) (ds : List Device) (db : Db)
    → Sound before db
    → Sound before (append_revoked now ds db)
unfolding append_revoked
append_revoked-Sound now [] db c = c
append_revoked-Sound now (d ∷ ds) db c = append_revoked-Sound now ds _ (emitted_Sound c _ _ _ _)

pub revoke_phone-Sound :
    {before : Db} (label : Text) (now : ℕ) (db : Db)
    → Sound before db
    → Holds (λ _ db'. Sound before db') (revoke_phone label now db)
unfolding revoke_phone delete_phone
revoke_phone-Sound label now db c = refuse-Holds _ _ _ _ λ _. query-Holds _ _ _ (
    exec-Holds _ _ _ (
      exec-Holds _ _ _ (
        pure-Holds _ _ (
          append_revoked-Sound now (select (is_phone label) db.devices) (delete_phone label db)
            (selected_Sound {db = db} (λ (x : Device). not (is_phone label x)) c)))))
