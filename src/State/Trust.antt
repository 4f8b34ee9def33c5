-- ===== src/State/Trust.antt =====
-- internal/state/project.go and device.go: settings that are recorded are not overwritten unasked,
-- and a phone that was revoked is let in no more.
use hand.Base.{
  ==_refl, All, All-imp, Bool, Bool-cases, List, Result, Text, [], ap, arith, false, find,
  find-append_none, find-update, inl, inr, is_empty, not, refl, select, some, subst, sym, text_eq,
  text_eq_refl, true, ℕ, ◌+◌, ◌<◌, ◌==◌, ◌∙◌, ◌∷◌, ◌≡◌, ◌≤◌,
}
use hand.State.Schema.{Db, Device, Project}
use hand.State.Transactions.{
  Holds, exec-Holds, imp-Holds, pure-Holds, query-Holds, refuse-Holds, row-Holds,
}
use hand.State.Events.{append_event}
use hand.State.Calls.{Later, Reachable}
use hand.State.Log.Calls.{Later-Sound, Reachable-Sound, from_itself}
use hand.State.Log.Settings.{add_device-Sound}
use hand.State.Tasks.{project_of}
use hand.State.Projects.{adopt_project, set_settings}
use hand.State.Devices.{
  add_device, append_revoked, delete_phone, device_with_secret, insert_device, is_phone,
  revoke_phone,
}

-- AdoptProject answers with the settings that the project has after it. Settings that were recorded
-- stay, and then nothing at all is written; a project without settings gets the ones given.
pub adopt_project-keeps :
    (name settings : Text) (now : ℕ) (db : Db) (p : Project)
    → project_of name db ≡ some p
    → Holds
        (λ answered db'.
          (project_of name db' ≡ some (record p { settings = answered }))
          × (is_empty p.settings ≡ false → (db' ≡ db) × (answered ≡ p.settings))
          × (is_empty p.settings ≡ true → answered ≡ settings))
        (adopt_project name settings now db)
unfolding adopt_project set_settings append_event
adopt_project-keeps name settings now db p found = row-Holds _ _ _ _ λ p' found'.
    let same : p' ≡ p = some_inj p' p (sym found' ∙ found) in
    rw same (elim (Bool-cases (is_empty p.settings)) [
      | inl e ↦ rw e (
          exec-Holds _ _ _ (
            exec-Holds _ _ _ (
              pure-Holds _ _ (
                find-update (λ (x : Project). text_eq x.name name)
                    (λ (x : Project). record x { settings = settings }) db.projects (λ y. refl)
                    found,
                (λ q. absurd (ground (arith, e, q))),
                λ _. refl,
              ))))
      | inr e ↦
          rw e (pure-Holds _ _ (found, (λ _. (refl, refl)), λ q. absurd (ground (arith, e, q))))
    ])
  where
    some_inj : (a b : Project) → some a ≡ some b → a ≡ b
    some_inj a b h = cc

-- The devices that a selection leaves are found as before.
find-select :
    {A : Type 0} (q keep : A → Bool) (xs : List A) {x : A}
    → find q xs ≡ some x
    → keep x ≡ true
    → find q (select keep xs) ≡ some x
find-select {A} q keep [] e k = cc
find-select {A} q keep (y ∷ ys) {x} e k = elim (Bool-cases (q y)) [
  | inl t ↦
      let same : y ≡ x = some_eq y x (rw t at e) in
      rw (subst (λ z. keep z ≡ true) (sym same) k) (rw t (ap some same))
  | inr t ↦ elim (Bool-cases (keep y)) [
    | inl u ↦ rw u (rw t (find-select q keep ys (rw t at e) k))
    | inr u ↦ rw u (find-select q keep ys (rw t at e) k)
  ]
]
  where
    some_eq : (a b : A) → some a ≡ some b → a ≡ b
    some_eq a b h = cc

append_revoked-devices :
    (now : ℕ) (ds : List Device) (db : Db) → (append_revoked now ds db).devices ≡ db.devices
unfolding append_revoked append_event
append_revoked-devices now [] db = refl
append_revoked-devices now (d ∷ ds) db = append_revoked-devices now ds _

-- RevokePhone leaves no device of the phone, answers with devices of that phone alone, and leaves
-- every other device that a secret opened the board to.
pub revoke_phone_forgets :
    (label : Text) (now : ℕ) (db : Db)
    → Holds
        (λ out db'.
          All (λ (d : Device). is_phone label d ≡ false) db'.devices
          × All (λ (d : Device). is_phone label d ≡ true) out
          × ((id : ℕ) (d : Device)
              → find (λ (x : Device). x.id == id) db.devices ≡ some d
              → is_phone label d ≡ false
              → find (λ (x : Device). x.id == id) db'.devices ≡ some d))
        (revoke_phone label now db)
unfolding revoke_phone delete_phone
revoke_phone_forgets label now db = refuse-Holds _ _ _ _ λ _. query-Holds _ _ _ (
    exec-Holds _ _ _ (
      exec-Holds _ _ _ (
        pure-Holds _ _ (
          let left = select (λ (d : Device). not (is_phone label d)) db.devices in
          let same =
            append_revoked-devices now (select (is_phone label) db.devices)
              (delete_phone label db) in
          (
            rw same (gone db.devices),
            selected db.devices,
            λ id d found differs. rw same (
                find-select (λ (x : Device). x.id == id) (λ (d : Device). not (is_phone label d))
                  db.devices found (ground (arith, differs))),
          )))))
  where
    gone :
        (ds : List Device)
        → All
            (λ (d : Device). is_phone label d ≡ false)
            (select (λ (d : Device). not (is_phone label d)) ds)
    gone [] = tt
    gone (d ∷ ds) = elim (Bool-cases (is_phone label d)) [
      | inl e ↦ rw e (gone ds)
      | inr e ↦ rw e (e, gone ds)
    ]

    selected :
        (ds : List Device)
        → All (λ (d : Device). is_phone label d ≡ true) (select (is_phone label) ds)
    selected [] = tt
    selected (d ∷ ds) = elim (Bool-cases (is_phone label d)) [
      | inl e ↦ rw e (e, selected ds)
      | inr e ↦ rw e (selected ds)
    ]

-- What two rules say of one result.
and-Holds :
    {A : Type 0} {Q : A → Db → Type 0} (P R : A → Db → Type 0) (r : Result (A × Db))
    → ((a : A) (db : Db) → P a db → R a db → Q a db)
    → Holds P r
    → Holds R r
    → Holds Q r
and-Holds P R r f h k = record { at = λ a db e. f a db (h.at a db e) (k.at a db e) }

let_in :
    (secret_hash : Text) (db : Db) (d : Device)
    → d.id ≡ db.device_seq + 1
    → d.secret_hash ≡ secret_hash
    → All (λ (x : Device). x.id ≤ db.device_seq) db.devices
    → device_with_secret d.id secret_hash (insert_device d db) ≡ some d
unfolding device_with_secret insert_device
let_in secret_hash db d next same bounded =
    rw
      (
        find-append_none (λ (x : Device). x.id == d.id) db.devices d
            (All-imp (λ (x : Device). x.id ≤ db.device_seq) (λ (x : Device). (x.id == d.id) ≡ false)
              db.devices (λ x h. ground (arith, next)) bounded)
            (==_refl d.id),
        device_with_secret,
      )
      (rw (same, text_eq_refl secret_hash) refl)

-- Where no device has an id past the counter, the id of a device that is added is past it.
add_device_next :
    (name login secret_hash phone : Text) (now : ℕ) (db : Db)
    → All (λ (d : Device). d.id ≤ db.device_seq) db.devices
    → Holds
        (λ d db'.
          (db.device_seq < d.id)
          × (d.id ≤ db'.device_seq)
          × (device_with_secret d.id secret_hash db' ≡ some d))
        (add_device name login secret_hash phone now db)
unfolding add_device insert_device append_event device_with_secret
add_device_next name login secret_hash phone now db bounded = refuse-Holds _ _ _ _ λ _.
    refuse-Holds _ _ _ _ λ _. query-Holds _ _ _ (
      exec-Holds _ _ _ (
        exec-Holds _ _ _
          (pure-Holds _ _ (omega arith, omega arith, let_in secret_hash db _ refl refl bounded))))

-- A device that is added to a database that the calls of State/Calls lead to, from an empty one, is
-- let in with its own secret, and its id is greater than that of every device that is there. After
-- any further such calls, which may revoke devices, one that is added then has a greater id again: no
-- id is used twice.
pub add_device-lets_in :
    (name login secret_hash phone : Text) (now : ℕ) (db : Db)
    → Reachable db
    → Holds
        (λ d db'.
          (device_with_secret d.id secret_hash db' ≡ some d)
          × All (λ (x : Device). x.id < d.id) db.devices
          × ((later : Db) (name' login' secret_hash' phone' : Text) (now' : ℕ)
              → Later db' later
              → Holds
                  (λ d' _. d.id < d'.id)
                  (add_device name' login' secret_hash' phone' now' later)))
        (add_device name login secret_hash phone now db)
add_device-lets_in name login secret_hash phone now db r =
    let sound = Reachable-Sound db r in
    and-Holds _ _ _
      (λ d db' (after, upto, there) keeps. (
        there,
        All-imp (λ (x : Device). x.id ≤ db.device_seq) (λ (x : Device). x.id < d.id) db.devices
            (λ x h. omega arith) sound.bounded,
        λ later name' login' secret_hash' phone' now' l.
            let at_last = Later-Sound db' later (from_itself db' keeps) l in
            imp-Holds _ _ _ (λ d' _ (next, upto', there'). omega (arith, next, at_last.grows, upto))
              (add_device_next name' login' secret_hash' phone' now' later at_last.bounded),
      ))
      (add_device_next name login secret_hash phone now db sound.bounded)
      (add_device-Sound name login secret_hash phone now db sound)
