-- ===== src/State/Projects.antt =====
-- internal/state/project.go, grant.go, fleet.go: the projects of a fleet, what their workers may
-- run, and the fleet's own identity.
use hand.Base.{
  Bool, List, Option, Text, [], byte_len, codes, conflict, exists_where, false, find, if◌then◌else◌,
  invalid, is_control, is_empty, leb, length, max_of, none, not, not_found, select, some, text_eq,
  trim_space, true, update_where, ℕ, ◌&&◌, ◌++◌, ◌+◌, ◌==◌, ◌||◌, ◌∷◌,
}
use hand.State.Schema.{Db, Fleet, Grant, Project}
use hand.State.Transactions.{M, exec, pure, query, query_row, refuse, ◌>>=◌, ◌>>◌}
use hand.State.Events.{append_event, emit}
use hand.State.Tasks.{project_of}

abbrev is_lower_or_digit : ℕ → Bool
is_lower_or_digit c = (leb b'a' c && leb c b'z') || (leb b'0' c && leb c b'9')

unfoldable pub all_chars : (ℕ → Bool) → Text → Bool
all_chars p [] = true
all_chars p (c ∷ s) = p c && all_chars p s

-- The pattern `^[a-z0-9][a-z0-9-]{0,63}$`.
unfoldable pub is_project_name : Text → Bool
unfolding all_chars
is_project_name [] = false
is_project_name (c ∷ s) =
    is_lower_or_digit c && leb (length s) 63 && all_chars (λ d. is_lower_or_digit d || d == b'-') s

-- filepath.IsAbs.
abbrev pub is_abs : Text → Bool
is_abs [] = false
is_abs (c ∷ s) = c == b'/'

abbrev pub has_project : Text → Db → Bool
has_project name db = exists_where (λ (p : Project). text_eq p.name name) db.projects

unfoldable pub insert_project : Project → Db → Db
insert_project p db = record db { projects = db.projects ++ p ∷ [] }

-- Store.AddProject. `clean` is filepath.Clean, and `stored` is storedPath, which asks the file system
-- for links. The INSERT fails on a name that is there.
unfoldable pub add_project : (Text → Text) → (Text → Text) → Text → Text → Text → ℕ → M Project
unfolding is_project_name text_eq insert_project append_event
add_project clean stored name repo settings now = do
  refuse (not (is_project_name name)) invalid
  refuse (not (is_abs repo)) invalid
  taken ← query (has_project name)
  refuse taken conflict
  let p : Project = record { name = name; repo = clean repo; settings = settings; created_at = now }
  exec (insert_project (record p { repo = stored (clean repo) }))
  emit now (codes "project.added") 0 name
  pure p

unfoldable pub set_settings : Text → Text → Db → Db
unfolding text_eq
set_settings name settings db = record db {
  projects =
      update_where (λ (p : Project). text_eq p.name name)
        (λ (p : Project). record p { settings = settings }) db.projects;
}

-- Store.AdoptProject: settings that are recorded stay.
unfoldable pub adopt_project : Text → Text → ℕ → M Text
unfolding text_eq set_settings append_event
adopt_project name settings now = do
  p ← query_row (project_of name) not_found
  if not (is_empty p.settings) then pure p.settings else do
    exec (set_settings name settings)
    emit now (codes "project.adopted") 0 name
    pure settings

-- Store.TrustProject.
unfoldable pub trust_project : Text → Text → ℕ → M (Unit {0})
unfolding text_eq set_settings append_event
trust_project name settings now = do
  refuse (is_empty settings) invalid
  known ← query (has_project name)
  exec (set_settings name settings)
  refuse (not known) not_found
  emit now (codes "project.trusted") 0 name

abbrev pub is_grant : Text → Text → Text → Grant → Bool
is_grant project harness pattern g =
    text_eq g.project project && text_eq g.harness harness && text_eq g.pattern pattern

abbrev pub next_grant_id : Db → ℕ
next_grant_id db = max_of (λ (g : Grant). g.id) db.grants + 1

unfoldable pub insert_grant : Grant → Db → Db
insert_grant g db = record db { grants = db.grants ++ g ∷ [] }

abbrev pub grant_detail : Text → Text → Text → Text
grant_detail project harness pattern = project ++ codes ": " ++ harness ++ 32 ∷ pattern

unfoldable pub add_new_grant : Text → Text → Text → ℕ → M (Grant × Bool)
unfolding text_eq insert_grant append_event
add_new_grant project harness pattern now = do
  known ← query (has_project project)
  refuse (not known) not_found
  id ← query next_grant_id
  let g : Grant = record {
    id = id;
    project = project;
    harness = harness;
    pattern = pattern;
    created_at = now;
  }
  exec (insert_grant g)
  emit now (codes "grant.added") 0 (grant_detail project harness pattern)
  pure (g, true)

-- Store.AddGrant: the grant, and whether it is new.
unfoldable pub add_grant : Text → Text → Text → ℕ → M (Grant × Bool)
unfolding text_eq trim_space add_new_grant
add_grant project harness pattern now = do
  let trimmed = trim_space pattern
  refuse (is_empty trimmed) invalid
  had ← query (λ db. find (is_grant project harness trimmed) db.grants)
  elim had [ some g ↦ pure (g, false) | none ↦ add_new_grant project harness trimmed now ]

unfoldable pub delete_grant : ℕ → Db → Db
delete_grant id db = record db { grants = select (λ (g : Grant). not (g.id == id)) db.grants }

-- Store.RemoveGrant.
unfoldable pub remove_grant : Text → ℕ → ℕ → M Grant
unfolding text_eq delete_grant append_event
remove_grant project id now = do
  g ←
      query_row (λ db. find (λ (g : Grant). g.id == id && text_eq g.project project) db.grants)
        not_found
  exec (delete_grant id)
  emit now (codes "grant.removed") 0 (grant_detail project g.harness g.pattern)
  pure g

-- Store.Grants, of one harness or of all ("").
unfoldable pub list_grants : Text → Text → Db → List Grant
unfolding text_eq
list_grants project harness db =
    select
      (λ (g : Grant). text_eq g.project project && (is_empty harness || text_eq g.harness harness))
      db.grants

-- ValidFleetName of a text that is valid UTF-8.
unfoldable pub is_fleet_name : Text → Bool
unfolding byte_len is_control
is_fleet_name name =
    not (is_empty name) && leb (byte_len name) 64 && not (exists_where is_control name)

unfoldable pub set_fleet : Fleet → Db → Db
set_fleet f db = record db { fleet = some f }

abbrev pub is_some_fleet : Option Fleet → Bool
is_some_fleet none = false
is_some_fleet (some f) = true

-- Store.CreateFleet. `random_id` is "f" and the hex of six random bytes. The INSERT fails where the
-- home has a fleet.
unfoldable pub create_fleet : Text → Text → Text → ℕ → M Fleet
unfolding is_fleet_name set_fleet append_event
create_fleet random_id home name now = do
  refuse (not (is_fleet_name name)) invalid
  there ← query (λ db. is_some_fleet db.fleet)
  refuse there conflict
  let f : Fleet = record { id = random_id; name = name; home = home }
  exec (set_fleet f)
  emit now (codes "fleet.created") 0 (random_id ++ 32 ∷ name)
  pure f

-- Store.RenameFleet and renameFleet.
unfoldable pub rename_fleet : Text → ℕ → M Fleet
unfolding is_fleet_name set_fleet append_event
rename_fleet name now = do
  refuse (not (is_fleet_name name)) invalid
  f ← query_row (λ db. db.fleet) not_found
  exec (set_fleet (record f { name = name }))
  emit now (codes "fleet.renamed") 0 (f.id ++ 32 ∷ name)
  pure (record f { name = name })
