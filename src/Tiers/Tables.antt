-- ===== src/Tiers/Tables.antt =====
-- The tiers and repos tables: internal/db/queries/tiers.sql.go and repos.sql.go, and the methods of
-- internal/store/store.go on them, of cmd/morsel-ctrl-plane.
use morsel.Prelude.{
  ℕ, Bool, true, false, ◌&&◌, not, List, [], ◌∷◌, ◌++◌, Option, none, some, String, str_eq,
  if◌then◌else◌, ℤ, pos, negsuc, length, select, find, Result, ok, err, zero, suc,
}

pub record Tier : Type 0 where
  pub name : String
  pub max_apps : ℤ
  pub cpu_milli : ℤ
  pub memory_mb : ℤ
  pub blob_gb : ℤ
  pub database_gb : ℤ
  pub queue_gb : ℤ
  pub hibernate_after : String
  pub is_default : Bool
  pub updated_at : ℕ

pub record Repo : Type 0 where
  pub slug : String
  pub tier : String

-- Of a row of the apps table, what the limits look at.
pub record AppKey : Type 0 where
  pub repo_slug : String
  pub name : String
  pub deletion_pending : Bool

pub record Store : Type 0 where
  pub tiers : List Tier
  pub repos : List Repo
  pub apps : List AppKey

-- The fields of a request to make or to change a tier.
pub record Limits : Type 0 where
  pub max_apps : ℤ
  pub cpu_milli : ℤ
  pub memory_mb : ℤ
  pub blob_gb : ℤ
  pub database_gb : ℤ
  pub queue_gb : ℤ
  pub hibernate_after : String

-- The errors of the database that the code tells apart.
pub data DbError : Type 0 where
  no_rows unique_violation : DbError

abbrev pub is_zero : ℤ → Bool
is_zero (pos zero) = true
is_zero (pos (suc n)) = false
is_zero (negsuc n) = false

unfoldable pub get_tier : String → List Tier → Option Tier
get_tier name tiers = find (λ t. str_eq t.name name) tiers

-- The statements of an admission that can fail.
pub data Fault : Type 0 where
  read_default_tier make_repo read_app read_tier count_apps write_app : Fault

abbrev pub Faults : Type 0
Faults = Fault → Bool

-- A failed read counts as no default tier.
unfoldable pub get_default_tier_name : Faults → List Tier → String
get_default_tier_name f tiers =
    if f read_default_tier
    then "small"
    else elim (find (λ (t : Tier). t.is_default) tiers) [ none ↦ "small" | some t ↦ t.name ]

abbrev pub tier_of : ℕ → String → Limits → Tier
tier_of now name l = record {
  name = name;
  max_apps = l.max_apps;
  cpu_milli = l.cpu_milli;
  memory_mb = l.memory_mb;
  blob_gb = l.blob_gb;
  database_gb = l.database_gb;
  queue_gb = l.queue_gb;
  hibernate_after = l.hibernate_after;
  is_default = false;
  updated_at = now;
}

-- The name is the primary key.
unfoldable pub insert_tier : ℕ → String → Limits → List Tier → Result DbError (List Tier × Tier)
unfolding get_tier
insert_tier now name l tiers = elim (get_tier name tiers) [
  | some t ↦ err unique_violation
  | none ↦ ok (tiers ++ tier_of now name l ∷ [], tier_of now name l)
]

abbrev pub keep_zero : ℤ → ℤ → ℤ
keep_zero new old = if is_zero new then old else new

abbrev pub patch : ℕ → Limits → Tier → Tier
patch now l t = record t {
  max_apps = keep_zero l.max_apps t.max_apps;
  cpu_milli = keep_zero l.cpu_milli t.cpu_milli;
  memory_mb = keep_zero l.memory_mb t.memory_mb;
  blob_gb = keep_zero l.blob_gb t.blob_gb;
  database_gb = keep_zero l.database_gb t.database_gb;
  queue_gb = keep_zero l.queue_gb t.queue_gb;
  hibernate_after = if str_eq l.hibernate_after "" then t.hibernate_after else l.hibernate_after;
  updated_at = now;
}

abbrev pub update_named : String → (Tier → Tier) → List Tier → List Tier
update_named name change [] = []
update_named name change (t ∷ rest) =
    (if str_eq t.name name then change t else t) ∷ update_named name change rest

-- The row is read, changed and written back.
unfoldable pub patch_tier : ℕ → String → Limits → List Tier → Result DbError (List Tier × Tier)
unfolding get_tier
patch_tier now name l tiers = elim (get_tier name tiers) [
  | none ↦ err no_rows
  | some t ↦ ok (
    update_named name (λ x. record (patch now l t) { name = x.name; is_default = x.is_default })
        tiers,
    patch now l t,
  )
]

unfoldable pub delete_tier : String → List Tier → List Tier
delete_tier name [] = []
delete_tier name (t ∷ rest) =
    let more = delete_tier name rest in if str_eq t.name name then more else t ∷ more

-- One statement over all rows.
unfoldable pub set_default_tier : ℕ → String → List Tier → List Tier
set_default_tier now name [] = []
set_default_tier now name (t ∷ rest) =
    record t { is_default = str_eq t.name name; updated_at = now } ∷ set_default_tier now name rest

unfoldable pub list_repos_by_tier : String → List Repo → List Repo
list_repos_by_tier tier repos = select (λ r. str_eq r.tier tier) repos

unfoldable pub count_repos_by_tier : String → List Repo → ℕ
unfolding list_repos_by_tier
count_repos_by_tier tier repos = length (list_repos_by_tier tier repos)

unfoldable pub get_repo : String → List Repo → Option Repo
get_repo slug repos = find (λ r. str_eq r.slug slug) repos

abbrev pub update_repo : String → String → List Repo → List Repo
update_repo slug tier [] = []
update_repo slug tier (r ∷ rest) =
    (if str_eq r.slug slug then record r { tier = tier } else r) ∷ update_repo slug tier rest

-- The name of the tier is no reference: any text is accepted.
unfoldable pub set_repo_tier : String → String → List Repo → Result DbError (List Repo × Repo)
unfolding get_repo
set_repo_tier slug tier repos = elim (get_repo slug repos) [
  | none ↦ err no_rows
  | some r ↦ ok (update_repo slug tier repos, record r { tier = tier })
]

-- The repo as it is, or else a new one of that tier.
unfoldable pub get_or_create_repo : String → String → List Repo → List Repo × Repo
unfolding get_repo
get_or_create_repo slug default_tier repos = elim (get_repo slug repos) [
  | some r ↦ (repos, r)
  | none ↦ let r : Repo = record { slug = slug; tier = default_tier } in (repos ++ r ∷ [], r)
]

unfoldable pub count_apps_by_repo : String → List AppKey → ℕ
count_apps_by_repo slug apps =
    length (select (λ a. str_eq a.repo_slug slug && not a.deletion_pending) apps)

unfoldable pub get_app : String → String → List AppKey → Option AppKey
get_app slug name apps = find (λ a. str_eq a.repo_slug slug && str_eq a.name name) apps
