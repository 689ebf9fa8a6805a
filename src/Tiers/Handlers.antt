-- ===== src/Tiers/Handlers.antt =====
-- The handlers on tiers: internal/api/handler/tiers.go, UpdateRepoTier of operator.go and the first
-- part of UpsertApp of apps.go. In the handlers on tiers and UpdateRepoTier the database answers every
-- statement; in UpsertApp each may fail. The limits that go to the namespaces in the background are
-- left out.
use morsel.Prelude.{
  ℕ, Bool, false, ◌&&◌, List, [], ◌∷◌, Option, none, some, String, str_eq, if◌then◌else◌, ltb, ℤ,
  pos, ltb_ℤ, not, Result, ok, err, ◌-◌, ◌^◌,
}
use morsel.Tiers.Tables.{
  Tier, Repo, AppKey, Store, Faults, make_repo, read_app, read_tier, count_apps, write_app, Limits,
  DbError, get_tier, get_default_tier_name, insert_tier, patch_tier, delete_tier, set_default_tier,
  count_repos_by_tier, get_repo, set_repo_tier, get_or_create_repo, count_apps_by_repo, get_app,
}
use morsel.Auth.Claims.{Claims}
use morsel.Auth.Access.{check_repo_access, repo_slug}

pub data ApiError : Type 0 where
  insufficient_role tier_exists tier_not_found tier_is_default tier_in_use : ApiError
  tier_demotion_blocked repo_not_found quota_exceeded no_access internal_error : ApiError

abbrev pub Reply : Type 0 → Type 0
Reply A = Store × Result ApiError A

abbrev pub put_tiers : Store → ApiError → Result DbError (List Tier × Tier) → Reply Tier
put_tiers s e (err x) = (s, err e)
put_tiers s e (ok (tiers, t)) = (record s { tiers = tiers }, ok t)

-- An operator makes a tier whose name is not in use.
unfoldable pub create_tier : Bool → ℕ → String → Limits → Store → Reply Tier
unfolding insert_tier
create_tier operator now name l s =
    if not operator
    then (s, err insufficient_role)
    else put_tiers s tier_exists (insert_tier now name l s.tiers)

unfoldable pub update_tier : Bool → ℕ → String → Limits → Store → Reply Tier
unfolding patch_tier
update_tier operator now name l s =
    if not operator
    then (s, err insufficient_role)
    else put_tiers s tier_not_found (patch_tier now name l s.tiers)

unfoldable pub remove_tier : Bool → String → Store → Reply (Unit {0})
unfolding get_tier count_repos_by_tier delete_tier
remove_tier operator name s =
    if not operator then (s, err insufficient_role) else elim (get_tier name s.tiers) [
      | none ↦ (s, err tier_not_found)
      | some t ↦
          if t.is_default
          then (s, err tier_is_default)
          else if ltb 0 (count_repos_by_tier name s.repos)
          then (s, err tier_in_use)
          else (record s { tiers = delete_tier name s.tiers }, ok tt)
    ]

abbrev pub read_back : Store → Option Tier → Reply Tier
read_back s none = (s, err internal_error)
read_back s (some t) = (s, ok t)

unfoldable pub change_default_tier : Bool → ℕ → String → Store → Reply Tier
unfolding get_tier set_default_tier
change_default_tier operator now name s =
    if not operator then (s, err insufficient_role) else elim (get_tier name s.tiers) [
      | none ↦ (s, err tier_not_found)
      | some t ↦
          let tiers = set_default_tier now name s.tiers in
          read_back (record s { tiers = tiers }) (get_tier name tiers)
    ]

-- A tier that is gone counts as one with a large limit.
abbrev pub max_apps_of : Option Tier → ℤ
max_apps_of none = pos (2 ^ 62 - 1)
max_apps_of (some t) = t.max_apps

abbrev pub put_repos : Store → Result DbError (List Repo × Repo) → Reply Repo
put_repos s (err x) = (s, err internal_error)
put_repos s (ok (repos, r)) = (record s { repos = repos }, ok r)

-- A repo moves to another tier unless that allows fewer apps than it has.
unfoldable pub update_repo_tier : Bool → String → String → Store → Reply Repo
unfolding get_repo get_tier count_apps_by_repo set_repo_tier
update_repo_tier operator slug tier s =
    if not operator then (s, err insufficient_role) else elim (get_repo slug s.repos) [
      | none ↦ (s, err repo_not_found)
      | some r ↦ elim (get_tier tier s.tiers) [
        | none ↦ (s, err tier_not_found)
        | some new ↦
            if ltb_ℤ new.max_apps (max_apps_of (get_tier r.tier s.tiers))
              && ltb_ℤ new.max_apps (pos (count_apps_by_repo slug s.apps))
            then (s, err tier_demotion_blocked)
            else put_repos s (set_repo_tier slug tier s.repos)
      ]
    ]

abbrev pub upsert_key : String → String → List AppKey → List AppKey
upsert_key slug name [] = record { repo_slug = slug; name = name; deletion_pending = false } ∷ []
upsert_key slug name (a ∷ rest) =
    let more = upsert_key slug name rest in
    if str_eq a.repo_slug slug && str_eq a.name name
    then record a { deletion_pending = false } ∷ rest
    else a ∷ more

-- Whether the repo is at its limit; a tier that is gone sets none.
abbrev pub at_limit : Store → String → Option Tier → Bool
at_limit s slug none = false
at_limit s slug (some t) = not (ltb_ℤ (pos (count_apps_by_repo slug s.apps)) t.max_apps)

-- Whether a new app is held back: only where the tier and the count can be read.
abbrev pub held_back : Faults → Store → String → String → Repo → Bool
held_back f s slug name r = elim (get_app slug name s.apps) [
  | some a ↦ false
  | none ↦ not (f read_tier) && not (f count_apps) && at_limit s slug (get_tier r.tier s.tiers)
]

-- The limit is checked for an app of which the table is known to have no row.
abbrev pub admit_to : Faults → String → String → Store → List Repo × Repo → Reply (Unit {0})
admit_to f slug name s (repos, r) =
    let s1 = record s { repos = repos } in
    if not (f read_app) && held_back f s slug name r
    then (s1, err quota_exceeded)
    else if f write_app
    then (s1, err internal_error)
    else (record s1 { apps = upsert_key slug name s.apps }, ok tt)

unfoldable pub admit_app :
    Faults → Option Claims → String → String → String → Store → Reply (Unit {0})
unfolding check_repo_access repo_slug get_default_tier_name get_or_create_repo get_app get_tier
    count_apps_by_repo
admit_app f claims org repo name s =
    let slug = repo_slug org repo in
    elim (check_repo_access claims org repo) [
      | err x ↦ (s, err no_access)
      | ok _ ↦
          if f make_repo
          then (s, err internal_error)
          else admit_to f slug name s
              (get_or_create_repo slug (get_default_tier_name f s.tiers) s.repos)
    ]
