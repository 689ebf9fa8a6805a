-- ===== src/Tiers/Examples.antt =====
-- The tiers of the first migration, and the theorems applied to them.
use morsel.Prelude.{◌≡◌, refl, true, false, [], ◌∷◌, String, pos, ok, err, none, some, suc}
use morsel.Tiers.Tables.{Tier, AppKey, Store, Faults, get_app, count_apps_by_repo}
use morsel.Auth.Claims.{Claims}
use morsel.Auth.Access.{check_repo_access, repo_slug}
use morsel.Tiers.Handlers.{
  admit_app, update_repo_tier, remove_tier, tier_is_default, tier_demotion_blocked,
}
use morsel.Tiers.Limit.{Admission, admit_app_new, admit_app_revives}

abbrev small : Tier
small = record {
  name = "small";
  max_apps = pos 2;
  cpu_milli = pos 500;
  memory_mb = pos 512;
  blob_gb = pos 1;
  database_gb = pos 5;
  queue_gb = pos 1;
  hibernate_after = "24h";
  is_default = true;
  updated_at = 0;
}

abbrev medium : Tier
medium = record small { name = "medium"; max_apps = pos 10; is_default = false }

abbrev app_of : String → AppKey
app_of name = record { repo_slug = "org/repo"; name = name; deletion_pending = false }

abbrev start : Store
start = record {
  tiers = small ∷ medium ∷ [];
  repos = record { slug = "org/repo"; tier = "medium" } ∷ [];
  apps = app_of "a" ∷ app_of "b" ∷ app_of "c" ∷ [];
}

abbrev full : Store
full = record start {
  repos = record { slug = "org/repo"; tier = "small" } ∷ [];
  apps = app_of "a" ∷ record (app_of "b") { deletion_pending = true } ∷ app_of "c" ∷ [];
}

abbrev works : Faults
works x = false

-- The claims of a deploy token for the repo.
abbrev builder : Claims
builder = record {
  subject = "repo:org/repo";
  issued_at = 0;
  expires_at = 600000000000;
  repo = "org/repo";
  role = "developer";
  github_id = pos 0;
}

may : check_repo_access (some builder) "org" "repo" ≡ ok tt
unfolding check_repo_access
may = refl

new_app : get_app (repo_slug "org" "repo") "d" start.apps ≡ none
unfolding get_app repo_slug
new_app = refl

admit_app_new_example : Admission works (some builder) "org" "repo" "d" start
admit_app_new_example =
    admit_app_new works (some builder) "org" "repo" "d" start new_app may refl refl

pending_app :
    get_app (repo_slug "org" "repo") "b" full.apps
    ≡ some (record (app_of "b") { deletion_pending = true })
unfolding get_app repo_slug
pending_app = refl

admit_app_revives_example :
    ((admit_app works (some builder) "org" "repo" "b" full).1 ≡ ok tt)
    × (count_apps_by_repo
          (repo_slug "org" "repo")
          (admit_app works (some builder) "org" "repo" "b" full).0.apps
        ≡ suc (count_apps_by_repo (repo_slug "org" "repo") full.apps))
admit_app_revives_example =
    admit_app_revives works (some builder) "org" "repo" "b" full
      (record (app_of "b") { deletion_pending = true }) pending_app refl may refl refl

default_stays : (remove_tier true "small" start).1 ≡ err tier_is_default
unfolding remove_tier
default_stays = refl

no_demotion : (update_repo_tier true "org/repo" "small" start).1 ≡ err tier_demotion_blocked
unfolding update_repo_tier
no_demotion = refl
