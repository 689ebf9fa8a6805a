-- ===== src/Tiers/Limit.antt =====
-- The limit on the apps of a repo, which a new app is held to.
use morsel.Prelude.{
  suc, ◌≡◌, ap, ◌∙◌, ◌&&◌, not, true, false, List, [], ◌∷◌, Option, none, some, String, arith,
  eq_refl, ok, err, ltb_ℤ, pos, inl, inr, Option-cases, Bool-cases,
}
use morsel.Tiers.Tables.{
  Faults, read_app, read_tier, count_apps, make_repo, write_app, Tier, AppKey, Store, get_app,
  get_tier, count_apps_by_repo, get_or_create_repo, get_default_tier_name,
}
use morsel.Tiers.Handlers.{Reply, admit_app, admit_to, held_back, upsert_key, quota_exceeded}
use morsel.Auth.Claims.{Claims}
use morsel.Auth.Access.{check_repo_access, repo_slug}

-- The tier that an app of the repo is held to.
unfoldable pub tier_of_repo : Faults → String → Store → Option Tier
unfolding get_or_create_repo get_default_tier_name get_tier
tier_of_repo f slug s =
    get_tier (get_or_create_repo slug (get_default_tier_name f s.tiers) s.repos).1.tier s.tiers

count-upsert_new :
    (slug name : String) (apps : List AppKey)
    → get_app slug name apps ≡ none
    → count_apps_by_repo slug (upsert_key slug name apps) ≡ suc (count_apps_by_repo slug apps)
unfolding get_app count_apps_by_repo
count-upsert_new slug name [] e = ground (arith, eq_refl slug)
count-upsert_new slug name (a ∷ rest) e = ground (arith, count-upsert_new slug name rest)

count-upsert_pending :
    (slug name : String) (apps : List AppKey) (a : AppKey)
    → get_app slug name apps ≡ some a
    → a.deletion_pending ≡ true
    → count_apps_by_repo slug (upsert_key slug name apps) ≡ suc (count_apps_by_repo slug apps)
unfolding get_app count_apps_by_repo
count-upsert_pending slug name [] a e h = ground arith
count-upsert_pending slug name (x ∷ rest) a e h =
    ground (arith, count-upsert_pending slug name rest a)

-- What becomes of an app that has no row yet.
pub data Admission (f : Faults) (claims : Option Claims) (org repo name : String) (s : Store)
    : Type 0 where
  refused :
      (t : Tier)
      → tier_of_repo f (repo_slug org repo) s ≡ some t
      → ltb_ℤ (pos (count_apps_by_repo (repo_slug org repo) s.apps)) t.max_apps ≡ false
      → (f read_app ≡ false) × (f read_tier ≡ false) × (f count_apps ≡ false)
      → (admit_app f claims org repo name s).1 ≡ err quota_exceeded
      → (admit_app f claims org repo name s).0.apps ≡ s.apps
      → Admission f claims org repo name s
  admitted :
      ((t : Tier)
        → tier_of_repo f (repo_slug org repo) s ≡ some t
        → f read_app ≡ false
        → f read_tier ≡ false
        → f count_apps ≡ false
        → ltb_ℤ (pos (count_apps_by_repo (repo_slug org repo) s.apps)) t.max_apps ≡ true)
      → (admit_app f claims org repo name s).1 ≡ ok tt
      → count_apps_by_repo (repo_slug org repo) (admit_app f claims org repo name s).0.apps
        ≡ suc (count_apps_by_repo (repo_slug org repo) s.apps)
      → Admission f claims org repo name s

module _ (f : Faults) (claims : Option Claims) (org repo name : String) (s : Store) where
  -- A caller with access whose repo can be made, at the rest of the request.
  admit_app-to :
      check_repo_access claims org repo ≡ ok tt
      → f make_repo ≡ false
      → admit_app f claims org repo name s
        ≡ admit_to f
            (repo_slug org repo)
            name
            s
            (get_or_create_repo (repo_slug org repo) (get_default_tier_name f s.tiers) s.repos)
  unfolding admit_app
  admit_app-to may made = ground (arith, may, made)

  let_in :
      f write_app ≡ false
      → (not (f read_app)
          && held_back f s
              (repo_slug org repo)
              name
              (get_or_create_repo (repo_slug org repo) (get_default_tier_name f s.tiers) s.repos).1)
        ≡ false
      → check_repo_access claims org repo ≡ ok tt
      → f make_repo ≡ false
      → ((admit_app f claims org repo name s).1 ≡ ok tt)
        × ((admit_app f claims org repo name s).0.apps
            ≡ upsert_key (repo_slug org repo) name s.apps)
  let_in written free may made =
      let e = admit_app-to may made in
      (
        ap (λ (x : Reply (Unit {0})). x.1) e ∙ ground (arith, written, free),
        ap (λ (x : Reply (Unit {0})). x.0.apps) e ∙ ground (arith, written, free),
      )

  -- A new app of a caller with access, whose repo and row can be written, is refused, and its row
  -- not made, if the reads of the app, the tier and the count work, its repo has a tier and no
  -- fewer apps than that allows; else, also where one of these reads fails, its row is made and the
  -- repo counts one app more.
  pub admit_app_new :
      get_app (repo_slug org repo) name s.apps ≡ none
      → check_repo_access claims org repo ≡ ok tt
      → f make_repo ≡ false
      → f write_app ≡ false
      → Admission f claims org repo name s
  unfolding tier_of_repo
  admit_app_new new may made written =
      elim (Bool-cases (
        not (f read_app)
        && held_back f s (repo_slug org repo) name
            (get_or_create_repo (repo_slug org repo) (get_default_tier_name f s.tiers)
              s.repos).1)) [
                | inr b ↦
                    let (done, apps) = let_in written b may made in
                    admitted (λ t p x y z. ground (arith, new, b, p, x, y, z)) done
                      (ap (count_apps_by_repo (repo_slug org repo)) apps
                        ∙ count-upsert_new (repo_slug org repo) name s.apps new)
                | inl b ↦ elim (Option-cases (tier_of_repo f (repo_slug org repo) s)) [
                  | inl e ↦ ground (arith, new, b, e)
                  | inr (t, e) ↦
                      let same = admit_app-to may made in
                      refused t e (ground (arith, new, b, e))
                        (ground (arith, new, b), ground (arith, new, b), ground (arith, new, b))
                        (ap (λ (x : Reply (Unit {0})). x.1) same ∙ ground (arith, b))
                        (ap (λ (x : Reply (Unit {0})). x.0.apps) same ∙ ground (arith, b))
                ]
              ]

  -- The row of an app that is pending deletion is taken back into use, whatever its tier allows and
  -- whichever reads fail, and the repo counts one app more, if the caller has access and the repo
  -- and the row can be written.
  pub admit_app_revives :
      (a : AppKey)
      → get_app (repo_slug org repo) name s.apps ≡ some a
      → a.deletion_pending ≡ true
      → check_repo_access claims org repo ≡ ok tt
      → f make_repo ≡ false
      → f write_app ≡ false
      → ((admit_app f claims org repo name s).1 ≡ ok tt)
        × (count_apps_by_repo (repo_slug org repo) (admit_app f claims org repo name s).0.apps
            ≡ suc (count_apps_by_repo (repo_slug org repo) s.apps))
  admit_app_revives a e h may made written =
      let (done, apps) = let_in written (ground (arith, e)) may made in
      (
        done,
        ap (count_apps_by_repo (repo_slug org repo)) apps
            ∙ count-upsert_pending (repo_slug org repo) name s.apps a e h,
      )
