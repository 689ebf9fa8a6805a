-- ===== src/Apps/Exemptions.antt =====
-- What happens to the table of exemptions, internal/store/store.go of cmd/morsel-ctrl-plane, between
-- two looks at it, and a period exemption through it.
use morsel.Prelude.{
  ℕ, Bool, true, false, ◌&&◌, ◌≤◌, ◌<◌, ◌≡◌, refl, List, [], ◌∷◌, Option, none, some, String,
  str_eq, arith, leb, any, eq_iff, eq_refl, All, sym, subst,
}
use morsel.Apps.Models.{Exemption}
use morsel.Apps.Tables.{
  exempts, is_app_exempt, expire_period_exemptions, upsert_exemption, add_app_exemption,
  add_repo_exemption, add_period_exemption, remove_app_exemption, remove_repo_exemption,
}

-- The statements that change the table: the end of a period at a time, an override of an operator to
-- the end of a period, and the endpoints that add and remove explicit exemptions.
pub data Change : Type 0 where
  expires : ℕ → Change
  overrides : String → String → ℕ → Change
  adds_app removes_app : String → String → Change
  adds_repo removes_repo : String → Change

unfoldable pub alter : Change → List Exemption → List Exemption
unfolding expire_period_exemptions upsert_exemption add_period_exemption add_app_exemption
    add_repo_exemption remove_app_exemption remove_repo_exemption
alter (expires now) table = expire_period_exemptions now table
alter (overrides slug name end) table = add_period_exemption slug name end table
alter (adds_app slug name) table = add_app_exemption slug name table
alter (removes_app slug name) table = remove_app_exemption slug name table
alter (adds_repo slug) table = add_repo_exemption slug table
alter (removes_repo slug) table = remove_repo_exemption slug table

unfoldable pub alters : List Change → List Exemption → List Exemption
alters [] table = table
alters (c ∷ cs) table = alters cs (alter c table)

-- The change belongs to a period that ends then, or for an override to a later one.
abbrev pub InPeriod : ℕ → Change → Type 0
InPeriod end (expires now) = now < end
InPeriod end (overrides slug name other) = end ≤ other
InPeriod end c = Unit

abbrev lasts : ℕ → Option ℕ → Bool
lasts end none = false
lasts end (some t) = leb end t

-- A period exemption of the app that does not end before then.
unfoldable opens : ℕ → String → String → Exemption → Bool
opens end slug name e =
    str_eq e.repo_slug slug
    && str_eq e.kind "app"
    && str_eq e.app_name name
    && str_eq e.exemption_type "period"
    && lasts end e.expires_at

unfoldable pub has_override : ℕ → String → String → List Exemption → Bool
unfolding opens
has_override end slug name table = any (opens end slug name) table

leb_refl : (n : ℕ) → leb n n ≡ true
leb_refl n = ground arith

period-explicit : (t : String) → str_eq t "period" ≡ true → str_eq t "explicit" ≡ false
period-explicit t e = subst (λ s. str_eq s "explicit" ≡ false) (sym ((eq_iff t "period").0 e)) refl

module _ (end : ℕ) (slug name : String) where
  upsert-has_override :
      (e : Exemption) (table : List Exemption)
      → (str_eq e.exemption_type "period" ≡ true → lasts end e.expires_at ≡ true)
      → has_override end slug name table ≡ true
      → has_override end slug name (upsert_exemption e table) ≡ true
  unfolding has_override upsert_exemption opens
  upsert-has_override e [] h o = ground arith
  upsert-has_override e (x ∷ table) h o =
      ground (arith, h, eq_iff x.exemption_type e.exemption_type, upsert-has_override e table h)

  pub add_period-has_override :
      (table : List Exemption)
      → has_override end slug name (add_period_exemption slug name end table) ≡ true
  unfolding has_override add_period_exemption upsert_exemption opens
  add_period-has_override [] = ground (arith, eq_refl slug, eq_refl name, leb_refl end)
  add_period-has_override (x ∷ table) = ground (
    arith,
    eq_refl slug,
    eq_refl name,
    leb_refl end,
    eq_iff x.repo_slug slug,
    eq_iff x.app_name name,
    eq_iff x.kind "app",
    eq_iff x.exemption_type "period",
    add_period-has_override table,
  )

  expire-has_override :
      (now : ℕ) (table : List Exemption)
      → now < end
      → has_override end slug name table ≡ true
      → has_override end slug name (expire_period_exemptions now table) ≡ true
  unfolding has_override expire_period_exemptions opens
  expire-has_override now [] b o = o
  expire-has_override now (x ∷ table) b o = ground (arith, expire-has_override now table b)

  remove_app-has_override :
      (other app : String) (table : List Exemption)
      → has_override end slug name table ≡ true
      → has_override end slug name (remove_app_exemption other app table) ≡ true
  unfolding has_override remove_app_exemption opens
  remove_app-has_override other app [] o = o
  remove_app-has_override other app (x ∷ table) o =
      ground (arith, period-explicit x.exemption_type, remove_app-has_override other app table)

  remove_repo-has_override :
      (other : String) (table : List Exemption)
      → has_override end slug name table ≡ true
      → has_override end slug name (remove_repo_exemption other table) ≡ true
  unfolding has_override remove_repo_exemption opens
  remove_repo-has_override other [] o = o
  remove_repo-has_override other (x ∷ table) o =
      ground (arith, period-explicit x.exemption_type, remove_repo-has_override other table)

  alter-has_override :
      (c : Change) (table : List Exemption)
      → InPeriod end c
      → has_override end slug name table ≡ true
      → has_override end slug name (alter c table) ≡ true
  unfolding alter add_period_exemption add_app_exemption add_repo_exemption
  alter-has_override (expires now) table w o = expire-has_override now table w o
  alter-has_override (overrides s n other) table w o =
      upsert-has_override _ table (λ _. ground arith) o
  alter-has_override (adds_app s n) table w o =
      upsert-has_override _ table (λ p. ground (arith, p)) o
  alter-has_override (removes_app s n) table w o = remove_app-has_override s n table o
  alter-has_override (adds_repo s) table w o =
      upsert-has_override _ table (λ p. ground (arith, p)) o
  alter-has_override (removes_repo s) table w o = remove_repo-has_override s table o

  pub alters-has_override :
      (cs : List Change) (table : List Exemption)
      → All (InPeriod end) cs
      → has_override end slug name table ≡ true
      → has_override end slug name (alters cs table) ≡ true
  unfolding alters
  alters-has_override [] table w o = o
  alters-has_override (c ∷ cs) table (here, there) o =
      alters-has_override cs (alter c table) there (alter-has_override c table here o)

  -- With a period exemption that lasts, the app is exempt before its end.
  pub has_override-exempt :
      (now : ℕ) (table : List Exemption)
      → now < end
      → has_override end slug name table ≡ true
      → is_app_exempt now slug name table ≡ true
  unfolding has_override is_app_exempt opens exempts
  has_override-exempt now [] b o = ground arith
  has_override-exempt now (x ∷ table) b o = ground (arith, has_override-exempt now table b)
