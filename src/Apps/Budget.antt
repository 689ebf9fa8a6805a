-- ===== src/Apps/Budget.antt =====
-- The hard limit of the budget: forceHibernateAll of internal/watchers/budget.go of
-- cmd/morsel-ctrl-plane.
use morsel.Prelude.{
  ℕ, ◌≡◌, refl, ◌∙◌, true, false, ◌||◌, List, [], ◌∷◌, none, some, String, arith, if◌then◌else◌,
  Result, ok, err, All, ap, subst, sym, lookup, eq_iff, str_eq, Option-cases, Bool-cases, inl, inr,
}
use morsel.Apps.Cluster.{
  workload_of, workload_or_none, scale_deployment, suspend_cron_job, route_to_wake_proxy,
}
use morsel.Apps.Traffic.{workload_of-put, record_stop-cluster}
use morsel.Apps.Models.{App, Exemption, World, wake_proxy, Fault, Faults, list_apps, check_exempt}
use morsel.Apps.Tables.{list_all_apps, is_app_exempt}
use morsel.Apps.Lifecycle.{stop_workload, record_stop}

module _ (f : Faults) (now : ℕ) where
  abbrev finish_force : ℕ → String → String → World × Result Fault (Unit {0}) → World
  finish_force id name ns (w, err e) = w
  finish_force id name ns (w, ok _) = record_stop f now id name ns "budget" w

  -- One app of the list: an app that is asleep, that has no namespace or that is exempt is passed over,
  -- and so is one whose exemption cannot be read.
  unfoldable pub force_hibernate : App → World → World
  unfolding is_app_exempt stop_workload record_stop
  force_hibernate app w = if app.hibernated then w else elim app.namespace [
    | none ↦ w
    | some ns ↦
        if f check_exempt || is_app_exempt now app.repo_slug app.name w.exemptions
        then w
        else finish_force app.id app.name ns (stop_workload f app.app_type ns w)
  ]

  unfoldable pub force_hibernate_apps : List App → World → World
  unfolding force_hibernate
  force_hibernate_apps [] w = w
  force_hibernate_apps (app ∷ rest) w = force_hibernate_apps rest (force_hibernate app w)

  unfoldable pub force_hibernate_all : World → World
  unfolding list_all_apps force_hibernate_apps
  force_hibernate_all w = if f list_apps then w else force_hibernate_apps (list_all_apps w.apps) w

  -- An app of that namespace is asleep already or exempt.
  unfoldable pub Spares : String → List Exemption → App → Type 0
  unfolding is_app_exempt
  Spares ns table app =
      app.namespace ≡ some ns
      → (app.hibernated || is_app_exempt now app.repo_slug app.name table) ≡ true

  -- What the enforcement must leave alone.
  abbrev Untouched : String → World → World → Type 0
  Untouched ns w w' = (workload_of w' ns ≡ workload_of w ns) × (w'.exemptions ≡ w.exemptions)

  scale_deployment-Untouched :
      (ns other : String) (n : ℕ) (w : World)
      → str_eq other ns ≡ false
      → Untouched ns w (scale_deployment f other n w).0
  unfolding scale_deployment
  scale_deployment-Untouched ns other n w e = (
    ground (arith, workload_of-put other ns (record (workload_of w other) { replicas = some n }) w),
    ground arith,
  )

  suspend_cron_job-Untouched :
      (ns other : String) (w : World)
      → str_eq other ns ≡ false
      → Untouched ns w (suspend_cron_job f other w).0
  unfolding suspend_cron_job
  suspend_cron_job-Untouched ns other w e = (
    ground (
      arith,
      workload_of-put other ns (record (workload_of w other) { suspended = some true }) w,
    ),
    ground arith,
  )

  route_to_wake_proxy-Untouched :
      (ns other : String) (w : World)
      → str_eq other ns ≡ false
      → Untouched ns w (route_to_wake_proxy f other w).0
  unfolding route_to_wake_proxy
  route_to_wake_proxy-Untouched ns other w e = (
    ground (
      arith,
      workload_of-put other ns (record (workload_of w other) { route = some wake_proxy }) w,
    ),
    ground arith,
  )

  stop_workload-Untouched :
      (ns other app_type : String) (w : World)
      → str_eq other ns ≡ false
      → Untouched ns w (stop_workload f app_type other w).0
  unfolding stop_workload
  stop_workload-Untouched ns other app_type w e =
      let w1 = (route_to_wake_proxy f other w).0 in
      let routed = route_to_wake_proxy-Untouched ns other w e in
      let scaled = scale_deployment-Untouched ns other 0 w e in
      let both = scale_deployment-Untouched ns other 0 w1 e in
      let cron = suspend_cron_job-Untouched ns other w e in
      (
        ground (arith, routed.0, scaled.0, both.0, cron.0),
        ground (arith, routed.1, scaled.1, both.1, cron.1),
      )

  record_stop-exemptions :
      (id : ℕ) (name ns : String) (w : World)
      → (record_stop f now id name ns "budget" w).exemptions ≡ w.exemptions
  unfolding record_stop
  record_stop-exemptions id name ns w = ground arith

  finish_force-Untouched :
      (ns other name : String) (id : ℕ) (v w : World) (r : Result Fault (Unit {0}))
      → Untouched ns v w
      → Untouched ns v (finish_force id name other (w, r))
  finish_force-Untouched ns other name id v w (err e) u = u
  finish_force-Untouched ns other name id v w (ok a) u = (
    ap (λ c. workload_or_none (lookup ns c)) (record_stop-cluster f other now id name "budget" w)
        ∙ u.0,
    record_stop-exemptions id name other w ∙ u.1,
  )

  force_hibernate-Untouched :
      (ns : String) (app : App) (w : World)
      → Spares ns w.exemptions app
      → Untouched ns w (force_hibernate app w)
  unfolding force_hibernate Spares
  force_hibernate-Untouched ns app w h = elim (Option-cases app.namespace) [
    | inl e ↦ (ground arith, ground arith)
    | inr (other, e) ↦
        elim (Bool-cases (
          app.hibernated
          || f check_exempt
          || is_app_exempt now app.repo_slug app.name w.exemptions)) [
            | inl b ↦ (ground arith, ground arith)
            | inr b ↦
                let r = stop_workload f app.app_type other w in
                let differs : str_eq other ns ≡ false = ground (arith, h, e, eq_iff other ns) in
                let u =
                  finish_force-Untouched ns other app.name app.id w r.0 r.1
                    (stop_workload-Untouched ns other app.app_type w differs) in
                (ground (arith, u.0), ground (arith, u.1))
          ]
  ]

  force_hibernate_apps-Untouched :
      (ns : String) (apps : List App) (w : World)
      → All (Spares ns w.exemptions) apps
      → Untouched ns w (force_hibernate_apps apps w)
  unfolding force_hibernate_apps Spares
  force_hibernate_apps-Untouched ns [] w h = (refl, refl)
  force_hibernate_apps-Untouched ns (app ∷ rest) w (here, there) =
      let (load, table) = force_hibernate-Untouched ns app w here in
      let (load2, table2) =
        force_hibernate_apps-Untouched ns rest (force_hibernate app w)
          (subst (λ t. All (Spares ns t) rest) (sym table) there) in
      (load2 ∙ load, table2 ∙ table)

  -- The enforcement of the hard budget limit leaves the workload of a namespace as it was if each
  -- app of the list that has this namespace is hibernated already or exempt, whatever happens to
  -- the other apps and whichever calls fail.
  pub workload_of-force_hibernate_all :
      (ns : String) (w : World)
      → All (Spares ns w.exemptions) (list_all_apps w.apps)
      → workload_of (force_hibernate_all w) ns ≡ workload_of w ns
  unfolding force_hibernate_all
  workload_of-force_hibernate_all ns w h =
      ground (arith, (force_hibernate_apps-Untouched ns (list_all_apps w.apps) w h).0)
