-- ===== src/Apps/Idle.antt =====
-- The hibernation watcher leaves apps alone that are in use.
use morsel.Prelude.{
  ℕ, ◌≡◌, refl, ap, true, not, List, [], ◌∷◌, map, Option, some, String, arith, ok, err, Result, ℤ,
  sub, ltb_ℤ, any, str_eq, Bool-cases, inl, inr,
}
use morsel.Queue.Listing.{Info}
use morsel.Apps.Models.{App, World, Faults, Fault}
use morsel.Apps.Tables.{get_app_by_namespace, update_last_active_at, update_app}
use morsel.Apps.Hibernation.{
  namespace_or_empty, idle_after_of, idle_for, check_http, check_worker, check_app,
}
use morsel.Apps.Lifecycle.{attempt}

-- What a hibernation would change: the cluster, the scale events and the flags of the apps.
pub record Undisturbed (w w' : World) : Type 0 where
  pub cluster : w'.cluster ≡ w.cluster
  pub events : w'.scale_events ≡ w.scale_events
  pub flags : map (λ (a : App). a.hibernated) w'.apps ≡ map (λ (a : App). a.hibernated) w.apps

module _ (f : Faults) (now : ℕ) where
  flags-update_app :
      (id t : ℕ) (apps : List App)
      → map
          (λ (a : App). a.hibernated)
          (update_app id (λ a. record a { last_active_at = some t; updated_at = t }) apps)
        ≡ map (λ (a : App). a.hibernated) apps
  flags-update_app id t [] = refl
  flags-update_app id t (a ∷ rest) = ground (arith, flags-update_app id t rest)

  same-Undisturbed : (w w' : World) → w' ≡ w → Undisturbed w w'
  same-Undisturbed w w' e = record {
    cluster = ap (λ (x : World). x.cluster) e;
    events = ap (λ (x : World). x.scale_events) e;
    flags = ap (λ (x : World). map (λ (a : App). a.hibernated) x.apps) e;
  }

  touch-Undisturbed :
      (id : ℕ) (w : World) → Undisturbed w (attempt (update_last_active_at f now id) w)
  unfolding update_last_active_at
  touch-Undisturbed id w = record {
    cluster = ground arith;
    events = ground arith;
    flags = ground (arith, flags-update_app id now w.apps);
  }

  -- The app of that namespace was active less than the idle time ago.
  pub record Active (w : World) (ns : String) (idle_after : ℤ) : Type 0 where
    pub row : App
    pub last : ℕ
    pub found : get_app_by_namespace ns w.apps ≡ some row
    pub active : row.last_active_at ≡ some last
    pub recent : ltb_ℤ (sub now last) idle_after ≡ true

  check_http-same :
      (app : App) (ns : String) (idle_after : ℤ) (w : World)
      → Active w ns idle_after
      → check_http f now app ns idle_after w ≡ w
  unfolding check_http idle_for
  check_http-same app ns idle_after w a = ground (arith, a.found, a.active, a.recent)

  check_worker-Undisturbed :
      (r : Result Fault (List Info)) (app : App) (ns : String) (idle_after : ℤ) (w : World)
      → Active w ns idle_after
      → Undisturbed w (check_worker f now r app ns idle_after w)
  unfolding check_worker
  check_worker-Undisturbed (err e) app ns idle_after w a = same-Undisturbed w w refl
  check_worker-Undisturbed (ok infos) app ns idle_after w a =
      elim (Bool-cases (any (λ (i : Info). not i.idle) infos)) [
        | inl busy ↦ rw busy (touch-Undisturbed app.id w)
        | inr quiet ↦ same-Undisturbed w _ (ground (arith, a.found, a.active, a.recent))
      ]

  module _ (parse : String → Option ℤ)
      (queues : String → String → ℤ → Result Fault (List Info)) where
    -- The hibernation watcher leaves the cluster, the scale events and the hibernation flags as
    -- they are for an app with a valid idle time whose namespace's row was active less than that
    -- time ago, whatever its type and whichever calls fail.
    pub check_app-Undisturbed :
        (app : App) (idle_after : ℤ) (w : World)
        → idle_after_of parse app.idle_after ≡ some idle_after
        → Active w (namespace_or_empty app.namespace) idle_after
        → Undisturbed w (check_app f now parse queues app w)
    unfolding check_app
    check_app-Undisturbed app idle_after w e a =
        let ns = namespace_or_empty app.namespace in
        let http = check_http-same app ns idle_after w a in
        elim (Bool-cases app.hibernated) [
          | inl asleep ↦ same-Undisturbed w _ (ground arith)
          | inr awake ↦ elim (Bool-cases (str_eq app.app_type "http")) [
            | inl t ↦ same-Undisturbed w _ (ground (arith, e, http))
            | inr t ↦ elim (Bool-cases (str_eq app.app_type "worker")) [
              | inl u ↦
                  rw (awake, e, t, u)
                    (check_worker-Undisturbed (queues app.repo_slug app.name idle_after) app ns
                      idle_after w a)
              | inr u ↦ same-Undisturbed w _ (ground (arith, e))
            ]
          ]
        ]
