-- ===== src/Apps/Hibernation.antt =====
-- The hibernation watcher: internal/watchers/hibernation.go of cmd/morsel-ctrl-plane.
use morsel.Prelude.{
  ℕ, Bool, false, not, List, [], ◌∷◌, String, str_eq, if◌then◌else◌, ltb_ℤ, ◌==◌, Result, ok, err,
  Option, none, some, ℤ, pos, any, sub,
}
use morsel.Queue.Listing.{Info}
use morsel.Apps.Models.{App, World, Fault, Faults, list_apps, get_app}
use morsel.Apps.Tables.{list_all_apps, get_app_by_namespace, update_last_active_at}
use morsel.Apps.Cluster.{desired_replicas}
use morsel.Apps.Lifecycle.{attempt, stop_workload, record_stop}

abbrev pub default_idle_after : ℤ
default_idle_after = pos 86400000000000

abbrev pub namespace_or_empty : Option String → String
namespace_or_empty none = ""
namespace_or_empty (some ns) = ns

-- A text is parsed by the library; no text or an empty one stands for 24 hours.
unfoldable pub idle_after_of : (String → Option ℤ) → Option String → Option ℤ
idle_after_of parse none = some default_idle_after
idle_after_of parse (some text) = if str_eq text "" then some default_idle_after else parse text

-- Whether an app that was last active at that time has been idle for long enough.
unfoldable pub idle_for : ℕ → ℤ → Option ℕ → Bool
idle_for now idle_after none = false
idle_for now idle_after (some t) = not (ltb_ℤ (sub now t) idle_after)

abbrev finish_stop : Faults → ℕ → ℕ → String → String → World × Result Fault (Unit {0}) → World
finish_stop f now id name ns (w, err e) = w
finish_stop f now id name ns (w, ok _) = record_stop f now id name ns "idle" w

unfoldable pub hibernate_idle : Faults → ℕ → ℕ → String → String → String → World → World
unfolding stop_workload record_stop
hibernate_idle f now id app_type name ns w =
    finish_stop f now id name ns (stop_workload f app_type ns w)

module _ (f : Faults) (now : ℕ) where
  unfoldable pub check_http : App → String → ℤ → World → World
  unfolding desired_replicas get_app_by_namespace idle_for hibernate_idle
  check_http app ns idle_after w =
      if desired_replicas f ns app.app_type w == 0
      then w
      else if f get_app
      then w
      else elim (get_app_by_namespace ns w.apps) [
        | none ↦ w
        | some row ↦
            if idle_for now idle_after row.last_active_at
            then hibernate_idle f now app.id "http" app.name ns w
            else w
      ]

  abbrev active_within : ℤ → Option ℕ → Bool
  active_within idle_after none = false
  active_within idle_after (some t) = ltb_ℤ (sub now t) idle_after

  -- The query gives the state of each queue of the app.
  unfoldable pub check_worker : Result Fault (List Info) → App → String → ℤ → World → World
  unfolding get_app_by_namespace update_last_active_at hibernate_idle
  check_worker (err e) app ns idle_after w = w
  check_worker (ok infos) app ns idle_after w =
      if any (λ (i : Info). not i.idle) infos
      then attempt (update_last_active_at f now app.id) w
      else if f get_app
      then w
      else elim (get_app_by_namespace ns w.apps) [
        | none ↦ w
        | some row ↦
            if active_within idle_after row.last_active_at
            then w
            else hibernate_idle f now app.id "worker" app.name ns w
      ]

  module _ (parse : String → Option ℤ)
      (queues : String → String → ℤ → Result Fault (List Info)) where
    unfoldable pub check_app : App → World → World
    unfolding idle_after_of check_http check_worker
    check_app app w = if app.hibernated then w else elim (idle_after_of parse app.idle_after) [
      | none ↦ w
      | some idle_after ↦
          let ns = namespace_or_empty app.namespace in
          if str_eq app.app_type "http"
          then check_http app ns idle_after w
          else if str_eq app.app_type "worker"
          then check_worker (queues app.repo_slug app.name idle_after) app ns idle_after w
          else w
    ]

    unfoldable pub check_apps : List App → World → World
    unfolding check_app
    check_apps [] w = w
    check_apps (app ∷ rest) w = check_apps rest (check_app app w)

    unfoldable pub check_all : World → World
    unfolding list_all_apps check_apps
    check_all w = if f list_apps then w else check_apps (list_all_apps w.apps) w
