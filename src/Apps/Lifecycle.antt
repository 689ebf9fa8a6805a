-- ===== src/Apps/Lifecycle.antt =====
-- The long-running operations on an app: internal/api/handler/lifecycle.go, and the wake that the
-- wake proxy asks for, wakeApp of internal/api/mux.go, of cmd/morsel-ctrl-plane.
use morsel.Prelude.{ℕ, String, str_eq, if◌then◌else◌, Result, ok, err, pure, ◌>>◌, none, some}
use morsel.Apps.Models.{World, Fault, Faults, M, get_app}
use morsel.Apps.Tables.{
  start_operation, succeed_operation, fail_operation, record_scale_event, set_app_hibernated,
  set_app_awake, update_app_status, get_app_by_namespace,
}
use morsel.Apps.Cluster.{
  scale_deployment, suspend_cron_job, unsuspend_cron_job, route_to_wake_proxy, restore_http_route,
  watch_deployment_ready,
}

-- A call whose error is logged and no more.
abbrev pub attempt : M (Unit {0}) → World → World
attempt m w = (m w).0

-- The calls on the cluster that stop an app, by its type.
unfoldable pub stop_workload : Faults → String → String → M (Unit {0})
unfolding scale_deployment route_to_wake_proxy suspend_cron_job
stop_workload f app_type ns =
    if str_eq app_type "http"
    then route_to_wake_proxy f ns >> scale_deployment f ns 0
    else if str_eq app_type "worker"
    then scale_deployment f ns 0
    else if str_eq app_type "cron"
    then suspend_cron_job f ns
    else pure tt

unfoldable pub start_workload : Faults → String → String → M (Unit {0})
unfolding scale_deployment watch_deployment_ready restore_http_route unsuspend_cron_job
start_workload f app_type ns =
    if str_eq app_type "http"
    then scale_deployment f ns 1 >> watch_deployment_ready f ns >> restore_http_route f ns
    else if str_eq app_type "worker"
    then scale_deployment f ns 1
    else if str_eq app_type "cron"
    then unsuspend_cron_job f ns
    else pure tt

-- What is written down once an app is stopped.
unfoldable pub record_stop : Faults → ℕ → ℕ → String → String → String → World → World
unfolding record_scale_event set_app_hibernated update_app_status
record_stop f now id name ns reason w =
    let w1 = attempt (record_scale_event f now ns name "scale_to_0") w in
    let w2 = attempt (set_app_hibernated f now id reason) w1 in
    attempt (update_app_status f now id "hibernated") w2

unfoldable pub record_start : Faults → ℕ → ℕ → String → String → World → World
unfolding record_scale_event set_app_awake update_app_status
record_start f now id name ns w =
    let w1 = attempt (record_scale_event f now ns name "scale_to_1") w in
    let w2 = attempt (set_app_awake f now id) w1 in
    attempt (update_app_status f now id "running") w2

module _ (f : Faults) (error : Fault → String) (now : ℕ) where
  -- Either the operation fails with the error of the calls, or the rest is done and it succeeds.
  unfoldable pub conclude : String → (World → World) → World → Result Fault (Unit {0}) → World
  unfolding fail_operation succeed_operation
  conclude op rest w (err e) = attempt (fail_operation f op (error e)) w
  conclude op rest w (ok _) = attempt (succeed_operation f op) (rest w)

  unfoldable pub hibernate_app : String → ℕ → String → String → String → World → World
  unfolding start_operation stop_workload record_stop conclude
  hibernate_app op id app_type name ns w =
      let w1 = attempt (start_operation f op) w in
      let (w2, result) = stop_workload f app_type ns w1 in
      conclude op (record_stop f now id name ns "manual") w2 result

  unfoldable pub wake_app : String → ℕ → String → String → String → World → World
  unfolding start_operation start_workload record_start conclude
  wake_app op id app_type name ns w =
      let w1 = attempt (start_operation f op) w in
      let (w2, result) = start_workload f app_type ns w1 in
      conclude op (record_start f now id name ns) w2 result

  -- Kubernetes deletes the namespace with all that is in it.
  unfoldable pub delete_app : (String → M (Unit {0})) → String → ℕ → String → World → World
  unfolding start_operation update_app_status conclude
  delete_app delete op id ns w =
      let w1 = attempt (start_operation f op) w in
      let (w2, result) = delete ns w1 in
      conclude op (attempt (update_app_status f now id "deleted")) w2 result

-- The route is restored once the app is read again.
unfoldable pub restore_route_of : Faults → String → M (Unit {0})
unfolding get_app_by_namespace restore_http_route
restore_route_of f ns w =
    if f get_app then (w, err get_app) else elim (get_app_by_namespace ns w.apps) [
      | none ↦ (w, err get_app)
      | some app ↦ restore_http_route f ns w
    ]

-- The wake of the proxy: no operation is kept, and the first error ends it.
unfoldable pub proxy_wake_app : Faults → ℕ → ℕ → String → String → M (Unit {0})
unfolding scale_deployment watch_deployment_ready restore_route_of unsuspend_cron_job set_app_awake
    update_app_status
proxy_wake_app f now id app_type ns =
    (if str_eq app_type "http"
      then scale_deployment f ns 1 >> watch_deployment_ready f ns >> restore_route_of f ns
      else if str_eq app_type "worker"
      then scale_deployment f ns 1
      else if str_eq app_type "cron"
      then unsuspend_cron_job f ns
      else pure tt)
    >> set_app_awake f now id
    >> update_app_status f now id "running"
