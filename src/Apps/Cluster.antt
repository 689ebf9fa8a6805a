-- ===== src/Apps/Cluster.antt =====
-- The calls of internal/kube/scale.go on an app's namespace. Kubernetes keeps the objects; each
-- request to it may fail, and then has changed nothing.
use morsel.Prelude.{
  ℕ, Bool, true, false, Option, none, some, String, lookup, insert, str_eq, if◌then◌else◌, Result,
  ok, err,
}
use morsel.Apps.Models.{
  Workload, World, Backend, app_service, wake_proxy, Fault, Faults, M, get_deployment,
  update_deployment, get_cron_job, update_cron_job, reference_grant, get_route, write_route,
  get_service, not_ready,
}

abbrev pub no_workload : Workload
no_workload = record { replicas = none; suspended = none; service_port = none; route = none }

abbrev pub workload_or_none : Option Workload → Workload
workload_or_none none = no_workload
workload_or_none (some w) = w

abbrev pub workload_of : World → String → Workload
workload_of w ns = workload_or_none (lookup ns w.cluster)

abbrev pub put_workload : String → Workload → World → World
put_workload ns load w = record w { cluster = insert ns load w.cluster }

abbrev pub set_replicas : Faults → String → ℕ → World → Option ℕ → World × Result Fault (Unit {0})
set_replicas f ns n w none = (w, ok tt)
set_replicas f ns n w (some old) =
    if f update_deployment
    then (w, err update_deployment)
    else (put_workload ns (record (workload_of w ns) { replicas = some n }) w, ok tt)

-- A deployment that is not there is no error.
unfoldable pub scale_deployment : Faults → String → ℕ → M (Unit {0})
scale_deployment f ns n w =
    if f get_deployment
    then (w, err get_deployment)
    else set_replicas f ns n w (workload_of w ns).replicas

abbrev pub set_suspended :
    Faults → String → Bool → World → Option Bool → World × Result Fault (Unit {0})
set_suspended f ns b w none = (w, ok tt)
set_suspended f ns b w (some old) =
    if f update_cron_job
    then (w, err update_cron_job)
    else (put_workload ns (record (workload_of w ns) { suspended = some b }) w, ok tt)

unfoldable pub suspend_cron_job : Faults → String → M (Unit {0})
suspend_cron_job f ns w =
    if f get_cron_job
    then (w, err get_cron_job)
    else set_suspended f ns true w (workload_of w ns).suspended

unfoldable pub unsuspend_cron_job : Faults → String → M (Unit {0})
unsuspend_cron_job f ns w =
    if f get_cron_job
    then (w, err get_cron_job)
    else set_suspended f ns false w (workload_of w ns).suspended

abbrev pub set_route : Faults → String → Backend → M (Unit {0})
set_route f ns b w =
    if f get_route
    then (w, err get_route)
    else if f write_route
    then (w, err write_route)
    else (put_workload ns (record (workload_of w ns) { route = some b }) w, ok tt)

-- The route is made or replaced, once the grant for it is in place.
unfoldable pub route_to_wake_proxy : Faults → String → M (Unit {0})
route_to_wake_proxy f ns w =
    if f reference_grant then (w, err reference_grant) else set_route f ns wake_proxy w

-- The port is that of the app's service, so without a service the route stays.
unfoldable pub restore_http_route : Faults → String → M (Unit {0})
restore_http_route f ns w =
    if f get_service then (w, err get_service) else elim (workload_of w ns).service_port [
      | none ↦ (w, err get_service)
      | some port ↦ set_route f ns app_service w
    ]

-- The wait ends with a ready replica or with the deadline.
unfoldable pub watch_deployment_ready : Faults → String → M (Unit {0})
watch_deployment_ready f ns w = if f not_ready then (w, err not_ready) else (w, ok tt)

abbrev or_zero : Option ℕ → ℕ
or_zero none = 0
or_zero (some n) = n

-- The desired count; a cron app and a failed read count as zero.
unfoldable pub desired_replicas : Faults → String → String → World → ℕ
desired_replicas f ns app_type w =
    if str_eq app_type "cron"
    then 0
    else if f get_deployment
    then 0
    else or_zero (workload_of w ns).replicas
