-- ===== src/Apps/Traffic.antt =====
-- An http app that is scaled to zero keeps its route at the wake proxy, whichever call fails.
use morsel.Prelude.{
  ℕ, ◌≡◌, sym, subst, Bool, true, false, not, ◌&&◌, ◌||◌, ◌==◌, Option, none, some, String, arith,
  eq_refl, lookup, lookup-insert, str_eq, if◌then◌else◌, Result, ok, err, ◌⊎◌, ◌≢◌, inl, inr,
  Result-cases, Bool-cases,
}
use morsel.Apps.Models.{
  World, Workload, Backend, app_service, wake_proxy, Fault, Faults, reference_grant, get_route,
  write_route,
}
use morsel.Apps.Tables.{start_operation, set_app_awake, update_app_status}
use morsel.Apps.Cluster.{
  workload_of, workload_or_none, put_workload, scale_deployment, route_to_wake_proxy,
  restore_http_route, watch_deployment_ready,
}
use morsel.Apps.Lifecycle.{
  stop_workload, start_workload, record_stop, record_start, conclude, hibernate_app, wake_app,
  restore_route_of, proxy_wake_app,
}

abbrev pub is_service : Option Backend → Bool
is_service none = false
is_service (some app_service) = true
is_service (some wake_proxy) = false

abbrev pub is_stopped : Option ℕ → Bool
is_stopped none = false
is_stopped (some n) = n == 0

-- Requests of this app reach a pod or the proxy that wakes it.
unfoldable pub served : Workload → Bool
served load = not (is_stopped load.replicas && is_service load.route)

pub workload_of-put :
    (ns other : String) (load : Workload) (w : World)
    → workload_of (put_workload ns load w) other
      ≡ (if str_eq ns other then load else workload_of w other)
workload_of-put ns other load w = ground (arith, lookup-insert ns other load w.cluster)

module _ (f : Faults) (ns : String) where
  scale_deployment-route :
      (n : ℕ) (w : World)
      → (workload_of (scale_deployment f ns n w).0 ns).route ≡ (workload_of w ns).route
  unfolding scale_deployment
  scale_deployment-route n w =
      ground (
        arith,
        workload_of-put ns ns (record (workload_of w ns) { replicas = some n }) w,
        eq_refl ns,
      )

  -- A scaling to one replica leaves no deployment without one, or fails and changes nothing.
  scale_up-ok :
      (w : World)
      → (scale_deployment f ns 1 w).1 ≡ ok tt
      → is_stopped (workload_of (scale_deployment f ns 1 w).0 ns).replicas ≡ false
  unfolding scale_deployment
  scale_up-ok w e =
      ground (
        arith,
        workload_of-put ns ns (record (workload_of w ns) { replicas = some 1 }) w,
        eq_refl ns,
      )

  pub scale_deployment-err :
      (n : ℕ) (w : World) (x : Fault)
      → (scale_deployment f ns n w).1 ≡ err x
      → (scale_deployment f ns n w).0 ≡ w
  unfolding scale_deployment
  scale_deployment-err n w x e = ground arith

  route_to_wake_proxy-cases :
      (w : World)
      → (((route_to_wake_proxy f ns w).0 ≡ w) × ((route_to_wake_proxy f ns w).1 ≢ ok tt))
        ⊎ (((route_to_wake_proxy f ns w).1 ≡ ok tt)
            × (is_service (workload_of (route_to_wake_proxy f ns w).0 ns).route ≡ false))
  unfolding route_to_wake_proxy
  route_to_wake_proxy-cases w =
      elim (Bool-cases (f reference_grant || f get_route || f write_route)) [
        | inl a ↦ inl (ground arith)
        | inr a ↦ inr (
          ground arith,
          ground (
            arith,
            workload_of-put ns ns (record (workload_of w ns) { route = some wake_proxy }) w,
            eq_refl ns,
          ),
        )
      ]

  route_served : (load : Workload) → is_service load.route ≡ false → served load ≡ true
  unfolding served
  route_served load h = ground arith

  started_served : (load : Workload) → is_stopped load.replicas ≡ false → served load ≡ true
  unfolding served
  started_served load h = ground arith

  stop_http-served :
      (w : World)
      → served (workload_of w ns) ≡ true
      → served (workload_of (stop_workload f "http" ns w).0 ns) ≡ true
  unfolding stop_workload
  stop_http-served w h =
      let w1 = (route_to_wake_proxy f ns w).0 in
      elim (route_to_wake_proxy-cases w) [
        | inl (same, failed) ↦ ground (arith, h)
        | inr (done, away) ↦
            route_served (workload_of (stop_workload f "http" ns w).0 ns)
              (ground (arith, scale_deployment-route 0 w1))
      ]

  restore_http_route-served :
      (w : World)
      → is_stopped (workload_of w ns).replicas ≡ false
      → served (workload_of (restore_http_route f ns w).0 ns) ≡ true
  unfolding restore_http_route served
  restore_http_route-served w h = ground (
    arith,
    workload_of-put ns ns (record (workload_of w ns) { route = some app_service }) w,
    eq_refl ns,
  )

  restore_route_of-served :
      (w : World)
      → is_stopped (workload_of w ns).replicas ≡ false
      → served (workload_of (restore_route_of f ns w).0 ns) ≡ true
  unfolding restore_route_of
  restore_route_of-served w h =
      ground (arith, restore_http_route-served w h, started_served (workload_of w ns) h)

  start_http-served :
      (w : World)
      → served (workload_of w ns) ≡ true
      → served (workload_of (start_workload f "http" ns w).0 ns) ≡ true
  unfolding start_workload watch_deployment_ready
  start_http-served w h =
      let w1 = (scale_deployment f ns 1 w).0 in
      elim (Result-cases (scale_deployment f ns 1 w).1) [
        | inr (x, e) ↦ ground (arith, h, scale_deployment-err 1 w x e)
        | inl (a, e) ↦
            let up = scale_up-ok w e in
            ground (arith, restore_http_route-served w1 up, started_served (workload_of w1 ns) up)
      ]

  pub record_stop-cluster :
      (now id : ℕ) (name reason : String) (w : World)
      → (record_stop f now id name ns reason w).cluster ≡ w.cluster
  unfolding record_stop
  record_stop-cluster now id name reason w = ground arith

  record_start-cluster :
      (now id : ℕ) (name : String) (w : World)
      → (record_start f now id name ns w).cluster ≡ w.cluster
  unfolding record_start
  record_start-cluster now id name w = ground arith

-- Only the cluster matters for the traffic.
same_cluster-served :
    (ns : String) (v w : World)
    → v.cluster ≡ w.cluster
    → served (workload_of w ns) ≡ true
    → served (workload_of v ns) ≡ true
same_cluster-served ns v w e = subst (λ c. served (workload_or_none (lookup ns c)) ≡ true) (sym e)

module _ (f : Faults) (error : Fault → String) (now : ℕ) where
  conclude-cluster :
      (op : String) (rest : World → World) (w : World) (r : Result Fault (Unit {0}))
      → ((v : World) → (rest v).cluster ≡ v.cluster)
      → (conclude f error now op rest w r).cluster ≡ w.cluster
  unfolding conclude
  conclude-cluster op rest w (err e) k = ground arith
  conclude-cluster op rest w (ok a) k = ground (arith, k w)

  start_operation-cluster :
      (op : String) (w : World) → (start_operation f op w).0.cluster ≡ w.cluster
  unfolding start_operation
  start_operation-cluster op w = ground arith

  hibernate_app-served :
      (op : String) (id : ℕ) (name ns : String) (w : World)
      → served (workload_of w ns) ≡ true
      → served (workload_of (hibernate_app f error now op id "http" name ns w) ns) ≡ true
  unfolding hibernate_app
  hibernate_app-served op id name ns w h =
      let w1 = (start_operation f op w).0 in
      let (w2, result) = stop_workload f "http" ns w1 in
      same_cluster-served ns (hibernate_app f error now op id "http" name ns w) w2
        (conclude-cluster op (record_stop f now id name ns "manual") w2 result
          (record_stop-cluster f ns now id name "manual"))
        (stop_http-served f ns w1 (same_cluster-served ns w1 w (start_operation-cluster op w) h))

  wake_app-served :
      (op : String) (id : ℕ) (name ns : String) (w : World)
      → served (workload_of w ns) ≡ true
      → served (workload_of (wake_app f error now op id "http" name ns w) ns) ≡ true
  unfolding wake_app
  wake_app-served op id name ns w h =
      let w1 = (start_operation f op w).0 in
      let (w2, result) = start_workload f "http" ns w1 in
      same_cluster-served ns (wake_app f error now op id "http" name ns w) w2
        (conclude-cluster op (record_start f now id name ns) w2 result
          (record_start-cluster f ns now id name))
        (start_http-served f ns w1 (same_cluster-served ns w1 w (start_operation-cluster op w) h))

module _ (f : Faults) (now : ℕ) where
  set_awake-cluster : (id : ℕ) (w : World) → (set_app_awake f now id w).0.cluster ≡ w.cluster
  unfolding set_app_awake
  set_awake-cluster id w = ground arith

  update_status-cluster :
      (id : ℕ) (status : String) (w : World)
      → (update_app_status f now id status w).0.cluster ≡ w.cluster
  unfolding update_app_status
  update_status-cluster id status w = ground arith

  proxy_wake_app-served :
      (id : ℕ) (ns : String) (w : World)
      → served (workload_of w ns) ≡ true
      → served (workload_of (proxy_wake_app f now id "http" ns w).0 ns) ≡ true
  unfolding proxy_wake_app watch_deployment_ready
  proxy_wake_app-served id ns w h =
      let w1 = (scale_deployment f ns 1 w).0 in
      let w2 = (restore_route_of f ns w1).0 in
      let w3 = (set_app_awake f now id w2).0 in
      elim (Result-cases (scale_deployment f ns 1 w).1) [
        | inr (x, e) ↦ ground (arith, h, scale_deployment-err f ns 1 w x e)
        | inl (a, e) ↦
            let up = scale_up-ok f ns w e in
            let restored = restore_route_of-served f ns w1 up in
            let awake = same_cluster-served ns w3 w2 (set_awake-cluster id w2) restored in
            let noted =
              same_cluster-served ns (update_app_status f now id "running" w3).0 w3
                (update_status-cluster id "running" w3) awake in
            ground (arith, started_served f ns (workload_of w1 ns) up, restored, awake, noted)
      ]

-- If the deployment of an http app is not at zero replicas with its route at the app's own service,
-- it is not so after hibernateApp, after wakeApp, or after the wake of the wake proxy, whichever
-- calls to the database or the cluster fail.
pub app_served :
    (f : Faults) (error : Fault → String) (now : ℕ) (op : String) (id : ℕ) (name ns : String)
    (w : World)
    → served (workload_of w ns) ≡ true
    → (served (workload_of (hibernate_app f error now op id "http" name ns w) ns) ≡ true)
      × (served (workload_of (wake_app f error now op id "http" name ns w) ns) ≡ true)
      × (served (workload_of (proxy_wake_app f now id "http" ns w).0 ns) ≡ true)
app_served f error now op id name ns w h = (
  hibernate_app-served f error now op id name ns w h,
  wake_app-served f error now op id name ns w h,
  proxy_wake_app-served f now id ns w h,
)
