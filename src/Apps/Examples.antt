-- ===== src/Apps/Examples.antt =====
-- An app in a cluster, and the theorems applied to it.
use morsel.Prelude.{lookup, ◌≡◌, refl, true, false, [], ◌∷◌, none, some, String, ok}
use morsel.Apps.Models.{
  App, World, Workload, Operation, app_service, Fault, Faults, update_deployment,
}
use morsel.Apps.Tables.{get_app_by_namespace}
use morsel.Apps.Hibernation.{default_idle_after, idle_after_of, check_app}
use morsel.Apps.Idle.{Active, Undisturbed, check_app-Undisturbed}
use morsel.Apps.Cluster.{workload_of}
use morsel.Apps.Lifecycle.{hibernate_app, wake_app, proxy_wake_app}
use morsel.Apps.Traffic.{served, app_served}

abbrev pub web : App
web = record {
  id = 1;
  repo_slug = "org/repo";
  name = "web";
  app_type = "http";
  status = "running";
  namespace = some "org-repo--web";
  image_current = some "web:1";
  image_last_healthy = none;
  deletion_pending = false;
  deleted_at = none;
  updated_at = 0;
  hibernated = false;
  hibernated_at = none;
  hibernation_reason = none;
  last_active_at = some 5;
  idle_after = none;
}

abbrev hibernation : Operation
hibernation = record {
  id = "op";
  repo_slug = "org/repo";
  app_name = "web";
  kind = "hibernate";
  status = "pending";
  error = none;
}

abbrev running : Workload
running = record {
  replicas = some 1;
  suspended = none;
  service_port = some 8080;
  route = some app_service;
}

abbrev pub world : World
world = record {
  store = record {
    apps = web ∷ [];
    scale_events = [];
    operations = hibernation ∷ [];
    exemptions = [];
  };
  cluster = ("org-repo--web", running) ∷ [];
}

abbrev pub no_faults : Faults
no_faults x = false

-- Kubernetes refuses to update the deployment.
abbrev scaling_fails : Faults
scaling_fails update_deployment = true
scaling_fails _ = false

abbrev pub error_text : Fault → String
error_text x = "refused"

running_served : served (workload_of world "org-repo--web") ≡ true
unfolding served lookup
running_served = refl

app_served_example :
    (served (
        workload_of
          (hibernate_app scaling_fails error_text 9 "op" 1 "http" "web" "org-repo--web" world)
          "org-repo--web")
      ≡ true)
    × (served (
          workload_of
            (wake_app scaling_fails error_text 9 "op" 1 "http" "web" "org-repo--web" world)
            "org-repo--web")
        ≡ true)
    × (served (
          workload_of
            (proxy_wake_app scaling_fails 9 1 "http" "org-repo--web" world).0
            "org-repo--web")
        ≡ true)
app_served_example =
    app_served scaling_fails error_text 9 "op" 1 "web" "org-repo--web" world running_served

-- It was active five nanoseconds after the start, two before now.
web-Active : Active no_faults 7 world "org-repo--web" default_idle_after
unfolding get_app_by_namespace
web-Active = record { row = web; last = 5; found = refl; active = refl; recent = refl }

default_idle : idle_after_of (λ text. none) none ≡ some default_idle_after
unfolding idle_after_of
default_idle = refl

check_app-Undisturbed_example :
    Undisturbed world (check_app no_faults 7 (λ text. none) (λ slug name idle. ok []) web world)
check_app-Undisturbed_example =
    check_app-Undisturbed no_faults 7 (λ text. none) (λ slug name idle. ok []) web
      default_idle_after world default_idle web-Active
