-- ===== src/Apps/Models.antt =====
-- The rows of the control plane's database (internal/db/queries/models.go of cmd/morsel-ctrl-plane)
-- and what the cluster holds for an app. An integer flag is a Boolean, a time a number.
use morsel.Prelude.{ℕ, Bool, Option, String, List, Assoc, Action}

pub record App : Type 0 where
  pub id : ℕ
  pub repo_slug : String
  pub name : String
  pub app_type : String
  pub status : String
  pub namespace : Option String
  pub image_current : Option String
  pub image_last_healthy : Option String
  pub deletion_pending : Bool
  pub deleted_at : Option ℕ
  pub updated_at : ℕ
  pub hibernated : Bool
  pub hibernated_at : Option ℕ
  pub hibernation_reason : Option String
  pub last_active_at : Option ℕ
  pub idle_after : Option String

pub record ScaleEvent : Type 0 where
  pub namespace : String
  pub app : String
  pub event : String
  pub occurred_at : ℕ

pub record Operation : Type 0 where
  pub id : String
  pub repo_slug : String
  pub app_name : String
  pub kind : String
  pub status : String
  pub error : Option String

pub record Exemption : Type 0 where
  pub kind : String
  pub repo_slug : String
  pub app_name : String
  pub exemption_type : String
  pub expires_at : Option ℕ

pub record Store : Type 0 where
  pub apps : List App
  pub scale_events : List ScaleEvent
  pub operations : List Operation
  pub exemptions : List Exemption

-- The flags of the platform's configuration that the watcher of the budget sets.
pub record BudgetFlags : Type 0 where
  pub budget_soft_limit_active : Bool
  pub budget_hard_limit_active : Bool

pub data Backend : Type 0 where
  app_service wake_proxy : Backend

-- The objects of an app's namespace: the replicas of its deployment, the suspension of its cron
-- job, the port of its service and the backend of its route, each if the object is there.
pub record Workload : Type 0 where
  pub replicas : Option ℕ
  pub suspended : Option Bool
  pub service_port : Option ℕ
  pub route : Option Backend

pub record World : Type 0 where
  pub store : Store
  pub open store use *
  pub cluster : Assoc Workload

-- The calls to the database and to Kubernetes that may fail, and the refusals of a request.
pub data Fault : Type 0 where
  start_op fail_op succeed_op record_event set_hibernated set_awake update_status : Fault
  list_apps get_app check_exempt touch_active idle_query expire_exemptions : Fault
  get_deployment update_deployment get_cron_job update_cron_job reference_grant get_route : Fault
  write_route get_service not_ready delete_resources : Fault
  read_app upsert_row create_op random_id update_images mark_pending : Fault
  read_config add_exemption apply_manifests rollout rollback : Fault
  update_config list_repos read_tier list_repo_apps read_prices list_events : Fault
  app_not_found operation_exists over_budget unauthorized : Fault

abbrev pub Faults : Type 0
Faults = Fault → Bool

abbrev pub M : Type 0 → Type 0
M A = Action World Fault A
