-- ===== src/Apps/Deploy.antt =====
-- The deployment of an app: the second half of UpsertApp, once the app is admitted, and runDeploy of
-- internal/api/handler/apps.go of cmd/morsel-ctrl-plane. The goroutine runs after the request.
use morsel.Prelude.{
  ℕ, Option, none, some, String, str_eq, if◌then◌else◌, Result, ok, err, pure, raise, ◌>>◌, ◌>>=◌,
}
use morsel.Apps.Models.{App, World, Fault, Faults, M, random_id}
use morsel.Apps.Tables.{
  start_operation, succeed_operation, fail_operation, record_scale_event, update_app_status,
}
use morsel.Apps.Lifecycle.{attempt}
use morsel.Apps.Rows.{AppSpec, upsert_app, update_app_images, create_operation}

-- The calls of AppDeployer that a deployment makes, on the app's manifest.
pub record Deployer : Type 0 where
  pub apply : AppSpec → M (Unit {0})
  pub watch_deployment_rollout : String → M (Unit {0})
  pub rollback_deployment : String → String → M (Unit {0})

abbrev pub image_or_empty : Option String → String
image_or_empty none = ""
image_or_empty (some image) = image

-- A random id, if the random source works.
abbrev pub draw : Option String → M String
draw none = raise random_id
draw (some id) = pure id

module _ (d : Deployer) (f : Faults) (error : Fault → String) (now : ℕ) where
  unfoldable pub deploy_failed : String → ℕ → Fault → World → World
  unfolding fail_operation update_app_status
  deploy_failed op id e w =
      let w1 = attempt (fail_operation f op (error e)) w in
      attempt (update_app_status f now id "failed") w1

  abbrev pub after_rollback : ℕ → String → World × Result Fault (Unit {0}) → World
  after_rollback id image (w, err e) = w
  after_rollback id image (w, ok _) = attempt (update_app_images f now id image image) w

  unfoldable pub roll_back : ℕ → String → String → World → World
  unfolding update_app_images
  roll_back id ns image w =
      if str_eq image "" then w else after_rollback id image (d.rollback_deployment ns image w)

  unfoldable pub deployed : String → ℕ → String → AppSpec → World → World
  unfolding update_app_images update_app_status record_scale_event succeed_operation
  deployed op id name spec w =
      let w1 = attempt (update_app_images f now id spec.image spec.image) w in
      let w2 = attempt (update_app_status f now id "running") w1 in
      let w3 = attempt (record_scale_event f now spec.namespace name "scale_to_1") w2 in
      attempt (succeed_operation f op) w3

  abbrev after_rollout :
      String → ℕ → String → AppSpec → String → World × Result Fault (Unit {0}) → World
  after_rollout op id name spec healthy (w, err e) =
      deploy_failed op id e (roll_back id spec.namespace healthy w)
  after_rollout op id name spec healthy (w, ok _) = deployed op id name spec w

  abbrev after_apply :
      String → ℕ → String → AppSpec → String → World × Result Fault (Unit {0}) → World
  after_apply op id name spec healthy (w, err e) = deploy_failed op id e w
  after_apply op id name spec healthy (w, ok _) =
      if str_eq spec.app_type "cron"
      then deployed op id name spec w
      else after_rollout op id name spec healthy (d.watch_deployment_rollout spec.namespace w)

  unfoldable pub run_deploy : String → ℕ → String → AppSpec → String → World → World
  unfolding start_operation update_app_status deploy_failed roll_back deployed
  run_deploy op id name spec healthy w =
      let w1 = attempt (start_operation f op) w in
      let w2 = attempt (update_app_status f now id "deploying") w1 in
      after_apply op id name spec healthy (d.apply spec w2)

-- The row and the operation that the request leaves, before anything is deployed.
unfoldable pub accept_deploy :
    Faults → ℕ → ℕ → Option String → String → String → AppSpec → M (String × App)
unfolding upsert_app create_operation
accept_deploy f new now op slug name spec = upsert_app f new now slug name spec >>= λ a.
    draw op >>= λ id. create_operation f id slug name "deploy" >> pure (id, a)

module _ (d : Deployer) (f : Faults) (error : Fault → String) (now : ℕ) where
  abbrev pub run_accepted :
      String → AppSpec → World × Result Fault (String × App) → World × Result Fault String
  run_accepted name spec (w, err e) = (w, err e)
  run_accepted name spec (w, ok (op, a)) =
      (run_deploy d f error now op a.id name spec (image_or_empty a.image_last_healthy) w, ok op)

  -- A deployment from the request to its end.
  unfoldable pub deploy_app : ℕ → Option String → String → String → AppSpec → M String
  unfolding accept_deploy run_deploy
  deploy_app new op slug name spec w =
      run_accepted name spec (accept_deploy f new now op slug name spec w)
