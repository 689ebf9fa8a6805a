-- ===== src/Apps/Outcome.antt =====
-- How a deployment ends: runDeploy of internal/api/handler/apps.go, of cmd/morsel-ctrl-plane.
use morsel.Prelude.{
  if_false, ℕ, true, false, ◌≡◌, sym, ap, subst, ◌∙◌, Option, none, some, String, str_eq, arith, ok,
  err, Result, Result-cases, Bool-cases, inl, inr, ◌⊎◌, if◌then◌else◌,
}
use morsel.Apps.Models.{App, Operation, World, Fault, Faults, start_op}
use morsel.Apps.Tables.{optional, start_operation, update_app_status}
use morsel.Apps.Lifecycle.{attempt}
use morsel.Apps.Rows.{AppSpec, update_app_images}
use morsel.Apps.Deploy.{Deployer, deploy_failed, roll_back, after_rollback, deployed, run_deploy}
use morsel.Apps.Shows.{
  Shows, Apart, Notes, same-Shows, update_app_status-Shows, update_app_images-Shows,
  record_scale_event-Shows, succeed_operation-Shows, fail_operation-Shows, start_operation-Shows,
}

-- The tables while the manifest is applied.
abbrev pub begun : Faults → ℕ → String → ℕ → World → World
begun f now op id w =
    attempt (update_app_status f now id "deploying") (attempt (start_operation f op) w)

abbrev pub failed_op : Operation → String → Operation
failed_op o message = record o { status = "failed"; error = some message }

abbrev pub with_images : App → ℕ → String → String → App
with_images a now status image = record a {
  status = status;
  image_current = optional image;
  image_last_healthy = optional image;
  updated_at = now;
}

-- What RollbackDeployment answers after a failed rollout of what was applied in w.
abbrev pub RolledBack : Deployer → AppSpec → String → World → Result Fault (Unit {0}) → Type 0
RolledBack d spec healthy w answer =
    (d.rollback_deployment spec.namespace healthy
      (d.watch_deployment_rollout spec.namespace (d.apply spec w).0).0).1
    ≡ answer

-- The ends of a deployment of an app, by what the deployer answers.
pub data Outcome (d : Deployer) (error : Fault → String) (now id : ℕ) (op : String) (a : App)
    (o : Operation) (spec : AppSpec) (healthy : String) (w v : World) : Type 0 where
  running :
      (d.apply spec w).1 ≡ ok tt
      → (str_eq spec.app_type "cron" ≡ true)
        ⊎ ((d.watch_deployment_rollout spec.namespace (d.apply spec w).0).1 ≡ ok tt)
      → Shows id op
          (with_images a now "running" spec.image)
          (record o { status = "succeeded"; error = none })
          v
      → Outcome d error now id op a o spec healthy w v
  not_applied :
      (e : Fault)
      → (d.apply spec w).1 ≡ err e
      → Shows id op (record a { status = "failed"; updated_at = now }) (failed_op o (error e)) v
      → Outcome d error now id op a o spec healthy w v
  rolled_back :
      (e : Fault)
      → (d.watch_deployment_rollout spec.namespace (d.apply spec w).0).1 ≡ err e
      → str_eq healthy "" ≡ false
      → RolledBack d spec healthy w (ok tt)
      → Shows id op (with_images a now "failed" healthy) (failed_op o (error e)) v
      → Outcome d error now id op a o spec healthy w v
  not_rolled_back :
      (e : Fault)
      → (d.watch_deployment_rollout spec.namespace (d.apply spec w).0).1 ≡ err e
      → (str_eq healthy "" ≡ true) ⊎ ((x : Fault) × RolledBack d spec healthy w (err x))
      → Shows id op (record a { status = "failed"; updated_at = now }) (failed_op o (error e)) v
      → Outcome d error now id op a o spec healthy w v

module _ (d : Deployer) (apart : Apart d) (f : Faults) (notes : Notes f) (error : Fault → String)
    (now id : ℕ) (op : String) where
  begun-Shows :
      (a : App) (o : Operation) (w : World)
      → Shows id op a o w
      → Shows id op
          (record a { status = "deploying"; updated_at = now })
          (if f start_op then o else record o { status = "running"; error = none })
          (begun f now op id w)
  begun-Shows a o w s =
      update_app_status-Shows f now id op a _ _ (start_operation-Shows f now id op a o w s)
        "deploying" notes.status

  deploy_failed-Shows :
      (a : App) (o : Operation) (w : World) (e : Fault)
      → Shows id op a o w
      → Shows id op
          (record a { status = "failed"; updated_at = now })
          (failed_op o (error e))
          (deploy_failed d f error now op id e w)
  unfolding deploy_failed
  deploy_failed-Shows a o w e s =
      update_app_status-Shows f now id op a _ _
        (fail_operation-Shows f now id op a o w s (error e) notes.fails) "failed" notes.status

  deployed-Shows :
      (a : App) (o : Operation) (w : World) (name : String) (spec : AppSpec)
      → Shows id op a o w
      → Shows id op
          (with_images a now "running" spec.image)
          (record o { status = "succeeded"; error = none })
          (deployed d f error now op id name spec w)
  unfolding deployed
  deployed-Shows a o w name spec s =
      let s1 = update_app_images-Shows f now id op a o w s spec.image spec.image notes.images in
      let s2 = update_app_status-Shows f now id op _ o _ s1 "running" notes.status in
      let s3 = record_scale_event-Shows f now id op _ o _ s2 spec.namespace name "scale_to_1" in
      succeed_operation-Shows f now id op _ o _ s3 notes.succeeds

  -- The images change only where there is one to go back to and the deployer has gone back to it.
  roll_back-Shows :
      (a : App) (o : Operation) (w : World) (ns image : String)
      → Shows id op a o w
      → ((str_eq image "" ≡ false)
          × ((d.rollback_deployment ns image w).1 ≡ ok tt)
          × Shows id op
              (record a {
                image_current = optional image;
                image_last_healthy = optional image;
                updated_at = now;
              })
              o
              (roll_back d f error now id ns image w))
        ⊎ (((str_eq image "" ≡ true)
              ⊎ ((x : Fault) × ((d.rollback_deployment ns image w).1 ≡ err x)))
            × Shows id op a o (roll_back d f error now id ns image w))
  unfolding roll_back
  roll_back-Shows a o w ns image s =
      let w1 = (d.rollback_deployment ns image w).0 in
      let s1 = same-Shows id op a o w w1 (apart.rolls ns image w) s in
      elim (Bool-cases (str_eq image "")) [
        | inl h ↦ inr (inl h, rw h s)
        | inr h ↦ elim (Result-cases (d.rollback_deployment ns image w).1) [
          | inr (e, z) ↦ inr (inr (e, z), rw (h, z) s1)
          | inl (u, z) ↦
              let same : roll_back d f error now id ns image w
                  ≡ attempt (update_app_images f now id image image) w1 =
                if_false (str_eq image "") w _ h
                ∙ ap (λ r. after_rollback d f error now id image (w1, r)) z in
              inl (
                h,
                z,
                subst (Shows id op _ o) (sym same)
                    (update_app_images-Shows f now id op a o w1 s1 image image notes.images),
              )
        ]
      ]

  -- The operation's status and error are set by every end.
  end_op :
      (o : Operation) (status : String) (error' : Option String)
      → ◌≡◌ {A = Operation}
          (record (if f start_op then o else record o { status = "running"; error = none }) {
            status = status;
            error = error';
          })
          (record o { status = status; error = error' })
  end_op o status error' = ground arith

  -- A deployment ends in one of the ways, by what the deployer answers.
  pub run_deploy_outcome :
      (a : App) (o : Operation) (w : World) (name : String) (spec : AppSpec) (healthy : String)
      → Shows id op a o w
      → Outcome d error now id op a o spec healthy
          (begun f now op id w)
          (run_deploy d f error now op id name spec healthy w)
  unfolding run_deploy roll_back
  run_deploy_outcome a o w name spec healthy s =
      let b = begun f now op id w in
      let s1 = begun-Shows a o w s in
      let w1 = (d.apply spec b).0 in
      let t1 = same-Shows id op _ _ b w1 (apart.applies spec b) s1 in
      let w2 = (d.watch_deployment_rollout spec.namespace w1).0 in
      let t2 = same-Shows id op _ _ w1 w2 (apart.watches spec.namespace w1) t1 in
      elim (Result-cases (d.apply spec b).1) [
        | inr (e, x) ↦
            not_applied e x
              (rw (x, sym (end_op o "failed" (some (error e)))) (deploy_failed-Shows _ _ w1 e t1))
        | inl (u, x) ↦ elim (Bool-cases (str_eq spec.app_type "cron")) [
          | inl c ↦
              running x (inl c)
                (rw (x, c, sym (end_op o "succeeded" none)) (deployed-Shows _ _ w1 name spec t1))
          | inr c ↦ elim (Result-cases (d.watch_deployment_rollout spec.namespace w1).1) [
            | inl (u2, y) ↦
                running x (inr y) (
                  rw (x, c, y, sym (end_op o "succeeded" none))
                    (deployed-Shows _ _ w2 name spec t2))
            | inr (e, y) ↦ elim (roll_back-Shows _ _ w2 spec.namespace healthy t2) [
              | inl (h, z, t3) ↦ rolled_back e y h z (
                  rw (x, c, y, sym (end_op o "failed" (some (error e))))
                    (deploy_failed-Shows _ _ _ e t3))
              | inr (z, t3) ↦ not_rolled_back e y z (
                  rw (x, c, y, sym (end_op o "failed" (some (error e))))
                    (deploy_failed-Shows _ _ _ e t3))
            ]
          ]
        ]
      ]
