-- ===== src/Apps/Shows.antt =====
-- The row of an app and an operation, over the statements that a deployment makes on them:
-- internal/store/store.go of cmd/morsel-ctrl-plane.
use morsel.Prelude.{
  ℕ, Bool, false, ◌≡◌, refl, ap, ◌∙◌, ◌==◌, List, [], ◌∷◌, Option, none, some, String, arith, find,
  Bool-cases, inl, inr, if◌then◌else◌,
}
use morsel.Apps.Models.{
  App, Operation, Store, World, Faults, update_images, update_status, succeed_op, fail_op, start_op,
}
use morsel.Apps.Tables.{
  optional, update_app, set_op, start_operation, succeed_operation, fail_operation,
  record_scale_event, update_app_status,
}
use morsel.Apps.Lifecycle.{attempt}
use morsel.Apps.Rows.{AppSpec, has_op, update_app_images}
use morsel.Apps.Deploy.{Deployer}

abbrev pub has_id : ℕ → App → Bool
has_id id a = a.id == id

-- The row of that id and the operation of that id.
pub record Shows (id : ℕ) (op : String) (a : App) (o : Operation) (w : World) : Type 0 where
  pub row : find (has_id id) w.apps ≡ some a
  pub operation : find (has_op op) w.operations ≡ some o

-- The deployer works on the cluster and leaves the tables alone.
pub record Apart (d : Deployer) : Type 0 where
  pub applies : (spec : AppSpec) (w : World) → (d.apply spec w).0.store ≡ w.store
  pub watches : (ns : String) (w : World) → (d.watch_deployment_rollout ns w).0.store ≡ w.store
  pub rolls : (ns image : String) (w : World) → (d.rollback_deployment ns image w).0.store ≡ w.store

-- The statements that note the end of a deployment.
pub record Notes (f : Faults) : Type 0 where
  pub images : f update_images ≡ false
  pub status : f update_status ≡ false
  pub succeeds : f succeed_op ≡ false
  pub fails : f fail_op ≡ false

find-update_app :
    (id : ℕ) (g : App → App) (a : App) (apps : List App)
    → ((x : App) → (g x).id ≡ x.id)
    → find (has_id id) apps ≡ some a
    → find (has_id id) (update_app id g apps) ≡ some (g a)
find-update_app id g a [] same e = ground arith
find-update_app id g a (x ∷ apps) same e = elim (Bool-cases (has_id id x)) [
  | inl y ↦ ground (arith, same x)
  | inr y ↦ ground (arith, find-update_app id g a apps same)
]

find-set_op :
    (op status : String) (error : Option String) (o : Operation) (ops : List Operation)
    → find (has_op op) ops ≡ some o
    → find (has_op op) (set_op op status error ops)
      ≡ some (record o { status = status; error = error })
find-set_op op status error o [] e = ground arith
find-set_op op status error o (x ∷ ops) e = ground (arith, find-set_op op status error o ops)

pub same-Shows :
    (id : ℕ) (op : String) (a : App) (o : Operation) (w v : World)
    → v.store ≡ w.store
    → Shows id op a o w
    → Shows id op a o v
same-Shows id op a o w v e s = record {
  row = ap (λ (x : Store). find (has_id id) x.apps) e ∙ s.row;
  operation = ap (λ (x : Store). find (has_op op) x.operations) e ∙ s.operation;
}

module _ (f : Faults) (now id : ℕ) (op : String) (a : App) (o : Operation) (w : World)
    (s : Shows id op a o w) where
  pub update_app_status-Shows :
      (status : String)
      → f update_status ≡ false
      → Shows id op
          (record a { status = status; updated_at = now })
          o
          (attempt (update_app_status f now id status) w)
  unfolding update_app_status
  update_app_status-Shows status e =
      let g : App → App = λ x. record x { status = status; updated_at = now } in
      record {
        row = ground (arith, e, find-update_app id g a w.apps (λ x. refl) s.row);
        operation = ground (arith, e, s.operation);
      }

  pub update_app_images-Shows :
      (current healthy : String)
      → f update_images ≡ false
      → Shows id op
          (record a {
            image_current = optional current;
            image_last_healthy = optional healthy;
            updated_at = now;
          })
          o
          (attempt (update_app_images f now id current healthy) w)
  unfolding update_app_images
  update_app_images-Shows current healthy e =
      let g : App → App = λ x. record x {
        image_current = optional current;
        image_last_healthy = optional healthy;
        updated_at = now;
      } in
      record {
        row = ground (arith, e, find-update_app id g a w.apps (λ x. refl) s.row);
        operation = ground (arith, e, s.operation);
      }

  pub record_scale_event-Shows :
      (ns name event : String)
      → Shows id op a o (attempt (record_scale_event f now ns name event) w)
  unfolding record_scale_event
  record_scale_event-Shows ns name event = record {
    row = ground (arith, s.row);
    operation = ground (arith, s.operation);
  }

  pub succeed_operation-Shows :
      f succeed_op ≡ false
      → Shows id op a
          (record o { status = "succeeded"; error = none })
          (attempt (succeed_operation f op) w)
  unfolding succeed_operation
  succeed_operation-Shows e = record {
    row = ground (arith, e, s.row);
    operation = ground (arith, e, find-set_op op "succeeded" none o w.operations s.operation);
  }

  pub fail_operation-Shows :
      (message : String)
      → f fail_op ≡ false
      → Shows id op a
          (record o { status = "failed"; error = some message })
          (attempt (fail_operation f op message) w)
  unfolding fail_operation
  fail_operation-Shows message e = record {
    row = ground (arith, e, s.row);
    operation =
        ground (arith, e, find-set_op op "failed" (some message) o w.operations s.operation);
  }

  -- The start may fail, which is logged.
  pub start_operation-Shows :
      Shows id op a
        (if f start_op then o else record o { status = "running"; error = none })
        (attempt (start_operation f op) w)
  unfolding start_operation
  start_operation-Shows = record {
    row = ground (arith, s.row);
    operation =
        ground (arith, s.operation, find-set_op op "running" none o w.operations s.operation);
  }
