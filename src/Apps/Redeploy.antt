-- ===== src/Apps/Redeploy.antt =====
-- The deployment of an app that has a row already, from its request to its end: UpsertApp and
-- runDeploy of internal/api/handler/apps.go, of cmd/morsel-ctrl-plane.
use morsel.Prelude.{
  ℕ, true, false, ◌≡◌, refl, sym, ap, subst, ◌∙◌, ◌++◌, List, [], ◌∷◌, Option, none, some, String,
  arith, eq_refl, find, any, Result, ok, Result-cases, Bool-cases, inl, inr, ℤ,
}
use morsel.Queue.Listing.{Info}
use morsel.Apps.Models.{App, Operation, World, Fault, Faults, upsert_row}
use morsel.Apps.Hibernation.{check_app}
use morsel.Apps.Budget.{force_hibernate}
use morsel.Apps.Rows.{
  AppSpec, has_key, has_op, get_app, revise, revise_app, upsert_app, create_operation,
}
use morsel.Apps.Deploy.{
  Deployer, image_or_empty, accept_deploy, run_deploy, run_accepted, deploy_app,
}
use morsel.Apps.Shows.{has_id, Shows, Apart, Notes}
use morsel.Apps.Outcome.{
  Outcome, running, not_applied, rolled_back, not_rolled_back, begun, run_deploy_outcome,
}

abbrev pub pending_op : String → String → String → Operation
pending_op op slug name = record {
  id = op;
  repo_slug = slug;
  app_name = name;
  kind = "deploy";
  status = "pending";
  error = none;
}

find-revise_app :
    (id : ℕ) (slug name : String) (g : App → App) (a : App) (apps : List App)
    → ((x : App) → (g x).id ≡ x.id)
    → find (has_id id) apps ≡ some a
    → has_key slug name a ≡ true
    → find (has_id id) (revise_app slug name g apps) ≡ some (g a)
find-revise_app id slug name g a [] same e key = ground arith
find-revise_app id slug name g a (x ∷ apps) same e key = elim (Bool-cases (has_id id x)) [
  | inl y ↦ ground (arith, same x)
  | inr y ↦ ground (arith, same x, find-revise_app id slug name g a apps same)
]

get_app-key :
    (slug name : String) (a : App) (apps : List App)
    → get_app slug name apps ≡ some a
    → has_key slug name a ≡ true
unfolding get_app
get_app-key slug name a [] e = ground arith
get_app-key slug name a (x ∷ apps) e = ground (arith, get_app-key slug name a apps)

find-append_op :
    (op : String) (o : Operation) (ops : List Operation)
    → any (has_op op) ops ≡ false
    → has_op op o ≡ true
    → find (has_op op) (ops ++ o ∷ []) ≡ some o
find-append_op op o [] n e = ground arith
find-append_op op o (x ∷ ops) n e = ground (arith, find-append_op op o ops)

upsert_app-found :
    (f : Faults) (new now : ℕ) (slug name : String) (spec : AppSpec) (w : World) (a : App)
    → get_app slug name w.apps ≡ some a
    → f upsert_row ≡ false
    → upsert_app f new now slug name spec w ≡ (
      record w { store = record w.store { apps = revise_app slug name (revise now spec) w.apps } },
      ok (revise now spec a),
    )
unfolding upsert_app
upsert_app-found f new now slug name spec w a e n = ground (arith, e, n)

revise-id : (now : ℕ) (spec : AppSpec) (x : App) → (revise now spec x).id ≡ x.id
unfolding revise
revise-id now spec x = refl

-- What the request leaves, if it is accepted.
accept_deploy-Shows :
    (f : Faults) (new now : ℕ) (draw : Option String) (slug name : String) (spec : AppSpec)
    (w v : World) (a b : App) (op : String)
    → get_app slug name w.apps ≡ some a
    → find (has_id a.id) w.apps ≡ some a
    → accept_deploy f new now draw slug name spec w ≡ (v, ok (op, b))
    → (b ≡ revise now spec a) × Shows a.id op (revise now spec a) (pending_op op slug name) v
unfolding accept_deploy upsert_app create_operation
accept_deploy-Shows f new now none slug name spec w v a b op e i g = ground (arith, e, g)
accept_deploy-Shows f new now (some id) slug name spec w v a b op e i g =
    let key = get_app-key slug name a w.apps e in
    let o = pending_op id slug name in
    (
      ground (arith, e, g),
      record {
        row = ground (
          arith,
          e,
          g,
          find-revise_app a.id slug name (revise now spec) a w.apps (revise-id now spec) i key,
        );
        operation = ground (arith, e, g, eq_refl id, find-append_op id o w.operations);
      },
    )

module _ (d : Deployer) (apart : Apart d) (f : Faults) (notes : Notes f) (error : Fault → String)
    (now : ℕ) where
  -- A deployment of an app that has a row ends, where the statements that note its end work and the
  -- deployer leaves the tables alone, in one of four ways: applied and rolled out (or a cron app),
  -- the operation has succeeded, the app runs and the new image is both the current one and the one
  -- to go back to; not applied, both have failed and the row keeps the new image as current and the
  -- one before as the one to go back to; not rolled out and RollbackDeployment has gone back to the
  -- image that was current before, both have failed and both images are that one, whether or not it
  -- was ever healthy; not rolled out and there is no image to go back to or RollbackDeployment has
  -- failed, both have failed and the images are as after a failed application.
  pub deploy_app-Outcome :
      (new : ℕ) (draw : Option String) (slug name : String) (spec : AppSpec) (w v : World) (a : App)
      (op : String)
      → get_app slug name w.apps ≡ some a
      → find (has_id a.id) w.apps ≡ some a
      → deploy_app d f error now new draw slug name spec w ≡ (v, ok op)
      → (x : World) × Outcome d error now a.id op
          (revise now spec a)
          (pending_op op slug name)
          spec
          (image_or_empty a.image_current)
          x
          v
  unfolding deploy_app revise
  deploy_app-Outcome new draw slug name spec w v a op e i g =
      let (w1, r) = accept_deploy f new now draw slug name spec w in
      elim (Result-cases r) [
        | inr (x, n) ↦ ground arith
        | inl ((op1, b), n) ↦
            let (same, s) =
              accept_deploy-Shows f new now draw slug name spec w w1 a b op1 e i
                (ap (λ x. (w1, x)) n) in
            let rev = revise now spec a in
            let healthy = image_or_empty a.image_current in
            let out =
              run_deploy_outcome d apart f notes error now a.id op1 rev (pending_op op1 slug name)
                w1 name spec healthy s in
            let same_op : op1 ≡ op = ground (arith, g, n) in
            let end : v ≡ run_deploy d f error now op1 a.id name spec healthy w1 =
              sym (ap (λ x. x.0) g)
              ∙ ap (λ x. (run_accepted d f error now name spec (w1, x)).0) n
              ∙ ap
                  (λ (c : App).
                    run_deploy d f error now op1 c.id name spec
                      (image_or_empty c.image_last_healthy) w1)
                  same in
            let x = begun f now op1 a.id w1 in
            (
              x,
              subst (λ p. Outcome d error now a.id p rev (pending_op p slug name) spec healthy x v)
                  same_op
                  (subst
                    (Outcome d error now a.id op1 rev (pending_op op1 slug name) spec healthy x)
                    (sym end) out),
            )
      ]

  stays-hibernated :
      (id : ℕ) (op : String) (a : App) (o : Operation) (spec : AppSpec) (healthy : String)
      (w v : World)
      → Outcome d error now id op a o spec healthy w v
      → (b : App) × (find (has_id id) v.apps ≡ some b) × (b.hibernated ≡ a.hibernated)
  stays-hibernated id op a o spec healthy w v (running x y s) = (_, s.row, refl)
  stays-hibernated id op a o spec healthy w v (not_applied e x s) = (_, s.row, refl)
  stays-hibernated id op a o spec healthy w v (rolled_back e x h z s) = (_, s.row, refl)
  stays-hibernated id op a o spec healthy w v (not_rolled_back e x z s) = (_, s.row, refl)

  -- A deployment of an app whose row is marked hibernated leaves it marked so, however it ends,
  -- where the statements that note its end work and the deployer leaves the tables alone; the
  -- hibernation watcher and the enforcement of the hard budget limit then change nothing for that
  -- row, although the app may be running.
  pub redeployed_stays_hibernated :
      (new : ℕ) (draw : Option String) (slug name : String) (spec : AppSpec) (w v : World) (a : App)
      (op : String)
      → get_app slug name w.apps ≡ some a
      → find (has_id a.id) w.apps ≡ some a
      → a.hibernated ≡ true
      → deploy_app d f error now new draw slug name spec w ≡ (v, ok op)
      → (b : App) × (find (has_id a.id) v.apps ≡ some b)
        × ((f' : Faults) (now' : ℕ) (parse : String → Option ℤ)
              (queues : String → String → ℤ → Result Fault (List Info)) (x : World)
            → (check_app f' now' parse queues b x ≡ x) × (force_hibernate f' now' b x ≡ x))
  unfolding check_app force_hibernate revise
  redeployed_stays_hibernated new draw slug name spec w v a op e i asleep g =
      let (x, out) = deploy_app-Outcome new draw slug name spec w v a op e i g in
      let (b, at, same) = stays-hibernated a.id op (revise now spec a) _ spec _ x v out in
      let still : b.hibernated ≡ true = same ∙ asleep in
      (
        b,
        at,
        λ f' now' parse queues y. (rw (still, check_app) refl, rw (still, force_hibernate) refl),
      )
