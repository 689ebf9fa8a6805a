-- ===== src/Apps/DeployExamples.antt =====
-- The theorems on deployments and on the check of the budget at concrete requests.
use morsel.Prelude.{
  ℕ, ◌≡◌, ◌≢◌, refl, true, false, List, [], ◌∷◌, Option, some, String, ok, err, arith, pure, raise,
  find, ℤ, pos, Result,
}
use morsel.Queue.Listing.{Info}
use morsel.Auth.Claims.{Claims}
use morsel.Apps.Models.{BudgetFlags, App, World, Fault, Faults, rollout, over_budget}
use morsel.Apps.Tables.{is_app_exempt}
use morsel.Apps.Hibernation.{check_app}
use morsel.Apps.Budget.{force_hibernate}
use morsel.Apps.Rows.{AppSpec, get_app, revise}
use morsel.Apps.Deploy.{Deployer, deploy_app, image_or_empty}
use morsel.Apps.Shows.{has_id, Apart, Notes}
use morsel.Apps.Outcome.{Outcome}
use morsel.Apps.Redeploy.{pending_op, deploy_app-Outcome, redeployed_stays_hibernated}
use morsel.Apps.Requests.{check_budget_and_maybe_exempt, wake_request}
use morsel.Apps.Exemptions.{Change, expires, overrides, removes_app, alters}
use morsel.Apps.Override.{override_lasts, Refused, wake_request-Refused}
use morsel.Apps.Examples.{web, world, no_faults, error_text}

abbrev asleep : App
asleep = record web { hibernated = true; hibernated_at = some 3; status = "hibernated" }

abbrev sleeping : World
sleeping = record world { store = record world.store { apps = asleep ∷ []; operations = [] } }

abbrev next : AppSpec
next = record { app_type = "http"; namespace = "org-repo--web"; image = "web:2"; idle_after = "" }

-- The pods of a new image do not come up.
abbrev deployer : Deployer
deployer = record {
  apply = λ spec. pure tt;
  watch_deployment_rollout = λ ns. raise rollout;
  rollback_deployment = λ ns image. pure tt;
}

deployer-Apart : Apart deployer
deployer-Apart = record {
  applies = λ spec w. refl;
  watches = λ ns w. refl;
  rolls = λ ns image w. refl;
}

no_faults-Notes : Notes no_faults
no_faults-Notes = record { images = refl; status = refl; succeeds = refl; fails = refl }

abbrev after : World
after = (deploy_app deployer no_faults error_text 9 2 (some "op2") "org/repo" "web" next sleeping).0

accepted :
    deploy_app deployer no_faults error_text 9 2 (some "op2") "org/repo" "web" next sleeping
    ≡ (after, ok "op2")
unfolding deploy_app
accepted = refl

known : get_app "org/repo" "web" sleeping.apps ≡ some asleep
unfolding get_app
known = refl

deploy_app-Outcome_example :
    (x : World) × Outcome deployer error_text 9 1 "op2"
      (revise 9 next asleep)
      (pending_op "op2" "org/repo" "web")
      next
      (image_or_empty asleep.image_current)
      x
      after
deploy_app-Outcome_example =
    deploy_app-Outcome deployer deployer-Apart no_faults no_faults-Notes error_text 9 2 (some "op2")
      "org/repo" "web" next sleeping after asleep "op2" known refl accepted

redeployed_stays_hibernated_example :
    (b : App) × (find (has_id 1) after.apps ≡ some b)
    × ((f' : Faults) (now' : ℕ) (parse : String → Option ℤ)
          (queues : String → String → ℤ → Result Fault (List Info)) (x : World)
        → (check_app f' now' parse queues b x ≡ x) × (force_hibernate f' now' b x ≡ x))
redeployed_stays_hibernated_example =
    redeployed_stays_hibernated deployer deployer-Apart no_faults no_faults-Notes error_text 9 2
      (some "op2") "org/repo" "web" next sleeping after asleep "op2" known refl refl accepted

abbrev over : BudgetFlags
over = record { budget_soft_limit_active = true; budget_hard_limit_active = false }

abbrev claims_of : String → String → Claims
claims_of role repo = record {
  subject = "s";
  issued_at = 0;
  expires_at = 100;
  repo = repo;
  role = role;
  github_id = pos 0;
}

abbrev exempted : World
exempted =
    (check_budget_and_maybe_exempt no_faults 9 50 over (some (claims_of "operator" "")) "org/repo"
      "web" sleeping).0

overridden :
    check_budget_and_maybe_exempt no_faults 9 50 over
      (some (claims_of "operator" ""))
      "org/repo"
      "web"
      sleeping
    ≡ (exempted, ok false)
unfolding check_budget_and_maybe_exempt
overridden = refl

not_exempt : is_app_exempt 9 "org/repo" "web" sleeping.exemptions ≡ false
unfolding is_app_exempt
not_exempt = refl

-- An end of a period that came late, another override, and an explicit exemption removed.
abbrev changes : List Change
changes = expires 12 ∷ overrides "org/repo" "web" 60 ∷ removes_app "org/repo" "web" ∷ []

abbrev later_world : World
later_world = record exempted {
  store = record exempted.store { exemptions = alters changes exempted.exemptions };
}

override_lasts_example :
    (check_budget_and_maybe_exempt no_faults 20 80 over
      (some (claims_of "developer" "org/repo"))
      "org/repo"
      "web"
      later_world).1
    ≢ ok true
override_lasts_example =
    override_lasts no_faults no_faults 9 20 50 80 over over (some (claims_of "operator" ""))
      (some (claims_of "developer" "org/repo")) "org/repo" "web" sleeping exempted later_world
      changes refl refl not_exempt overridden (omega arith, (omega arith, (tt, tt))) refl
      (omega arith)

abbrev refused_world : World
refused_world =
    (wake_request no_faults error_text 9 50 over (some (claims_of "developer" "org/repo")) "org"
      "repo" "web" (some "op3") sleeping).0

refused :
    wake_request no_faults error_text 9 50 over
      (some (claims_of "developer" "org/repo"))
      "org"
      "repo"
      "web"
      (some "op3")
      sleeping
    ≡ (refused_world, err over_budget)
unfolding wake_request
refused = refl

nothing_woken : Refused sleeping refused_world
nothing_woken =
    wake_request-Refused no_faults error_text 9 50 over (some (claims_of "developer" "org/repo"))
      "org" "repo" "web" (some "op3") sleeping refused_world over_budget refused
