-- ===== src/Apps/Override.antt =====
-- The check of the budget before a wake: checkBudgetAndMaybeExempt and WakeApp of
-- internal/api/handler/apps.go, of cmd/morsel-ctrl-plane.
use morsel.Prelude.{
  ℕ, Bool, true, false, ◌||◌, ◌<◌, ◌≡◌, ◌≢◌, List, Option, none, some, String, arith, ok, err, All,
  ◌∙◌, ap, subst, bind-refused, ◌>>◌, ◌>>=◌, continue, Result, sym,
}
use morsel.Auth.Claims.{Claims}
use morsel.Auth.Access.{repo_slug}
use morsel.Apps.Models.{BudgetFlags, M, App, World, Fault, Faults}
use morsel.Apps.Tables.{is_app_exempt, add_period_exemption}
use morsel.Apps.Exemptions.{
  Change, alters, InPeriod, has_override, add_period-has_override, alters-has_override,
  has_override-exempt,
}
use morsel.Apps.Lifecycle.{wake_app}
use morsel.Apps.Hibernation.{namespace_or_empty}
use morsel.Apps.Rows.{create_operation}
use morsel.Apps.Requests.{
  is_operator, check_budget_and_maybe_exempt, wake_request, authorize, find_app, unless_blocked,
  then_run, new_operation,
}

abbrev pub limited : BudgetFlags → Bool
limited cfg = cfg.budget_soft_limit_active || cfg.budget_hard_limit_active

override-exemptions :
    (f : Faults) (now period_end : ℕ) (cfg : BudgetFlags) (claims : Option Claims)
    (slug name : String) (w v : World)
    → is_operator claims ≡ true
    → limited cfg ≡ true
    → is_app_exempt now slug name w.exemptions ≡ false
    → check_budget_and_maybe_exempt f now period_end cfg claims slug name w ≡ (v, ok false)
    → v.exemptions ≡ add_period_exemption slug name period_end w.exemptions
unfolding check_budget_and_maybe_exempt
override-exemptions f now period_end cfg claims slug name w v o l e g = ground (arith, o, l, e, g)

exempt-passes :
    (f : Faults) (now period_end : ℕ) (cfg : BudgetFlags) (claims : Option Claims)
    (slug name : String) (w : World)
    → is_app_exempt now slug name w.exemptions ≡ true
    → (check_budget_and_maybe_exempt f now period_end cfg claims slug name w).1 ≢ ok true
unfolding check_budget_and_maybe_exempt
exempt-passes f now period_end cfg claims slug name w e blocked = ground (arith, e, blocked)

-- If an operator's wake passes the check of the budget while a limit is active and the app is not
-- exempt, no later check before the end of that billing period holds a wake of the app back,
-- whoever asks and whichever calls fail, and whatever happens to the exemptions in between: any
-- additions and removals of explicit ones, deletions of ended periods at times before that end, and
-- further overrides, none of which ends earlier.
pub override_lasts :
    (f f' : Faults) (now later period_end next_end : ℕ) (cfg cfg' : BudgetFlags)
    (claims other : Option Claims) (slug name : String) (w v x : World) (cs : List Change)
    → is_operator claims ≡ true
    → limited cfg ≡ true
    → is_app_exempt now slug name w.exemptions ≡ false
    → check_budget_and_maybe_exempt f now period_end cfg claims slug name w ≡ (v, ok false)
    → All (InPeriod period_end) cs
    → x.exemptions ≡ alters cs v.exemptions
    → later < period_end
    → (check_budget_and_maybe_exempt f' later next_end cfg' other slug name x).1 ≢ ok true
override_lasts f f' now later period_end next_end cfg cfg' claims other slug name w v x cs o l e g
      inside same before =
    let table = v.exemptions in
    let recorded = override-exemptions f now period_end cfg claims slug name w v o l e g in
    let held : has_override period_end slug name table ≡ true =
      ap (has_override period_end slug name) recorded
      ∙ add_period-has_override period_end slug name w.exemptions in
    let still : is_app_exempt later slug name x.exemptions ≡ true =
      ap (is_app_exempt later slug name) same
      ∙ has_override-exempt period_end slug name later (alters cs table) before
          (alters-has_override period_end slug name cs table inside held) in
    exempt-passes f' later next_end cfg' other slug name x still

-- A request that has changed the exemptions at most.
pub record Refused (w v : World) : Type 0 where
  pub apps : v.apps ≡ w.apps
  pub operations : v.operations ≡ w.operations
  pub events : v.scale_events ≡ w.scale_events
  pub cluster : v.cluster ≡ w.cluster

check_budget-Refused :
    (f : Faults) (now period_end : ℕ) (cfg : BudgetFlags) (claims : Option Claims)
    (slug name : String) (w : World)
    → Refused w (check_budget_and_maybe_exempt f now period_end cfg claims slug name w).0
unfolding check_budget_and_maybe_exempt
check_budget-Refused f now period_end cfg claims slug name w = record {
  apps = ground arith;
  operations = ground arith;
  events = ground arith;
  cluster = ground arith;
}

-- An operation that is not made has run nothing.
launch-refused :
    (f : Faults) (error : Fault → String) (now : ℕ) (run : String → World → World)
    (op : Option String) (slug name kind : String) (w v : World) (e : Fault)
    → then_run f error now run (new_operation f op slug name kind) w ≡ (v, err e)
    → v ≡ w
unfolding create_operation
launch-refused f error now run none slug name kind w v e g = ground (arith, g)
launch-refused f error now run (some id) slug name kind w v e g = ground (arith, g)

same-Refused : (w v : World) → v ≡ w → Refused w v
same-Refused w v e = record {
  apps = ap (λ (x : World). x.apps) e;
  operations = ap (λ (x : World). x.operations) e;
  events = ap (λ (x : World). x.scale_events) e;
  cluster = ap (λ (x : World). x.cluster) e;
}

find_app-same :
    (f : Faults) (claims : Option Claims) (org repo name : String) (w : World)
    → ((authorize claims org repo >> find_app f (repo_slug org repo) name) w).0 ≡ w
find_app-same f claims org repo name w = ground arith

unless_blocked-Refused :
    (f : Faults) (error : Fault → String) (now period_end : ℕ) (cfg : BudgetFlags)
    (claims : Option Claims) (slug name : String) (w : World)
    → Refused w
        ((check_budget_and_maybe_exempt f now period_end cfg claims slug name
            >>= unless_blocked f error now)
          w).0
unless_blocked-Refused f error now period_end cfg claims slug name w =
    let (w1, r) = check_budget_and_maybe_exempt f now period_end cfg claims slug name w in
    go w1 r (check_budget-Refused f now period_end cfg claims slug name w)
  where
    go :
        (w1 : World) (r : Result Fault Bool)
        → Refused w w1
        → Refused w (continue (unless_blocked f error now) w1 r).0
    go w1 (ok true) c = c
    go w1 (ok false) c = c
    go w1 (err x) c = c

-- A request for a wake that is answered with an error, at whichever call, has changed no app, no
-- operation, no scale event and nothing in the cluster.
pub wake_request-Refused :
    (f : Faults) (error : Fault → String) (now period_end : ℕ) (cfg : BudgetFlags)
    (claims : Option Claims) (org repo name : String) (op : Option String) (w v : World) (e : Fault)
    → wake_request f error now period_end cfg claims org repo name op w ≡ (v, err e)
    → Refused w v
unfolding wake_request
wake_request-Refused f error now period_end cfg claims org repo name op w v e =
    let slug = repo_slug org repo in
    let checks =
      check_budget_and_maybe_exempt f now period_end cfg claims slug name
      >>= unless_blocked f error now in
    let run : App → String → World → World =
      λ a id. wake_app f error now id a.id a.app_type name (namespace_or_empty a.namespace) in
    let start : App → M String =
      λ a. then_run f error now (run a) (new_operation f op slug name "wake") in
    let reads = authorize claims org repo >> find_app f slug name in
    let u = (reads w).0 in
    let at_start : u ≡ w = find_app-same f claims org repo name w in
    let kept : Refused w (checks u).0 =
      subst (λ (x : World). Refused x (checks u).0) at_start
        (unless_blocked-Refused f error now period_end cfg claims slug name u) in
    let next : App → M String = λ a. checks >> start a in
    bind-refused (Refused w) reads next w v e (same-Refused w u at_start) (λ a h.
      bind-refused (Refused w) checks (λ _. start a) u v e kept
        (λ _ g.
          subst (Refused w)
            (sym (launch-refused f error now (run a) op slug name "wake" (checks u).0 v e g)) kept)
        h)
