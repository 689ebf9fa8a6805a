-- ===== src/Wake/Blocked.antt =====
-- The two checks of the budget before a wake: that of the wake endpoint (isBudgetBlocked of
-- internal/api/mux.go) and that of WakeApp (internal/api/handler/apps.go).
use morsel.Prelude.{
  List, All, ℕ, ◌≡◌, true, false, Option, String, ok, arith, Bool, refl, none, Bool-cases, inl, inr,
  ap, ◌∙◌, ◌≢◌, ◌<◌,
}
use morsel.Auth.Claims.{Claims}
use morsel.Apps.Models.{BudgetFlags, Faults, World, read_config, check_exempt}
use morsel.Apps.Requests.{is_operator, check_budget_and_maybe_exempt}
use morsel.Wake.Handler.{is_budget_blocked}
use morsel.Apps.Exemptions.{Change, alters, InPeriod}
use morsel.Apps.Override.{limited, override_lasts}
use morsel.Apps.Tables.{is_app_exempt}

-- Where the configuration and the exemptions can be read, the wake endpoint holds an app back by
-- the budget exactly when the check of WakeApp holds back a caller who is not an operator, and that
-- check changes nothing.
pub is_budget_blocked-check :
    (f : Faults) (now period_end : ℕ) (cfg : BudgetFlags) (claims : Option Claims)
    (slug name : String) (w : World)
    → f read_config ≡ false
    → f check_exempt ≡ false
    → is_operator claims ≡ false
    → (check_budget_and_maybe_exempt f now period_end cfg claims slug name w)
      ≡ (w, ok (is_budget_blocked f now cfg slug name w))
unfolding is_budget_blocked check_budget_and_maybe_exempt
is_budget_blocked-check f now period_end cfg claims slug name w config exempt caller =
    ground (arith, config, exempt, caller)

not_true : (b : Bool) → b ≢ true → b ≡ false
not_true true h = absurd (h refl)
not_true false h = refl

-- If an operator's wake passes the check of the budget while a limit is active and the app is not
-- exempt, the wake endpoint does not hold the app back before the end of that billing period, where the
-- exemptions can be read, whatever changes of that period the exemptions have seen since.
pub override_opens :
    (f f' : Faults) (now later period_end : ℕ) (cfg cfg' : BudgetFlags) (claims : Option Claims)
    (slug name : String) (w v x : World) (cs : List Change)
    → is_operator claims ≡ true
    → limited cfg ≡ true
    → is_app_exempt now slug name w.exemptions ≡ false
    → check_budget_and_maybe_exempt f now period_end cfg claims slug name w ≡ (v, ok false)
    → All (InPeriod period_end) cs
    → x.exemptions ≡ alters cs v.exemptions
    → later < period_end
    → f' check_exempt ≡ false
    → is_budget_blocked f' later cfg' slug name x ≡ false
unfolding is_budget_blocked
override_opens f f' now later period_end cfg cfg' claims slug name w v x cs o l e g inside unchanged
      before works =
    elim (Bool-cases (f' read_config)) [
      | inl broken ↦ ground (arith, broken)
      | inr read ↦
          let lasts =
            override_lasts f f' now later period_end period_end cfg cfg' claims none slug name w v x
              cs o l e g inside unchanged before in
          let same =
            is_budget_blocked-check f' later period_end cfg' none slug name x read works refl in
          not_true (is_budget_blocked f' later cfg' slug name x)
            (λ t. lasts (ap (λ x. x.1) same ∙ ap ok t))
    ]
