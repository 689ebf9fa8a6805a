-- ===== src/Spend/Unchanged.antt =====
-- Reads of the cost and of the exemptions that the roll-over of a billing period does not change:
-- totalCost of internal/watchers/budget.go.
use morsel.Prelude.{
  ℕ, true, ◌≡◌, refl, List, [], ◌∷◌, String, arith, All, Option-cases, inl, inr, pos,
}
use morsel.Apps.Models.{App, World, Exemption, BudgetFlags, Faults}
use morsel.Apps.Tables.{is_app_exempt, exempts, expire_period_exemptions}
use morsel.Apps.Budget.{Spares}
use morsel.Tiers.Tables.{Tier, Repo, get_tier}
use morsel.Spend.Double.{Double}
use morsel.Spend.Estimate.{
  PriceSnapshot, PlatformConfig, Platform, list_apps_by_repo, app_cost, app_costs, repo_cost,
  repo_costs, total_cost,
}
use morsel.Spend.Watcher.{same_flags}

abbrev pub with_exemptions : List Exemption → World → World
with_exemptions table w = record w { store = record w.store { exemptions = table } }

module _ {W : Type 0} ⦃d : Double W⦄ (f : Faults) (now : ℕ) (period_start : ℕ) where
  app_costs-exemptions :
      (tier : Tier) (prices : PriceSnapshot W) (table : List Exemption) (w : World)
      (apps : List App) (total : W)
      → app_costs f now period_start tier prices (with_exemptions table w) apps total
        ≡ app_costs f now period_start tier prices w apps total
  unfolding app_costs app_cost
  app_costs-exemptions tier prices table w [] total = refl
  app_costs-exemptions tier prices table w (a ∷ apps) total =
      app_costs-exemptions tier prices table w apps
        (app_cost f now period_start tier prices w a total)

  -- The platform with other exemptions and another configuration.
  abbrev pub altered : Platform W → List Exemption → PlatformConfig W → Platform W
  altered p table cfg = record p { world = with_exemptions table p.world; config = cfg }

  repo_cost-altered :
      (p : Platform W) (table : List Exemption) (cfg : PlatformConfig W) (prices : PriceSnapshot W)
      (r : Repo)
      → repo_cost f now period_start (altered p table cfg) prices r
        ≡ repo_cost f now period_start p prices r
  unfolding repo_cost
  repo_cost-altered p table cfg prices r = elim (Option-cases (get_tier r.tier p.tiers)) [
    | inl n ↦ rw n refl
    | inr (tier, n) ↦
        rw
          (
            n,
            app_costs-exemptions tier prices table p.world (list_apps_by_repo r.slug p.world.apps)
                (d.of_int (pos 0)),
          )
          refl
  ]

  repo_costs-altered :
      (p : Platform W) (table : List Exemption) (cfg : PlatformConfig W) (prices : PriceSnapshot W)
      (rs : List Repo) (total : W)
      → repo_costs f now period_start (altered p table cfg) prices rs total
        ≡ repo_costs f now period_start p prices rs total
  unfolding repo_costs
  repo_costs-altered p table cfg prices [] total = refl
  repo_costs-altered p table cfg prices (r ∷ rs) total =
      rw (repo_cost-altered p table cfg prices r) (
        repo_costs-altered p table cfg prices rs
          (d.plus total (repo_cost f now period_start p prices r)))

  pub total_cost-altered :
      (p : Platform W) (table : List Exemption) (cfg : PlatformConfig W)
      → total_cost f now period_start (altered p table cfg) ≡ total_cost f now period_start p
  unfolding total_cost
  total_cost-altered p table cfg = elim (Option-cases p.prices) [
    | inl n ↦ rw n refl
    | inr (prices, n) ↦
        rw (n, repo_costs-altered p table cfg prices p.repos (d.of_int (pos 0))) refl
  ]

pub same_flags-eq : (a b : BudgetFlags) → same_flags a b ≡ true → a ≡ b
same_flags-eq a b e = ground arith

-- An exemption that has ended is none any more.
expire-exempts :
    (now : ℕ) (slug name : String) (table : List Exemption)
    → is_app_exempt now slug name (expire_period_exemptions now table)
      ≡ is_app_exempt now slug name table
unfolding is_app_exempt expire_period_exemptions exempts
expire-exempts now slug name [] = refl
expire-exempts now slug name (x ∷ table) = ground (arith, expire-exempts now slug name table)

pub expire-Spares :
    (f : Faults) (now : ℕ) (ns : String) (table : List Exemption) (apps : List App)
    → All (Spares f now ns table) apps
    → All (Spares f now ns (expire_period_exemptions now table)) apps
unfolding Spares
expire-Spares f now ns table [] h = tt
expire-Spares f now ns table (a ∷ apps) (here, there) = (
  λ e. rw (expire-exempts now a.repo_slug a.name table) (here e),
  expire-Spares f now ns table apps there,
)
