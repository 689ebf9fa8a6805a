-- ===== src/Spend/Estimate.antt =====
-- The estimated cost of the platform in the running billing period: EstimateAppCostMonthly of
-- internal/cost/cost.go, totalCost and repoCost of internal/watchers/budget.go.
use morsel.Prelude.{
  ℕ, not, ◌&&◌, List, [], ◌∷◌, Option, none, some, String, str_eq, if◌then◌else◌, pos, select,
}
use morsel.Apps.Models.{
  App, BudgetFlags, World, Faults, list_repos, read_tier, list_repo_apps, read_prices, list_events,
}
use morsel.Apps.Tables.{list_scale_events_since}
use morsel.Tiers.Tables.{Tier, Repo, get_tier}
use morsel.Cost.Hours.{running_time}
use morsel.Spend.Double.{Double}

pub record PriceSnapshot (W : Type 0) : Type 0 where
  pub compute_cpu_per_core_hour : W
  pub compute_mem_per_gb_hour : W
  pub storage_per_gb_month : W

pub record PlatformConfig (W : Type 0) : Type 0 where
  pub budget_ceiling_monthly : W
  pub soft_limit_pct : W
  pub hard_limit_pct : W
  pub flags : BudgetFlags
  pub billing_period : String

-- What the watcher reads and writes. The latest prices are there once they have been fetched.
pub record Platform (W : Type 0) : Type 0 where
  pub config : PlatformConfig W
  pub prices : Option (PriceSnapshot W)
  pub tiers : List Tier
  pub repos : List Repo
  pub world : World

-- The apps of a repo that are not being deleted.
unfoldable pub list_apps_by_repo : String → List App → List App
list_apps_by_repo slug apps = select (λ a. str_eq a.repo_slug slug && not a.deletion_pending) apps

module _ {W : Type 0} ⦃d : Double W⦄ where
  unfoldable pub estimate_app_cost_monthly : Tier → W → PriceSnapshot W → W
  estimate_app_cost_monthly tier hours prices =
      let cpu_cores = d.over (d.of_int tier.cpu_milli) (d.of_int (pos 1000)) in
      let mem_gb = d.over (d.of_int tier.memory_mb) (d.of_int (pos 1024)) in
      let compute = d.times hours (
        d.plus (d.times cpu_cores prices.compute_cpu_per_core_hour)
          (d.times mem_gb prices.compute_mem_per_gb_hour)) in
      let storage =
        d.plus (d.times (d.of_int tier.blob_gb) prices.storage_per_gb_month)
          (d.times (d.of_int tier.database_gb) prices.storage_per_gb_month) in
      d.plus compute storage

  module _ (f : Faults) (now period_start : ℕ) where
    -- An app without a namespace, or whose events cannot be read, adds nothing.
    unfoldable pub app_cost : Tier → PriceSnapshot W → World → App → W → W
    unfolding list_scale_events_since running_time estimate_app_cost_monthly
    app_cost tier prices w a total = elim a.namespace [
      | none ↦ total
      | some ns ↦
          if str_eq ns ""
          then total
          else if f list_events
          then total
          else d.plus total (
              estimate_app_cost_monthly tier
                (d.hours (
                  running_time (list_scale_events_since ns a.name period_start w.scale_events)
                    period_start now a.hibernated))
                prices)
    ]

    unfoldable pub app_costs : Tier → PriceSnapshot W → World → List App → W → W
    unfolding app_cost
    app_costs tier prices w [] total = total
    app_costs tier prices w (a ∷ rest) total =
        app_costs tier prices w rest (app_cost tier prices w a total)

    unfoldable pub repo_cost : Platform W → PriceSnapshot W → Repo → W
    unfolding get_tier list_apps_by_repo app_costs
    repo_cost p prices repo =
        if f read_tier then d.of_int (pos 0) else elim (get_tier repo.tier p.tiers) [
          | none ↦ d.of_int (pos 0)
          | some tier ↦
              if f list_repo_apps
              then d.of_int (pos 0)
              else app_costs tier prices p.world (list_apps_by_repo repo.slug p.world.apps)
                  (d.of_int (pos 0))
        ]

    unfoldable pub repo_costs : Platform W → PriceSnapshot W → List Repo → W → W
    unfolding repo_cost
    repo_costs p prices [] total = total
    repo_costs p prices (r ∷ rest) total =
        repo_costs p prices rest (d.plus total (repo_cost p prices r))

    -- Without prices the platform costs nothing.
    unfoldable pub total_cost : Platform W → W
    unfolding repo_costs
    total_cost p = if f read_prices then d.of_int (pos 0) else elim p.prices [
      | none ↦ d.of_int (pos 0)
      | some prices ↦
          if f list_repos then d.of_int (pos 0) else repo_costs p prices p.repos (d.of_int (pos 0))
    ]
