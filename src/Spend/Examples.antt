-- ===== src/Spend/Examples.antt =====
-- A tick of the watcher at a concrete platform, with whole numbers for the arithmetic.
use morsel.Prelude.{
  ℕ, ◌+◌, ◌*◌, ◌/◌, ◌||◌, ◌≡◌, refl, true, false, [], ◌∷◌, none, some, All, leb, pos, pos_part,
}
use morsel.Apps.Models.{BudgetFlags, World}
use morsel.Apps.Tables.{list_all_apps, is_app_exempt}
use morsel.Apps.Cluster.{workload_of}
use morsel.Apps.Budget.{Spares}
use morsel.Apps.Examples.{world, no_faults}
use morsel.Tiers.Tables.{Tier}
use morsel.Spend.Double.{Double}
use morsel.Spend.Estimate.{PlatformConfig, Platform, total_cost}
use morsel.Spend.HardLimit.{Over, ticks_within_hard}
use morsel.Spend.Watcher.{ticks, tick}
use morsel.Spend.Limits.{reached, tick-config, workload_of-tick}

instance abbrev whole : Double ℕ
whole = record {
  of_int = pos_part;
  hours = λ t. pos_part t / 3600000000000;
  plus = λ a b. a + b;
  times = λ a b. a * b;
  over = λ a b. a / b;
  le = leb;
}

abbrev config : PlatformConfig ℕ
config = record {
  budget_ceiling_monthly = 100;
  soft_limit_pct = 1;
  hard_limit_pct = 2;
  flags = record { budget_soft_limit_active = false; budget_hard_limit_active = false };
  billing_period = "2026-10";
}

abbrev small : Tier
small = record {
  name = "small";
  max_apps = pos 5;
  cpu_milli = pos 2000;
  memory_mb = pos 2048;
  blob_gb = pos 1;
  database_gb = pos 5;
  queue_gb = pos 1;
  hibernate_after = "24h";
  is_default = true;
  updated_at = 0;
}

-- The app is exempt from the limits.
abbrev spared : World
spared = record world {
  store = record world.store {
    exemptions =
        record {
          kind = "app";
          repo_slug = "org/repo";
          app_name = "web";
          exemption_type = "explicit";
          expires_at = none;
        }
        ∷ [];
  };
}

abbrev platform : Platform ℕ
platform = record {
  config = config;
  prices = some (record {
    compute_cpu_per_core_hour = 3;
    compute_mem_per_gb_hour = 1;
    storage_per_gb_month = 2;
  });
  tiers = small ∷ [];
  repos = record { slug = "org/repo"; tier = "small" } ∷ [];
  world = spared;
}

abbrev over_hard : Platform ℕ
over_hard = record platform {
  config = record config {
    flags = record { budget_soft_limit_active = true; budget_hard_limit_active = true };
  };
}

-- Forty hours into the period.
abbrev now : ℕ
now = 144000000000000

tick-config_example : (tick no_faults now "2026-11" 0 platform).config ≡ record config {
  flags = record {
    budget_soft_limit_active =
        reached config.hard_limit_pct (total_cost no_faults now 0 platform) config
        || reached config.soft_limit_pct (total_cost no_faults now 0 platform) config;
    budget_hard_limit_active =
        reached config.hard_limit_pct (total_cost no_faults now 0 platform) config;
  };
  billing_period = "2026-11";
}
tick-config_example = tick-config no_faults now "2026-11" 0 platform refl refl

web-Spares :
    All (Spares no_faults now "org-repo--web" spared.exemptions) (list_all_apps spared.apps)
unfolding list_all_apps Spares is_app_exempt
web-Spares = ((λ e. refl), tt)

workload_of-tick_example :
    workload_of (tick no_faults now "2026-11" 0 platform).world "org-repo--web"
    ≡ workload_of spared "org-repo--web"
workload_of-tick_example =
    workload_of-tick no_faults now "2026-11" 0 platform "org-repo--web" web-Spares

reached_twice : All (Over "2026-10" 0 over_hard) ((no_faults, now) ∷ (no_faults, 2 * now) ∷ [])
unfolding total_cost
reached_twice = (refl, (refl, tt))

ticks_within_hard_example :
    (flags : BudgetFlags) × (ticks "2026-10" 0
        ((no_faults, now) ∷ (no_faults, 2 * now) ∷ [])
        over_hard
      ≡ record over_hard { config = record over_hard.config { flags = flags } })
ticks_within_hard_example =
    ticks_within_hard "2026-10" 0 over_hard ((no_faults, now) ∷ (no_faults, 2 * now) ∷ []) refl refl
      reached_twice

-- Forty hours of two cores and two gigabytes, and six gigabytes of storage.
costs : total_cost no_faults now 0 platform ≡ 332
unfolding total_cost
costs = refl
