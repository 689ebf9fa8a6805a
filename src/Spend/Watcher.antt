-- ===== src/Spend/Watcher.antt =====
-- The watcher of the budget: tick of internal/watchers/budget.go. The key and the start of the
-- billing period, which the calendar gives, are arguments.
use morsel.Prelude.{List, [], ◌∷◌, ℕ, Bool, true, false, not, ◌&&◌, String, str_eq, if◌then◌else◌}
use morsel.Apps.Models.{World, BudgetFlags, Faults, read_config, update_config, expire_exemptions}
use morsel.Apps.Tables.{expire_period_exemptions}
use morsel.Apps.Budget.{force_hibernate_all}
use morsel.Spend.Double.{Double}
use morsel.Spend.Estimate.{PlatformConfig, Platform, total_cost}

abbrev pub no_flags : BudgetFlags
no_flags = record { budget_soft_limit_active = false; budget_hard_limit_active = false }

-- A failed deletion is logged and no more.
unfoldable pub expire : Faults → ℕ → World → World
unfolding expire_period_exemptions
expire f now w = if f expire_exemptions then w else record w {
  store = record w.store { exemptions = expire_period_exemptions now w.exemptions };
}

abbrev bool_eq : Bool → Bool → Bool
bool_eq true b = b
bool_eq false b = not b

abbrev pub same_flags : BudgetFlags → BudgetFlags → Bool
same_flags a b =
    bool_eq a.budget_soft_limit_active b.budget_soft_limit_active
    && bool_eq a.budget_hard_limit_active b.budget_hard_limit_active

module _ {W : Type 0} ⦃d : Double W⦄ where
  -- The limits that the total has reached.
  unfoldable pub level : PlatformConfig W → W → BudgetFlags
  level cfg total =
      let ceiling = cfg.budget_ceiling_monthly in
      if d.le (d.times ceiling cfg.hard_limit_pct) total
      then record { budget_soft_limit_active = true; budget_hard_limit_active = true }
      else if d.le (d.times ceiling cfg.soft_limit_pct) total
      then record { budget_soft_limit_active = true; budget_hard_limit_active = false }
      else no_flags

  module _ (f : Faults) (now : ℕ) (key : String) (period_start : ℕ) where
    abbrev pub set_flags : BudgetFlags → Platform W → Platform W
    set_flags flags p = record p { config = record p.config { flags = flags } }

    -- The apps are put to sleep when the hard limit is newly reached, and the flags are written when
    -- they change.
    unfoldable pub enforce : Platform W → Platform W
    unfolding level total_cost force_hibernate_all
    enforce p =
        let flags = level p.config (total_cost f now period_start p) in
        let world =
          if flags.budget_hard_limit_active && not p.config.flags.budget_hard_limit_active
          then force_hibernate_all f now p.world
          else p.world in
        let q = record p { world = world } in
        if same_flags flags p.config.flags
        then q
        else if f update_config
        then q
        else set_flags flags q

    -- A new period clears the flags and drops the exemptions that have ended; the first period of all
    -- is only noted.
    unfoldable pub roll_over : Platform W → Platform W
    unfolding expire
    roll_over p =
        if not (str_eq p.config.billing_period "") && not (str_eq p.config.billing_period key)
        then record p {
          world = expire f now p.world;
          config = record p.config { flags = no_flags };
        }
        else p

    unfoldable pub tick : Platform W → Platform W
    unfolding roll_over enforce
    tick p =
        if f read_config
        then p
        else if str_eq p.config.billing_period key
        then enforce p
        else if f update_config
        then record p { world = (roll_over p).world }
        else let q = roll_over p in
          enforce (record q { config = record q.config { billing_period = key } })

-- The ticks of a run, each with its faults and its time.
module _ {W : Type 0} ⦃d : Double W⦄ (key : String) (period_start : ℕ) where
  unfoldable pub ticks : List (Faults × ℕ) → Platform W → Platform W
  unfolding tick
  ticks [] p = p
  ticks ((f, now) ∷ rest) p = ticks rest (tick f now key period_start p)
