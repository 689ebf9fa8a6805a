-- ===== src/Spend/HardLimit.antt =====
-- The ticks of the watcher while the hard limit is active and reached: internal/watchers/budget.go.
use morsel.Prelude.{
  ℕ, true, false, ◌≡◌, refl, ap, ◌∙◌, List, String, str_eq, arith, All, Bool-cases, inl, inr,
  if_true, ◌||◌, [], ◌∷◌,
}
use morsel.Apps.Models.{BudgetFlags, Faults, read_config, update_config}
use morsel.Spend.Double.{Double}
use morsel.Spend.Estimate.{Platform, total_cost}
use morsel.Spend.Watcher.{same_flags, level, enforce, tick, ticks}
use morsel.Spend.Unchanged.{total_cost-altered}
use morsel.Spend.Limits.{tick-same}

module _ {W : Type 0} ⦃d : Double W⦄ (f : Faults) (now : ℕ) (key : String) (period_start : ℕ) where
  abbrev with_flags : BudgetFlags → Platform W → Platform W
  with_flags flags p = record p { config = record p.config { flags = flags } }

  tick-unread : (p : Platform W) → f read_config ≡ true → tick f now key period_start p ≡ p
  unfolding tick
  tick-unread p r = if_true (f read_config) p _ r

  enforce-kept :
      (p : Platform W)
      → p.config.flags.budget_hard_limit_active ≡ true
      → d.le
          (d.times p.config.budget_ceiling_monthly p.config.hard_limit_pct)
          (total_cost f now period_start p)
        ≡ true
      → (same_flags
            (record { budget_soft_limit_active = true; budget_hard_limit_active = true })
            p.config.flags
          || f update_config)
        ≡ true
      → enforce f now key period_start p ≡ p
  unfolding enforce level
  enforce-kept p hard over e = ground (arith, over, hard, e)

  enforce-written :
      (p : Platform W)
      → p.config.flags.budget_hard_limit_active ≡ true
      → d.le
          (d.times p.config.budget_ceiling_monthly p.config.hard_limit_pct)
          (total_cost f now period_start p)
        ≡ true
      → (same_flags
            (record { budget_soft_limit_active = true; budget_hard_limit_active = true })
            p.config.flags
          || f update_config)
        ≡ false
      → enforce f now key period_start p
        ≡ with_flags (record { budget_soft_limit_active = true; budget_hard_limit_active = true }) p
  unfolding enforce level
  enforce-written p hard over e = ground (arith, over, hard, e)

  -- A tick in the period with the hard limit active and still reached.
  tick-hard :
      (p : Platform W)
      → str_eq p.config.billing_period key ≡ true
      → p.config.flags.budget_hard_limit_active ≡ true
      → d.le
          (d.times p.config.budget_ceiling_monthly p.config.hard_limit_pct)
          (total_cost f now period_start p)
        ≡ true
      → (flags : BudgetFlags) × (flags.budget_hard_limit_active ≡ true)
        × (tick f now key period_start p ≡ record p { config = record p.config { flags = flags } })
  tick-hard p same hard over =
      let both : BudgetFlags = record {
        budget_soft_limit_active = true;
        budget_hard_limit_active = true;
      } in
      elim (Bool-cases (f read_config)) [
        | inl r ↦ (p.config.flags, hard, tick-unread p r)
        | inr r ↦ elim (Bool-cases (same_flags both p.config.flags || f update_config)) [
          | inl e ↦ (
            p.config.flags,
            hard,
            tick-same f now key period_start p r same ∙ enforce-kept p hard over e,
          )
          | inr e ↦ (
            both,
            refl,
            tick-same f now key period_start p r same ∙ enforce-written p hard over e,
          )
        ]
      ]

module _ {W : Type 0} ⦃d : Double W⦄ (key : String) (period_start : ℕ) where
  -- The total cost reaches the hard limit.
  abbrev pub Over : Platform W → Faults × ℕ → Type 0
  Over p (f, now) =
      d.le (d.times p.config.budget_ceiling_monthly p.config.hard_limit_pct)
        (total_cost f now period_start p)
      ≡ true

  Over-flags :
      (p : Platform W) (flags : BudgetFlags) (ts : List (Faults × ℕ))
      → All (Over p) ts
      → All (Over (record p { config = record p.config { flags = flags } })) ts
  Over-flags p flags [] h = tt
  Over-flags p flags ((f, now) ∷ ts) (here, there) = (
    ap (d.le (d.times p.config.budget_ceiling_monthly p.config.hard_limit_pct)) (
          total_cost-altered f now period_start p p.world.exemptions
            (record p.config { flags = flags }))
        ∙ here,
    Over-flags p flags ts there,
  )

  -- From a configuration in the running period with the hard limit active, any number of ticks in
  -- that period, at each of which the total cost reaches the hard limit, change nothing but the
  -- flags, whichever calls fail: an app that has been started since the limit was reached is not
  -- put to sleep.
  pub ticks_within_hard :
      (p : Platform W) (ts : List (Faults × ℕ))
      → str_eq p.config.billing_period key ≡ true
      → p.config.flags.budget_hard_limit_active ≡ true
      → All (Over p) ts
      → (flags : BudgetFlags) × (ticks key period_start ts p
          ≡ record p { config = record p.config { flags = flags } })
  unfolding ticks
  ticks_within_hard p [] same hard h = (p.config.flags, refl)
  ticks_within_hard p ((f, now) ∷ ts) same hard (here, there) =
      let (flags, still, e) = tick-hard f now key period_start p same hard here in
      let q = record p { config = record p.config { flags = flags } } in
      let (last, rest) = ticks_within_hard q ts same still (Over-flags p flags ts there) in
      (last, ap (ticks key period_start ts) e ∙ rest)
