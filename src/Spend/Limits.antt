-- ===== src/Spend/Limits.antt =====
-- What a tick of the watcher does to the limits and to the apps: internal/watchers/budget.go.
use morsel.Prelude.{
  ℕ, Bool, true, false, not, ◌&&◌, ◌||◌, ◌≡◌, refl, sym, ap, ◌∙◌, List, String, str_eq, arith, All,
  eq_iff, Bool-cases, inl, inr, if_true, if_false,
}
use morsel.Apps.Models.{
  Workload, Exemption, BudgetFlags, Faults, read_config, update_config, expire_exemptions,
}
use morsel.Apps.Tables.{list_all_apps, expire_period_exemptions}
use morsel.Apps.Cluster.{workload_of}
use morsel.Apps.Budget.{Spares, workload_of-force_hibernate_all}
use morsel.Spend.Double.{Double}
use morsel.Spend.Estimate.{PlatformConfig, Platform, total_cost}
use morsel.Spend.Watcher.{no_flags, expire, same_flags, level, enforce, roll_over, tick}
use morsel.Spend.Unchanged.{altered, total_cost-altered, same_flags-eq, expire-Spares}

module _ {W : Type 0} ⦃d : Double W⦄ where
  -- The test of a limit: the ceiling times its share is at most the total.
  abbrev pub reached : W → W → PlatformConfig W → Bool
  reached share total cfg = d.le (d.times cfg.budget_ceiling_monthly share) total

  level-reached :
      (cfg : PlatformConfig W) (total : W)
      → level cfg total ≡ record {
        budget_soft_limit_active =
            reached cfg.hard_limit_pct total cfg || reached cfg.soft_limit_pct total cfg;
        budget_hard_limit_active = reached cfg.hard_limit_pct total cfg;
      }
  unfolding level
  level-reached cfg total = elim (Bool-cases (reached cfg.hard_limit_pct total cfg)) [
    | inl h ↦ rw h refl
    | inr h ↦ elim (Bool-cases (reached cfg.soft_limit_pct total cfg)) [
      | inl s ↦ rw (h, s) refl
      | inr s ↦ rw (h, s) refl
    ]
  ]

module _ {W : Type 0} ⦃d : Double W⦄ (f : Faults) (now : ℕ) (key : String) (period_start : ℕ) where
  enforce-config :
      (p : Platform W)
      → f update_config ≡ false
      → (enforce f now key period_start p).config
        ≡ record p.config { flags = level p.config (total_cost f now period_start p) }
  unfolding enforce
  enforce-config p u =
      let flags = level p.config (total_cost f now period_start p) in
      elim (Bool-cases (same_flags flags p.config.flags)) [
        | inl e ↦
            rw e
              (ap (λ x. record p.config { flags = x }) (sym (same_flags-eq flags p.config.flags e)))
        | inr e ↦ rw (e, u) refl
      ]

  -- The platform in the period of the key.
  abbrev in_period : Platform W → Platform W
  in_period q = record q { config = record q.config { billing_period = key } }

  pub tick-same :
      (p : Platform W)
      → f read_config ≡ false
      → str_eq p.config.billing_period key ≡ true
      → tick f now key period_start p ≡ enforce f now key period_start p
  unfolding tick
  tick-same p r n =
      if_false (f read_config) p _ r ∙ if_true (str_eq p.config.billing_period key) _ _ n

  tick-next :
      (p : Platform W)
      → f read_config ≡ false
      → str_eq p.config.billing_period key ≡ false
      → f update_config ≡ false
      → tick f now key period_start p
        ≡ enforce f now key period_start (in_period (roll_over f now key period_start p))
  unfolding tick
  tick-next p r n u =
      if_false (f read_config) p _ r
      ∙ if_false (str_eq p.config.billing_period key) _ _ n
      ∙ if_false (f update_config) _ _ u

  roll_over-altered :
      (p : Platform W)
      → (table : List Exemption) × (flags : BudgetFlags) × (roll_over f now key period_start p
          ≡ altered f now period_start p table (record p.config { flags = flags }))
  unfolding roll_over expire
  roll_over-altered p =
      elim (Bool-cases
        (not (str_eq p.config.billing_period "") && not (str_eq p.config.billing_period key))) [
          | inr e ↦ (p.world.exemptions, p.config.flags, if_false _ _ p e)
          | inl e ↦ elim (Bool-cases (f expire_exemptions)) [
            | inl x ↦ (
              p.world.exemptions,
              no_flags,
              if_true _ _ p e
                  ∙ ap (λ w. record p { world = w; config = record p.config { flags = no_flags } })
                      (if_true (f expire_exemptions) p.world _ x),
            )
            | inr x ↦ (
              expire_period_exemptions now p.world.exemptions,
              no_flags,
              if_true _ _ p e
                  ∙ ap (λ w. record p { world = w; config = record p.config { flags = no_flags } })
                      (if_false (f expire_exemptions) p.world _ x),
            )
          ]
        ]

  altered-config :
      (p : Platform W) (table : List Exemption) (flags : BudgetFlags)
      → f update_config ≡ false
      → (enforce f now key period_start (
          in_period
            (altered f now period_start p table (record p.config { flags = flags })))).config
        ≡ record p.config {
          flags = level p.config (total_cost f now period_start p);
          billing_period = key;
        }
  unfolding level
  altered-config p table flags u =
      let cfg = record p.config { flags = flags; billing_period = key } in
      enforce-config (altered f now period_start p table cfg) u
      ∙ ap (λ t. record p.config { flags = level p.config t; billing_period = key })
          (total_cost-altered f now period_start p table cfg)

  tick-level :
      (p : Platform W)
      → f read_config ≡ false
      → f update_config ≡ false
      → (tick f now key period_start p).config ≡ record p.config {
        flags = level p.config (total_cost f now period_start p);
        billing_period = key;
      }
  tick-level p r u = elim (Bool-cases (str_eq p.config.billing_period key)) [
    | inl n ↦
        let same : p.config.billing_period ≡ key =
          ground (arith, n, eq_iff p.config.billing_period key) in
        ap (λ (x : Platform W). x.config) (tick-same p r n)
        ∙ enforce-config p u
        ∙ ap
            (λ x. record p.config {
              flags = level p.config (total_cost f now period_start p);
              billing_period = x;
            })
            same
    | inr n ↦
        let (table, flags, e) = roll_over-altered p in
        ap (λ (x : Platform W). x.config) (tick-next p r n u)
        ∙ ap (λ x. (enforce f now key period_start (in_period x)).config) e
        ∙ altered-config p table flags u
  ]

  -- Where the configuration can be read and written, a tick of the watcher of the budget leaves it
  -- with the hard flag exactly if the total of totalCost reaches the hard limit, with the soft flag
  -- exactly if it reaches the hard or the soft limit, and with the key of the running period, and
  -- otherwise as it was, whatever the flags and the period were before and whatever else fails; the
  -- total is that before the tick, since the roll-over of a period does not change it.
  pub tick-config :
      (p : Platform W)
      → f read_config ≡ false
      → f update_config ≡ false
      → (tick f now key period_start p).config ≡ record p.config {
        flags = record {
          budget_soft_limit_active =
              reached p.config.hard_limit_pct (total_cost f now period_start p) p.config
              || reached p.config.soft_limit_pct (total_cost f now period_start p) p.config;
          budget_hard_limit_active =
              reached p.config.hard_limit_pct (total_cost f now period_start p) p.config;
        };
        billing_period = key;
      }
  tick-config p r u =
      tick-level p r u
      ∙ ap (λ x. record p.config { flags = x; billing_period = key })
          (level-reached p.config (total_cost f now period_start p))

  enforce-workload :
      (p : Platform W) (ns : String)
      → All (Spares f now ns p.world.exemptions) (list_all_apps p.world.apps)
      → workload_of (enforce f now key period_start p).world ns ≡ workload_of p.world ns
  unfolding enforce
  enforce-workload p ns h = ground (arith, workload_of-force_hibernate_all f now ns p.world h)

  roll_over-Spares :
      (p : Platform W) (ns : String)
      → All (Spares f now ns p.world.exemptions) (list_all_apps p.world.apps)
      → All
          (Spares f now ns (roll_over f now key period_start p).world.exemptions)
          (list_all_apps (roll_over f now key period_start p).world.apps)
  unfolding roll_over expire
  roll_over-Spares p ns h =
      elim (Bool-cases
        (not (str_eq p.config.billing_period "") && not (str_eq p.config.billing_period key))) [
          | inr e ↦ rw e h
          | inl e ↦ elim (Bool-cases (f expire_exemptions)) [
            | inl x ↦ rw (e, x) h
            | inr x ↦
                rw (e, x) (expire-Spares f now ns p.world.exemptions (list_all_apps p.world.apps) h)
          ]
        ]

  roll_over-workload :
      (p : Platform W) (ns : String)
      → workload_of (roll_over f now key period_start p).world ns ≡ workload_of p.world ns
  roll_over-workload p ns =
      let (table, flags, e) = roll_over-altered p in
      ap (λ (x : Platform W). workload_of x.world ns) e

  -- A tick leaves the workload of a namespace as it was if each app that is not being deleted and
  -- has this namespace is hibernated or exempt when the tick begins, whatever the cost, whether or
  -- not the period rolls over and whichever calls fail.
  pub workload_of-tick :
      (p : Platform W) (ns : String)
      → All (Spares f now ns p.world.exemptions) (list_all_apps p.world.apps)
      → workload_of (tick f now key period_start p).world ns ≡ workload_of p.world ns
  unfolding tick
  workload_of-tick p ns h =
      let q = roll_over f now key period_start p in
      let at : Platform W → Workload = λ x. workload_of x.world ns in
      elim (Bool-cases (f read_config)) [
        | inl r ↦ ap at (if_true (f read_config) p _ r)
        | inr r ↦ elim (Bool-cases (str_eq p.config.billing_period key)) [
          | inl n ↦ ap at (tick-same p r n) ∙ enforce-workload p ns h
          | inr n ↦ elim (Bool-cases (f update_config)) [
            | inl u ↦
                ap at (
                  if_false (f read_config) p _ r
                  ∙ if_false (str_eq p.config.billing_period key) _ _ n
                  ∙ if_true (f update_config) _ _ u)
                ∙ roll_over-workload p ns
            | inr u ↦
                ap at (tick-next p r n u)
                ∙ enforce-workload (in_period q) ns (roll_over-Spares p ns h)
                ∙ roll_over-workload p ns
          ]
        ]
      ]
