-- ===== src/Spend.antt =====
-- The budget of the platform: internal/cost/cost.go and internal/watchers/budget.go of
-- cmd/morsel-ctrl-plane.
pub mod Double
pub mod Estimate
pub mod Watcher
pub mod Unchanged
pub mod Limits
pub mod HardLimit
mod Examples
