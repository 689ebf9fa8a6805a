-- ===== src/Wake.antt =====
-- The wake endpoint that the wake proxy calls: internalWakeHandler and isBudgetBlocked of
-- internal/api/mux.go, of cmd/morsel-ctrl-plane.
pub mod Handler
pub mod Outcome
pub mod Single
pub mod Blocked
pub mod Proxy
mod Examples
