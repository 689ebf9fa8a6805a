-- ===== src/Health.antt =====
-- The reports of health that the services share: internal/health/health.go.
pub mod Receiver
pub mod Latest
pub mod Ready
mod Examples
