-- ===== src/Tiers.antt =====
-- The tiers of the control plane: internal/api/handler/tiers.go, with the statements it calls.
pub mod Tables
pub mod Handlers
pub mod Invariant
pub mod Removal
pub mod Requests
pub mod Limit
mod Examples
