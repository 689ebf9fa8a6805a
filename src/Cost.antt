-- ===== src/Cost.antt =====
-- The cost estimates: internal/cost/cost.go of cmd/morsel-ctrl-plane.
pub mod Hours
pub mod Instants
pub mod Running
mod Examples
