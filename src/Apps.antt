-- ===== src/Apps.antt =====
-- The apps of the control plane (cmd/morsel-ctrl-plane): their rows, their workloads in the
-- cluster, and what puts them to sleep and wakes them.
pub mod Models
pub mod Tables
pub mod Cluster
pub mod Lifecycle
pub mod Rows
pub mod Deploy
pub mod Shows
pub mod Outcome
pub mod Redeploy
pub mod Requests
pub mod Override
pub mod Hibernation
pub mod Traffic
pub mod Idle
pub mod Budget
pub mod Examples
mod DeployExamples
pub mod Exemptions
