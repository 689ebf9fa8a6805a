-- ===== src/Auth.antt =====
-- Who may do what: the tokens, principals and bootstrap of the control plane
-- (internal/tokens, internal/api/handler of cmd/morsel-ctrl-plane).
pub mod Claims
pub mod Tables
pub mod Access
pub mod Refresh
pub mod Login
pub mod Principals
pub mod Stages
pub mod Unique
pub mod WellFormed
pub mod Tokens
pub mod Grants
pub mod Replay
pub mod Race
pub mod Flags
pub mod Roles
pub mod Secret
pub mod Setup
pub mod Scope
pub mod Requests
mod Examples
