-- ===== src/Keys.antt =====
-- The signing keys of the local platform: internal/platform/local/secrets.go of cmd/morsel-ctrl-plane.
pub mod Arrays
pub mod Tokens
pub mod Provision
pub mod Works
pub mod Rotation
mod Examples
