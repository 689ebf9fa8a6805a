-- ===== src/Names.antt =====
-- The names of repos, namespaces and hosts: internal/names of cmd/morsel-ctrl-plane, and AppNamespace of
-- internal/kube/namespace.go.
pub mod Slugs
pub mod Namespaces
mod Examples
