-- ===== src/Lint.antt =====
-- The linter of morsel.json files: cmd/morsel/internal/lint and the lint command of
-- cmd/morsel/internal/cli/lint.go.
pub mod Files
pub mod Checks
pub mod Names
pub mod Totals
pub mod Shared
pub mod Fix
pub mod Verdict
pub mod Canonical
pub mod Command
mod Examples
