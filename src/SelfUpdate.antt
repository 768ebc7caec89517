-- ===== src/SelfUpdate.antt =====
-- internal/selfupdate and cmd/upgrade.go: the program replaces its own binary by a release.
pub mod Version
pub mod Release
pub mod Replace
pub mod Apply
mod Examples
