-- ===== src/Core.antt =====
-- The core package: users of the running xray core.
pub mod Accounts
pub mod Users
pub mod Validate
mod Examples
