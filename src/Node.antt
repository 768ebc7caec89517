-- ===== src/Node.antt =====
-- The node package: users of an inbound kept in step with the panel.
pub mod UserList
pub mod Controller
pub mod Lifecycle
mod Examples
