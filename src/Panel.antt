-- ===== src/Panel.antt =====
-- api/panel and common/format: what the panel sends and is sent, as the node sees it.
pub mod Types
pub mod Format
pub mod Protocol
pub mod Client
