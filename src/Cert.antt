-- ===== src/Cert.antt =====
-- The certificates of a node: node/cert.go and node/lego.go.
pub mod Store
pub mod Usable
pub mod Request
pub mod Dns
mod Examples
