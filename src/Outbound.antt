-- ===== src/Outbound.antt =====
-- core/outbound: the outbounds, the routes and the name servers that the panel's configuration asks for.
pub mod Domains
pub mod Settings
pub mod Stream
pub mod Build
mod Examples
