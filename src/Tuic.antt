-- ===== src/Tuic.antt =====
-- core/transport/tuic: the TUIC v5 wire format, UDP relay messages, their fragments and sessions.
pub mod Net
pub mod Reader
pub mod Protocol
pub mod Message
pub mod Defrag
pub mod Fragment
pub mod Transfer
pub mod Connection
pub mod Session
pub mod Sending
mod Examples
