-- ===== src/Dispatcher.antt =====
-- core/app/dispatcher: the dispatcher of links, from the sniffing of the first bytes to the outbound
-- that handles the link.
pub mod Sniffer
pub mod Content
pub mod Override
pub mod Route
pub mod Link
pub mod Dispatch
mod Examples
