-- ===== src/Traffic.antt =====
-- User traffic on its way to the panel: the counters of common/counter, what core/user.go takes off
-- them, and the queue of node/traffic.go that holds it until the panel has acknowledged it.
pub mod Word
pub mod Counter
pub mod Slice
pub mod Queue
mod Examples
