-- ===== src/Bus.antt =====
-- The agent bus (src/bus).
pub mod Error
pub mod Control
pub mod Registry
pub mod Queue
pub mod Policy
pub mod Worker
pub mod Memory
pub mod Fanout
