-- ===== src/Acp.antt =====
-- The ACP adapter, src/acp.
pub mod Detail
pub mod Framing
pub mod JsonRpc
pub mod Output
