-- ===== src/Models.antt =====
-- The domain models of the bridge: tasks, events and endpoints (src/models).
pub mod Task
pub mod Conversation
pub mod Event
pub mod Agent
pub mod Tests
