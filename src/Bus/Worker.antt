-- ===== src/Bus/Worker.antt =====
-- The worker of src/bus/worker.rs: from a dequeued task to its terminal event.
pub mod World
pub mod Events
pub mod Stages
pub mod Execution
pub mod Process
pub mod Trace
pub mod Rules
pub mod StageRules
pub mod RefusalRules
pub mod DeliveryRules
pub mod ExecutionRules
pub mod Grammar
pub mod Lifecycle
pub mod Run
pub mod Drain
pub mod Backlog
pub mod Examples
