-- ===== src/Models/Event.antt =====
-- Task events: src/models/event.rs.
use guigu_agent_bridge.Prelude.{ℕ}
use guigu_agent_bridge.Prelude.Texts.{Text}
use guigu_agent_bridge.Models.Task.{TaskId, EventId, DeliveryId, DateTime, TaskStatus}

pub data TaskEventPayload : Type 0 where
  queued : TaskEventPayload
  dispatched : DeliveryId → ℕ → TaskEventPayload
  running : DateTime → TaskEventPayload
  completed : Text → TaskEventPayload
  failed : Text → TaskEventPayload
  timed_out : DateTime → TaskEventPayload
  cancelled : Text → TaskEventPayload

pub record TaskEvent : Type 0 where
  pub id : EventId
  pub task_id : TaskId
  pub seq : ℕ  -- u64
  pub status : TaskStatus
  pub timestamp : DateTime
  pub payload : TaskEventPayload
