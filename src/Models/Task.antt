-- ===== src/Models/Task.antt =====
-- Tasks: src/models/task.rs and the identifiers of src/models/ids.rs. An identifier is the number
-- that its UUID holds; an instant is a number of nanoseconds.
use guigu_agent_bridge.Prelude.{ℕ, Option, Result, ok, err, ltb, if◌then◌else◌}
use guigu_agent_bridge.Prelude.Texts.{Text}

abbrev pub TaskId : Type 0
TaskId = ℕ

abbrev pub EndpointId : Type 0
EndpointId = ℕ

abbrev pub ConversationId : Type 0
ConversationId = ℕ

abbrev pub MessageId : Type 0
MessageId = ℕ

abbrev pub EventId : Type 0
EventId = ℕ

abbrev pub DeliveryId : Type 0
DeliveryId = ℕ

abbrev pub DateTime : Type 0
DateTime = ℕ

pub data TaskStatus : Type 0 where
  queued dispatched running completed failed timed_out cancelled : TaskStatus

pub record Priority : Type 0 where
  pub value : ℕ  -- u8

abbrev pub max_value : ℕ
max_value = 10

-- `Error::PriorityOutOfRange` with the value that was refused.
pub data PriorityError : Type 0 where
  priority_out_of_range : ℕ → PriorityError

unfoldable pub new : ℕ → Result Priority PriorityError
new value =
    if ltb max_value value then err (priority_out_of_range value) else ok (record { value = value })

abbrev pub default_priority : Priority
default_priority = record { value = 5 }

pub record AgentTask : Type 0 where
  pub task_id : TaskId
  pub root_task_id : TaskId
  pub parent_task_id : Option TaskId
  pub from_agent : EndpointId
  pub to_agent : EndpointId
  pub conversation_id : ConversationId
  pub reply_to : Option MessageId
  pub text : Text
  pub priority : Priority
  pub depth : ℕ  -- u32
  pub hops : ℕ  -- u32
  pub deadline : Option DateTime
  pub version : ℕ  -- u64
