-- ===== src/Bus/Error.antt =====
-- src/bus/error.rs, with the messages that `thiserror` renders. How a UUID is displayed is a
-- parameter.
use guigu_agent_bridge.Prelude.{ℕ, ◌++◌}
use guigu_agent_bridge.Prelude.Texts.{Text, codes}
use guigu_agent_bridge.Models.Task.{EndpointId}

pub data BusError : Type 0 where
  unknown_target : EndpointId → BusError
  target_disabled : EndpointId → BusError
  address_unavailable : EndpointId → BusError
  queue_full event_buffer_full task_channel_closed event_sink_closed : BusError

unfoldable pub to_string : (ℕ → Text) → BusError → Text
to_string show_id (unknown_target e) = codes "unknown target endpoint: " ++ show_id e
to_string show_id (target_disabled e) = codes "target endpoint is disabled: " ++ show_id e
to_string show_id (address_unavailable e) = codes "endpoint address is not available: " ++ show_id e
to_string show_id queue_full = codes "task queue is full"
to_string show_id event_buffer_full = codes "event buffer is full"
to_string show_id task_channel_closed = codes "task channel is closed"
to_string show_id event_sink_closed = codes "event sink is closed"
