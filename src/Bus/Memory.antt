-- ===== src/Bus/Memory.antt =====
-- `MemoryBus::submit` of src/bus/memory.rs. The bounded task channel, the event sink, the clock and the
-- identifiers are functions on the outside.
pub mod Submission
pub mod Examples
use guigu_agent_bridge.Prelude.{ℕ, List, ◌∷◌, Result, ok, err}
use guigu_agent_bridge.Models.Task.{AgentTask, TaskStatus, DateTime}
use guigu_agent_bridge.Models.Event.{TaskEvent, TaskEventPayload}
use guigu_agent_bridge.Bus.Error.{BusError, queue_full, task_channel_closed}
use guigu_agent_bridge.Bus.Registry.{RegisteredEndpoint, EndpointRegistry, validate_target}

-- What `try_send` answers when it refuses a task.
pub data TrySendError : Type 0 where
  full closed : TrySendError

pub record MemoryBus (W : Type 0) : Type 0 where
  pub registry : EndpointRegistry
  pub try_send : AgentTask → W → Result (Unit {0}) TrySendError × W
  pub emit : TaskEvent → W → Result (Unit {0}) BusError × W
  pub now : W → DateTime × W
  pub generate : W → ℕ × W

-- The tasks that the channel has accepted and the events that the sink has, the newest first.
pub record BusState (W : Type 0) : Type 0 where
  pub accepted : List AgentTask
  pub recorded : List TaskEvent
  pub outer : W

module _ {W : Type 0} (bus : MemoryBus W) where
  abbrev pub send_error : TrySendError → BusError
  send_error full = queue_full
  send_error closed = task_channel_closed

  unfoldable pub queued_event : AgentTask → W → TaskEvent × W
  queued_event task outer =
      let (id, w₁) = bus.generate outer in
      let (timestamp, w₂) = bus.now w₁ in
      (
        record {
          id = id;
          task_id = task.task_id;
          seq = 1;
          status = TaskStatus.queued;
          timestamp = timestamp;
          payload = TaskEventPayload.queued;
        },
        w₂,
      )

  abbrev pub emitted :
      TaskEvent
      → BusState W
      → Result (Unit {0}) BusError × W
      → Result (Unit {0}) BusError × BusState W
  emitted event s (ok u, outer) = (ok tt, record s { recorded = event ∷ s.recorded; outer = outer })
  emitted event s (err e, outer) = (err e, record s { outer = outer })

  abbrev pub sent :
      AgentTask
      → BusState W
      → Result (Unit {0}) TrySendError × W
      → Result (Unit {0}) BusError × BusState W
  sent task s (err e, outer) = (err (send_error e), record s { outer = outer })
  sent task s (ok u, outer) =
      let (event, w) = queued_event task outer in
      emitted event (record s { accepted = task ∷ s.accepted; outer = w }) (bus.emit event w)

  abbrev pub validated :
      AgentTask
      → BusState W
      → Result RegisteredEndpoint BusError
      → Result (Unit {0}) BusError × BusState W
  validated task s (err e) = (err e, s)
  validated task s (ok target) = sent task s (bus.try_send task s.outer)

  unfoldable pub submit : AgentTask → BusState W → Result (Unit {0}) BusError × BusState W
  submit task s = validated task s (validate_target bus.registry task.to_agent)
