-- ===== src/Bus/Memory/Submission.antt =====
-- What `MemoryBus::submit` of src/bus/memory.rs leaves behind on each of its branches.
use guigu_agent_bridge.Prelude.{◌≡◌, refl, ◌∷◌, Result, ok, err}
use guigu_agent_bridge.Models.Task.{AgentTask, TaskStatus}
use guigu_agent_bridge.Models.Event.{TaskEvent, TaskEventPayload}
use guigu_agent_bridge.Bus.Error.{BusError}
use guigu_agent_bridge.Bus.Registry.{RegisteredEndpoint, validate_target}
use guigu_agent_bridge.Bus.Memory.{
  TrySendError, MemoryBus, BusState, send_error, queued_event, emitted, sent, validated, submit,
}
use guigu_agent_bridge.Bus.Worker.Trace.{Is}

module _ {W : Type 0} (bus : MemoryBus W) (task : AgentTask) (s : BusState W) where
  abbrev Answer : Type 0
  Answer = Result (Unit {0}) BusError × BusState W

  -- `rejected`: the target is not valid. `refused`: the channel is full or closed. `queued`: the
  -- task is accepted and its first event recorded. `unannounced`: accepted, but the sink refused.
  pub data Submitted (r : Answer) : Type 0 where
    rejected :
        (e : BusError)
        → validate_target bus.registry task.to_agent ≡ err e
        → r ≡ (err e, s)
        → Submitted r
    refused :
        (e : TrySendError) (target : RegisteredEndpoint)
        → validate_target bus.registry task.to_agent ≡ ok target
        → (bus.try_send task s.outer).0 ≡ err e
        → r.0 ≡ err (send_error bus e)
        → r.1.accepted ≡ s.accepted
        → r.1.recorded ≡ s.recorded
        → Submitted r
    queued :
        (target : RegisteredEndpoint) (event : TaskEvent) (w : W)
        → validate_target bus.registry task.to_agent ≡ ok target
        → (bus.try_send task s.outer).0 ≡ ok tt
        → (bus.emit event w).0 ≡ ok tt
        → Is task.task_id 1 TaskStatus.queued TaskEventPayload.queued event
        → r.0 ≡ ok tt
        → r.1.accepted ≡ task ∷ s.accepted
        → r.1.recorded ≡ event ∷ s.recorded
        → Submitted r
    unannounced :
        (target : RegisteredEndpoint) (event : TaskEvent) (w : W) (e : BusError)
        → validate_target bus.registry task.to_agent ≡ ok target
        → (bus.try_send task s.outer).0 ≡ ok tt
        → Is task.task_id 1 TaskStatus.queued TaskEventPayload.queued event
        → (bus.emit event w).0 ≡ err e
        → r.0 ≡ err e
        → r.1.accepted ≡ task ∷ s.accepted
        → r.1.recorded ≡ s.recorded
        → Submitted r

  queued_event-Is :
      (w : W)
      → Is task.task_id 1 TaskStatus.queued TaskEventPayload.queued (queued_event bus task w).0
  unfolding queued_event
  queued_event-Is w = record {
    of_task = refl;
    at_seq = refl;
    with_status = refl;
    with_payload = refl;
  }

  emitted-Submitted :
      (target : RegisteredEndpoint) (event : TaskEvent) (w : W) (r : Result (Unit {0}) BusError × W)
      → validate_target bus.registry task.to_agent ≡ ok target
      → (bus.try_send task s.outer).0 ≡ ok tt
      → Is task.task_id 1 TaskStatus.queued TaskEventPayload.queued event
      → bus.emit event w ≡ r
      → Submitted (emitted bus event (record s { accepted = task ∷ s.accepted; outer = w }) r)
  emitted-Submitted target event w (ok u, outer) valid taken is answer =
      queued target event w valid taken (rw answer refl) is refl refl refl
  emitted-Submitted target event w (err e, outer) valid taken is answer =
      unannounced target event w e valid taken is (rw answer refl) refl refl refl

  sent-Submitted :
      (target : RegisteredEndpoint) (a : Result (Unit {0}) TrySendError × W)
      → validate_target bus.registry task.to_agent ≡ ok target
      → bus.try_send task s.outer ≡ a
      → Submitted (sent bus task s a)
  sent-Submitted target (err e, outer) valid answer =
      refused e target valid (rw answer refl) refl refl refl
  sent-Submitted target (ok u, outer) valid answer =
      let event = queued_event bus task outer in
      emitted-Submitted target event.0 event.1 (bus.emit event.0 event.1) valid (rw answer refl)
        (queued_event-Is outer) refl

  validated-Submitted :
      (v : Result RegisteredEndpoint BusError)
      → validate_target bus.registry task.to_agent ≡ v
      → Submitted (validated bus task s v)
  validated-Submitted (err e) valid = rejected e valid refl
  validated-Submitted (ok target) valid =
      sent-Submitted target (bus.try_send task s.outer) valid refl

-- A submission has one of four results. The target is not valid: that error, and nothing changes.
-- The channel refuses the task: its error, with no task accepted and no event recorded. The task is
-- accepted unchanged and its `Queued` event, number 1, is recorded: success. Or it is accepted and
-- the sink refuses the event: the sink's error, with the task accepted but no event recorded.
pub submit-Submitted :
    {W : Type 0} (bus : MemoryBus W) (task : AgentTask) (s : BusState W)
    → Submitted bus task s (submit bus task s)
unfolding submit
submit-Submitted bus task s =
    validated-Submitted bus task s (validate_target bus.registry task.to_agent) refl
