-- ===== src/Bus/Worker/Events.antt =====
-- How the worker of src/bus/worker.rs looks at the cancellation table and the clock, and records
-- events: `emit`, `terminate`, `finalize_capability` and the helpers on them.
use guigu_agent_bridge.Prelude.{
  ℕ, ◌-◌, ◌^◌, Option, none, some, Bool, true, false, ◌∷◌, leb, ◌==◌, ◌&&◌, if◌then◌else◌, Result,
  ok, err,
}
use guigu_agent_bridge.Prelude.Texts.{Text}
use guigu_agent_bridge.Models.Task.{TaskId, DateTime, TaskStatus}
use guigu_agent_bridge.Models.Event.{TaskEvent, TaskEventPayload}
use guigu_agent_bridge.Bus.Error.{
  BusError, event_buffer_full, task_channel_closed, event_sink_closed,
}
use guigu_agent_bridge.Bus.Control.{reason_for, activate, retire}
use guigu_agent_bridge.Bus.Control.Calls.{calls}
use guigu_agent_bridge.Bus.Worker.World.{
  World, Worker, LifecycleResult, DispatchError, DispatchOutcome, FinalizationCapability,
  PreparedExecution, Finalized, unsent, unanswered, answered, FinalizeResult,
}

pub data WorkerError : Type 0 where
  event_stream_closed : TaskId → ℕ → WorkerError
  event_backpressure : TaskId → ℕ → WorkerError
  event_write : TaskId → ℕ → BusError → WorkerError

-- The unit result of a task's run.
abbrev pub Exit : Type 0
Exit = Result (Unit {0}) WorkerError

abbrev pub recovery_seq : ℕ
recovery_seq = 2 ^ 64 - 1

unfoldable pub recovery_needed : TaskId → WorkerError
recovery_needed task_id = event_write task_id recovery_seq task_channel_closed

abbrev is_channel_closed : BusError → Bool
is_channel_closed task_channel_closed = true
is_channel_closed _ = false

unfoldable pub is_recovery_needed : WorkerError → Bool
is_recovery_needed (event_write task_id seq error) =
    is_channel_closed error && (seq == recovery_seq)
is_recovery_needed (event_stream_closed task_id seq) = false
is_recovery_needed (event_backpressure task_id seq) = false

module _ {W : Type 0} (worker : Worker W) where
  open worker.outside use {
    interfere, now as now_outside, generate as generate_outside, emit as emit_outside, finalize,
  }

  -- Taking the table's lock: other threads may have used the table before.
  unfoldable pub lock : World W → World W
  lock w =
      let (others, outer) = interfere w.outer in
      record w { table = calls w.table others; outer = outer }

  unfoldable pub now : World W → DateTime × World W
  now w = let (t, outer) = now_outside w.outer in (t, record w { outer = outer })

  unfoldable pub generate : World W → ℕ × World W
  generate w = let (n, outer) = generate_outside w.outer in (n, record w { outer = outer })

  unfoldable pub cancel_reason : TaskId → World W → Option Text × World W
  cancel_reason task_id w =
      let w' = lock w in
      if worker.cancellation then (reason_for w'.table task_id, w') else (none, w)

  -- `deadline.filter(|deadline| *deadline <= self.clock.now())`.
  unfoldable pub expired : Option DateTime → World W → Option DateTime × World W
  expired none w = (none, w)
  expired (some deadline) w =
      let (t, w') = now w in (if leb deadline t then some deadline else none, w')

  unfoldable pub activate_task : TaskId → World W → World W
  activate_task task_id w =
      let w' = lock w in
      if worker.cancellation
      then record w' { table = record (w'.table) { state = activate w'.table.state task_id } }
      else w

  unfoldable pub retire_task : TaskId → World W → World W
  retire_task task_id w =
      let w' = lock w in
      if worker.cancellation
      then record w' { table = record (w'.table) { state = (retire w'.table.state task_id).0 } }
      else w

  abbrev pub sink_error : TaskId → ℕ → BusError → WorkerError
  sink_error task_id seq event_sink_closed = event_stream_closed task_id seq
  sink_error task_id seq event_buffer_full = event_backpressure task_id seq
  sink_error task_id seq other = event_write task_id seq other

  abbrev pub sunk :
      TaskEvent → TaskId → ℕ → World W → Result (Unit {0}) BusError × W → Exit × World W
  sunk event task_id seq w (ok u, outer) =
      (ok tt, record w { recorded = event ∷ w.recorded; outer = outer })
  sunk event task_id seq w (err error, outer) =
      (err (sink_error task_id seq error), record w { outer = outer })

  abbrev pub transitioned :
      TaskEvent → TaskId → ℕ → World W → Result LifecycleResult DispatchError × W → Exit × World W
  transitioned event task_id seq w (ok LifecycleResult.committed, outer) =
      sunk event task_id seq (record w { outer = outer }) (emit_outside event outer)
  transitioned event task_id seq w (ok LifecycleResult.replay, outer) =
      sunk event task_id seq (record w { outer = outer }) (emit_outside event outer)
  transitioned event task_id seq w (ok LifecycleResult.stale, outer) =
      (err (event_write task_id seq task_channel_closed), record w { outer = outer })
  transitioned event task_id seq w (err error, outer) =
      (err (event_write task_id seq task_channel_closed), record w { outer = outer })

  unfoldable pub emit : TaskEvent → TaskId → ℕ → World W → Exit × World W
  emit event task_id seq w = elim (worker.lifecycle) [
    | some lifecycle ↦ transitioned event task_id seq w (lifecycle.transition event w.outer)
    | none ↦ sunk event task_id seq w (emit_outside event w.outer)
  ]

  -- An event with a fresh identifier and the time of its making.
  unfoldable pub make_event :
      TaskId → ℕ → TaskStatus → TaskEventPayload → World W → TaskEvent × World W
  make_event task_id seq status payload w =
      let (id, w₁) = generate w in
      let (timestamp, w₂) = now w₁ in
      (
        record {
          id = id;
          task_id = task_id;
          seq = seq;
          status = status;
          timestamp = timestamp;
          payload = payload;
        },
        w₂,
      )

  unfoldable pub terminate : TaskId → ℕ → TaskStatus → TaskEventPayload → World W → Exit × World W
  terminate task_id seq status payload w =
      let (event, w₁) = make_event task_id seq status payload w in
      let (result, w₂) = emit event task_id seq w₁ in (result, retire_task task_id w₂)

  unfoldable pub fail_task : TaskId → ℕ → Text → World W → Exit × World W
  fail_task task_id seq error =
      terminate task_id seq TaskStatus.failed (TaskEventPayload.failed error)

  unfoldable pub completed_task : TaskId → ℕ → Text → World W → Exit × World W
  completed_task task_id seq output =
      terminate task_id seq TaskStatus.completed (TaskEventPayload.completed output)

  unfoldable pub timed_out_task : TaskId → ℕ → DateTime → World W → Exit × World W
  timed_out_task task_id seq deadline =
      terminate task_id seq TaskStatus.timed_out (TaskEventPayload.timed_out deadline)

  unfoldable pub cancel_task : TaskId → ℕ → Text → World W → Exit × World W
  cancel_task task_id seq reason =
      terminate task_id seq TaskStatus.cancelled (TaskEventPayload.cancelled reason)

  abbrev pub closed : TaskId → ℕ → Exit
  closed task_id seq = err (event_write task_id seq task_channel_closed)

  -- After the storage has committed: the event is written, and only then the task is retired.
  abbrev pub retire_if_written : TaskId → Exit × World W → Exit × World W
  retire_if_written task_id (ok u, w) = (ok tt, retire_task task_id w)
  retire_if_written task_id (err error, w) = (err error, w)

  abbrev pub emit_then_retire : TaskEvent → TaskId → ℕ → World W → Exit × World W
  emit_then_retire event task_id seq w = retire_if_written task_id (emit event task_id seq w)

  abbrev pub finalized : TaskEvent → TaskId → ℕ → World W → Finalized → Exit × World W
  finalized event task_id seq w unsent = (closed task_id seq, w)
  finalized event task_id seq w unanswered = (closed task_id seq, w)
  finalized event task_id seq w (answered FinalizeResult.committed) =
      emit_then_retire event task_id seq w
  finalized event task_id seq w (answered FinalizeResult.already_terminal) =
      emit_then_retire event task_id seq w
  finalized event task_id seq w (answered FinalizeResult.stale) = (closed task_id seq, w)
  finalized event task_id seq w (answered FinalizeResult.fenced) = (closed task_id seq, w)
  finalized event task_id seq w (answered FinalizeResult.recovery_needed) = (closed task_id seq, w)

  abbrev pub send_command :
      FinalizationCapability → TaskEvent → TaskId → ℕ → World W → Option ℕ → Exit × World W
  send_command capability event task_id seq w none = (closed task_id seq, w)
  send_command capability event task_id seq w (some sender) =
      let (answer, outer) = finalize capability event w.outer in
      finalized event task_id seq (record w { outer = outer }) answer

  unfoldable pub finalize_capability :
      TaskId → ℕ → TaskStatus → TaskEventPayload → FinalizationCapability → World W → Exit × World W
  finalize_capability task_id seq status payload capability w =
      let (event, w₁) = make_event task_id seq status payload w in
      send_command capability event task_id seq w₁ capability.command

  abbrev pub outcome_status : DispatchOutcome → TaskStatus
  outcome_status (DispatchOutcome.completed output) = TaskStatus.completed
  outcome_status (DispatchOutcome.failed error) = TaskStatus.failed

  abbrev pub outcome_payload : DispatchOutcome → TaskEventPayload
  outcome_payload (DispatchOutcome.completed output) = TaskEventPayload.completed output
  outcome_payload (DispatchOutcome.failed error) = TaskEventPayload.failed error

  unfoldable pub finalize_prepared : TaskId → ℕ → PreparedExecution → World W → Exit × World W
  finalize_prepared task_id seq prepared =
      finalize_capability task_id seq (outcome_status prepared.outcome)
        (outcome_payload prepared.outcome) prepared.capability
