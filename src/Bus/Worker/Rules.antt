-- ===== src/Bus/Worker/Rules.antt =====
-- What the event helpers of src/bus/worker.rs do to a task's trace and to its cancellation record.
use guigu_agent_bridge.Prelude.{
  ℕ, ◌≡◌, ◌⊎◌, inl, inr, refl, Option, none, some, false, List, ◌∷◌, Result, ok, err, arith,
  Bool-cases,
}
use guigu_agent_bridge.Prelude.Texts.{Text}
use guigu_agent_bridge.Models.Task.{TaskId, TaskStatus, DateTime}
use guigu_agent_bridge.Models.Event.{TaskEvent, TaskEventPayload}
use guigu_agent_bridge.Bus.Error.{BusError}
use guigu_agent_bridge.Bus.Control.Standing.{standing, gone, retire-standing}
use guigu_agent_bridge.Bus.Worker.World.{
  World, Worker, LifecycleResult, DispatchError, FinalizationCapability, Finalized, unsent,
  unanswered, answered, FinalizeResult, PreparedExecution, DispatchOutcome,
}
use guigu_agent_bridge.Bus.Worker.Events.{
  Exit, WorkerError, lock, now, generate, cancel_reason, expired, retire_task, activate_task, emit,
  make_event, terminate, fail_task, completed_task, timed_out_task, cancel_task,
  finalize_capability, finalize_prepared, emit_then_retire, retire_if_written, finalized, sunk,
  transitioned, send_command, outcome_status, outcome_payload,
}
use guigu_agent_bridge.Bus.Worker.Trace.{
  Trace, Phase, started, done, Is, as_failed, as_timed_out, as_cancelled, Next, finish, complete,
  started_next,
}

module _ {W : Type 0} (worker : Worker W) where
  -- What an emission leaves: the event recorded with success, or nothing recorded with an error.
  pub data Emitted (event : TaskEvent) (es : List TaskEvent) (r : Exit × World W) : Type 0 where
    written : r.0 ≡ ok tt → r.1.recorded ≡ event ∷ es → Emitted event es r
    refused : (e : WorkerError) → r.0 ≡ err e → r.1.recorded ≡ es → Emitted event es r

  sunk-Emitted :
      (event : TaskEvent) (t : TaskId) (n : ℕ) (w : World W) (r : Result (Unit {0}) BusError × W)
      → Emitted event w.recorded (sunk worker event t n w r)
  sunk-Emitted event t n w (ok u, outer) = written refl refl
  sunk-Emitted event t n w (err e, outer) = refused _ refl refl

  transitioned-Emitted :
      (event : TaskEvent) (t : TaskId) (n : ℕ) (w : World W)
      (r : Result LifecycleResult DispatchError × W)
      → Emitted event w.recorded (transitioned worker event t n w r)
  transitioned-Emitted event t n w (ok LifecycleResult.committed, outer) =
      sunk-Emitted event t n (record w { outer = outer }) (worker.outside.emit event outer)
  transitioned-Emitted event t n w (ok LifecycleResult.replay, outer) =
      sunk-Emitted event t n (record w { outer = outer }) (worker.outside.emit event outer)
  transitioned-Emitted event t n w (ok LifecycleResult.stale, outer) = refused _ refl refl
  transitioned-Emitted event t n w (err e, outer) = refused _ refl refl

  pub emit-Emitted :
      (event : TaskEvent) (t : TaskId) (n : ℕ) (w : World W)
      → Emitted event w.recorded (emit worker event t n w)
  unfolding emit
  emit-Emitted event t n w =
      elim (worker.lifecycle)
        as (λ l. Emitted event w.recorded (elim l [
          | some lifecycle ↦ transitioned worker event t n w (lifecycle.transition event w.outer)
          | none ↦ sunk worker event t n w (worker.outside.emit event w.outer)
        ])) [
          | some lifecycle ↦ transitioned-Emitted event t n w (lifecycle.transition event w.outer)
          | none ↦ sunk-Emitted event t n w (worker.outside.emit event w.outer)
        ]

  pub retire_task_recorded :
      (t : TaskId) (w : World W) → (retire_task worker t w).recorded ≡ w.recorded
  unfolding retire_task lock
  retire_task_recorded t w = ground arith

  pub retire_task-gone :
      (t : TaskId) (w : World W)
      → (worker.cancellation ≡ false) ⊎ (standing (retire_task worker t w).table.state t ≡ gone)
  unfolding retire_task lock
  retire_task-gone t w = elim (Bool-cases worker.cancellation) [
    | inl h ↦ inr (rw h (retire-standing (lock worker w).table.state t))
    | inr h ↦ inl h
  ]

  pub activate_task_recorded :
      (t : TaskId) (w : World W) → (activate_task worker t w).recorded ≡ w.recorded
  unfolding activate_task lock
  activate_task_recorded t w = ground arith

  pub cancel_reason_recorded :
      (t : TaskId) (w : World W) → (cancel_reason worker t w).1.recorded ≡ w.recorded
  unfolding cancel_reason lock
  cancel_reason_recorded t w = ground arith

  pub expired_recorded :
      (d : Option DateTime) (w : World W) → (expired worker d w).1.recorded ≡ w.recorded
  unfolding expired now
  expired_recorded none w = refl
  expired_recorded (some d) w = refl

  pub make_event-Is :
      (t : TaskId) (n : ℕ) (s : TaskStatus) (p : TaskEventPayload) (w : World W)
      → Is t n s p (make_event worker t n s p w).0
  unfolding make_event
  make_event-Is t n s p w = record {
    of_task = refl;
    at_seq = refl;
    with_status = refl;
    with_payload = refl;
  }

  pub make_event_recorded :
      (t : TaskId) (n : ℕ) (s : TaskStatus) (p : TaskEventPayload) (w : World W)
      → (make_event worker t n s p w).1.recorded ≡ w.recorded
  unfolding make_event generate now
  make_event_recorded t n s p w = refl

-- What holds when `process` leaves with a result: after success the trace is complete and the task's
-- cancellation record is retired; after an error the trace is still one that the worker may write.
module _ {W : Type 0} (worker : Worker W) (task_id : TaskId) (base : List TaskEvent) where
  pub record Closed (w : World W) : Type 0 where
    pub trace : Trace task_id base w.recorded done
    pub retired : (worker.cancellation ≡ false) ⊎ (standing w.table.state task_id ≡ gone)

  abbrev pub Ended : Exit → World W → Type 0
  Ended (ok u) w = Closed w
  Ended (err e) w = (p : Phase) × Trace task_id base w.recorded p

  -- The event may close the trace of these events.
  abbrev pub Closes : List TaskEvent → ℕ → TaskStatus → TaskEventPayload → Type 0
  Closes es n status payload =
      (e : TaskEvent) → Is task_id n status payload e → Trace task_id base (e ∷ es) done

  abbrev pub failed_payload : Text → TaskEventPayload
  failed_payload error = TaskEventPayload.failed error

  pub Closes-failed :
      {es : List TaskEvent} {p : Phase} {n : ℕ} (error : Text)
      → Trace task_id base es p
      → Next p n
      → Closes es n TaskStatus.failed (TaskEventPayload.failed error)
  Closes-failed error t h e i = finish e t h (as_failed error i)

  pub Closes-timed_out :
      {es : List TaskEvent} {p : Phase} {n : ℕ} (d : DateTime)
      → Trace task_id base es p
      → Next p n
      → Closes es n TaskStatus.timed_out (TaskEventPayload.timed_out d)
  Closes-timed_out d t h e i = finish e t h (as_timed_out d i)

  pub Closes-cancelled :
      {es : List TaskEvent} {p : Phase} {n : ℕ} (reason : Text)
      → Trace task_id base es p
      → Next p n
      → Closes es n TaskStatus.cancelled (TaskEventPayload.cancelled reason)
  Closes-cancelled reason t h e i = finish e t h (as_cancelled reason i)

  -- Writing a closing event, then retiring the task, whatever the result of the write.
  pub emit_retire-Ended :
      (event : TaskEvent) (n : ℕ) (w : World W) {p : Phase}
      → Trace task_id base w.recorded p
      → Trace task_id base (event ∷ w.recorded) done
      → let r = emit worker event task_id n w in Ended r.0 (retire_task worker task_id r.1)
  emit_retire-Ended event n w {p} t c = elim (emit-Emitted worker event task_id n w) [
    | written e rec ↦ rw e (record {
      trace = rw (retire_task_recorded worker task_id (emit worker event task_id n w).1) (rw rec c);
      retired = retire_task-gone worker task_id (emit worker event task_id n w).1;
    })
    | refused x e rec ↦
        rw e
          (p, rw (retire_task_recorded worker task_id (emit worker event task_id n w).1) (rw rec t))
  ]

  pub terminate-Ended :
      (n : ℕ) (status : TaskStatus) (payload : TaskEventPayload) (w : World W) {p : Phase}
      → Trace task_id base w.recorded p
      → Closes w.recorded n status payload
      → let r = terminate worker task_id n status payload w in Ended r.0 r.1
  unfolding terminate
  terminate-Ended n status payload w {p} t c =
      let event = make_event worker task_id n status payload w in
      let same = make_event_recorded worker task_id n status payload w in
      emit_retire-Ended event.0 n event.1 {p = p} (rw same t)
        (rw same (c event.0 (make_event-Is worker task_id n status payload w)))

  pub fail_task-Ended :
      (n : ℕ) (error : Text) (w : World W) {p : Phase}
      → Trace task_id base w.recorded p
      → Next p n
      → let r = fail_task worker task_id n error w in Ended r.0 r.1
  unfolding fail_task
  fail_task-Ended n error w t h = terminate-Ended n _ _ w t (Closes-failed error t h)

  pub timed_out_task-Ended :
      (n : ℕ) (d : DateTime) (w : World W) {p : Phase}
      → Trace task_id base w.recorded p
      → Next p n
      → let r = timed_out_task worker task_id n d w in Ended r.0 r.1
  unfolding timed_out_task
  timed_out_task-Ended n d w t h = terminate-Ended n _ _ w t (Closes-timed_out d t h)

  pub cancel_task-Ended :
      (n : ℕ) (reason : Text) (w : World W) {p : Phase}
      → Trace task_id base w.recorded p
      → Next p n
      → let r = cancel_task worker task_id n reason w in Ended r.0 r.1
  unfolding cancel_task
  cancel_task-Ended n reason w t h = terminate-Ended n _ _ w t (Closes-cancelled reason t h)

  pub completed_task-Ended :
      (n a : ℕ) (output : Text) (w : World W)
      → Trace task_id base w.recorded (started n a)
      → let r = completed_task worker task_id n output w in Ended r.0 r.1
  unfolding completed_task
  completed_task-Ended n a output w t = terminate-Ended n _ _ w t (λ e i. complete output e t i)

  retire_if_written-Ended :
      (event : TaskEvent) (es : List TaskEvent) (r : Exit × World W) {p : Phase}
      → Emitted worker event es r
      → Trace task_id base es p
      → Trace task_id base (event ∷ es) done
      → let s = retire_if_written worker task_id r in Ended s.0 s.1
  retire_if_written-Ended event es (ok u, w) (written e rec) t c = record {
    trace = rw (retire_task_recorded worker task_id w) (rw rec c);
    retired = retire_task-gone worker task_id w;
  }
  retire_if_written-Ended event es (ok u, w) (refused x e rec) t c = cc
  retire_if_written-Ended event es (err x, w) (written e rec) t c = cc
  retire_if_written-Ended event es (err x, w) {p} (refused y e rec) t c = (p, rw rec t)

  emit_then_retire-Ended :
      (event : TaskEvent) (n : ℕ) (w : World W) {p : Phase}
      → Trace task_id base w.recorded p
      → Trace task_id base (event ∷ w.recorded) done
      → let r = emit_then_retire worker event task_id n w in Ended r.0 r.1
  emit_then_retire-Ended event n w t c =
      retire_if_written-Ended event w.recorded (emit worker event task_id n w)
        (emit-Emitted worker event task_id n w) t c

  finalized-Ended :
      (event : TaskEvent) (n : ℕ) (w : World W) (answer : Finalized) {p : Phase}
      → Trace task_id base w.recorded p
      → Trace task_id base (event ∷ w.recorded) done
      → let r = finalized worker event task_id n w answer in Ended r.0 r.1
  finalized-Ended event n w unsent {p} t c = (p, t)
  finalized-Ended event n w unanswered {p} t c = (p, t)
  finalized-Ended event n w (answered FinalizeResult.committed) t c =
      emit_then_retire-Ended event n w t c
  finalized-Ended event n w (answered FinalizeResult.already_terminal) t c =
      emit_then_retire-Ended event n w t c
  finalized-Ended event n w (answered FinalizeResult.stale) {p} t c = (p, t)
  finalized-Ended event n w (answered FinalizeResult.fenced) {p} t c = (p, t)
  finalized-Ended event n w (answered FinalizeResult.recovery_needed) {p} t c = (p, t)

  send_command-Ended :
      (capability : FinalizationCapability) (event : TaskEvent) (n : ℕ) (w : World W)
      (sender : Option ℕ) {p : Phase}
      → Trace task_id base w.recorded p
      → Trace task_id base (event ∷ w.recorded) done
      → let r = send_command worker capability event task_id n w sender in Ended r.0 r.1
  send_command-Ended capability event n w none {p} t c = (p, t)
  send_command-Ended capability event n w (some sender) t c =
      let answer = worker.outside.finalize capability event w.outer in
      finalized-Ended event n (record w { outer = answer.1 }) answer.0 t c

  pub finalize_capability-Ended :
      (n : ℕ) (status : TaskStatus) (payload : TaskEventPayload)
      (capability : FinalizationCapability) (w : World W) {p : Phase}
      → Trace task_id base w.recorded p
      → Closes w.recorded n status payload
      → let r = finalize_capability worker task_id n status payload capability w in Ended r.0 r.1
  unfolding finalize_capability
  finalize_capability-Ended n status payload capability w {p} t c =
      let event = make_event worker task_id n status payload w in
      let same = make_event_recorded worker task_id n status payload w in
      send_command-Ended capability event.0 n event.1 capability.command {p = p} (rw same t)
        (rw same (c event.0 (make_event-Is worker task_id n status payload w)))

  pub finalize_prepared-Ended :
      (n a : ℕ) (prepared : PreparedExecution) (w : World W)
      → Trace task_id base w.recorded (started n a)
      → let r = finalize_prepared worker task_id n prepared w in Ended r.0 r.1
  unfolding finalize_prepared
  finalize_prepared-Ended n a prepared w t =
      finalize_capability-Ended n (outcome_status worker prepared.outcome)
        (outcome_payload worker prepared.outcome) prepared.capability w t (closing prepared.outcome)
    where
      closing :
          (o : DispatchOutcome)
          → Closes w.recorded n (outcome_status worker o) (outcome_payload worker o)
      closing (DispatchOutcome.completed output) = λ e i. complete output e t i
      closing (DispatchOutcome.failed error) = Closes-failed error t (started_next n a)
