-- ===== src/Bus/Worker/Execution.antt =====
-- The second half of an attempt in `Worker::process` of src/bus/worker.rs: the checkpoint after the
-- acceptance, the `Running` event, and the execution.
use guigu_agent_bridge.Prelude.{ℕ, Option, none, some, if◌then◌else◌, Result, ok, err}
use guigu_agent_bridge.Prelude.Texts.{Text, codes}
use guigu_agent_bridge.Models.Task.{TaskId, DateTime, TaskStatus}
use guigu_agent_bridge.Models.Event.{TaskEventPayload}
use guigu_agent_bridge.Bus.Worker.World.{
  Worker, DispatchRequest, DispatchOutcome, DispatchError, error_text, PreparedExecution,
}
use guigu_agent_bridge.Bus.Worker.Events.{
  recovery_needed, now, generate, cancel_reason, expired, emit, fail_task, completed_task,
  timed_out_task, cancel_task, finalize_capability, finalize_prepared,
}
use guigu_agent_bridge.Bus.Worker.Stages.{
  Attempt, Raced, done, cancelled, timed_out, outside, race, next_seq, check, dispatch, keep_lease,
  deliver, on_refused, or_closed,
}
use guigu_agent_bridge.Bus.Worker.Stages.Monad.{exit, M, ◌>>=◌, ◌>>◌, pure, lift, exits, try}

module _ {W : Type 0} (worker : Worker W) where
  -- Ending a prepared execution: the dispatcher gives the right to write the terminal event.
  unfoldable pub finalize_cancelled :
      {A : Type 0} → Attempt W → DispatchRequest → ℕ → Text → TaskStatus → TaskEventPayload → M W A
  finalize_cancelled at request seq reason status payload = do
    given ← lift (outside worker (at.dispatcher.cancel_prepared request reason))
    capability ← or_closed worker at.task.task_id seq given
    exits (finalize_capability worker at.task.task_id seq status payload capability)

  unfoldable pub cancel_attempt : {A : Type 0} → Attempt W → DispatchRequest → ℕ → Text → M W A
  cancel_attempt at request seq reason =
      if at.dispatcher.supports_prepared
      then finalize_cancelled at request seq reason TaskStatus.cancelled
          (TaskEventPayload.cancelled reason)
      else exits (cancel_task worker at.task.task_id seq reason)

  unfoldable pub time_out_attempt :
      {A : Type 0} → Attempt W → DispatchRequest → ℕ → DateTime → M W A
  time_out_attempt at request seq d =
      if at.dispatcher.supports_prepared
      then finalize_cancelled at request seq (codes "task deadline elapsed") TaskStatus.timed_out
          (TaskEventPayload.timed_out d)
      else exits (timed_out_task worker at.task.task_id seq d)

  abbrev pub accept_unless_late : Attempt W → DispatchRequest → ℕ → Option DateTime → M W (Unit {0})
  accept_unless_late at request seq (some d) = time_out_attempt at request seq d
  accept_unless_late at request seq none = pure tt

  abbrev pub accept_unless_cancelled :
      Attempt W → DispatchRequest → ℕ → Option Text → M W (Unit {0})
  accept_unless_cancelled at request seq (some reason) = cancel_attempt at request seq reason
  accept_unless_cancelled at request seq none = do
    late ← lift (expired worker at.task.deadline)
    accept_unless_late at request seq late

  unfoldable pub check_accepted : Attempt W → DispatchRequest → ℕ → M W (Unit {0})
  check_accepted at request seq = do
    reason ← lift (cancel_reason worker at.task.task_id)
    accept_unless_cancelled at request seq reason

  -- The event carries the instant twice, as its time and in its payload.
  unfoldable pub start : Attempt W → ℕ → M W (Unit {0})
  start at seq = do
    started_at ← lift (now worker)
    id ← lift (generate worker)
    try (
        emit worker
          (record {
            id = id;
            task_id = at.task.task_id;
            seq = seq;
            status = TaskStatus.running;
            timestamp = started_at;
            payload = TaskEventPayload.running started_at;
          })
          at.task.task_id seq)

  abbrev pub prepared_error : TaskId → ℕ → DispatchError → M W ⊥
  prepared_error task_id seq DispatchError.recovery_needed =
      λ w. (exit (err (recovery_needed task_id)), w)
  prepared_error task_id seq error = exits (fail_task worker task_id seq (error_text error))

  abbrev pub after_prepared :
      Attempt W → DispatchRequest → ℕ → Raced (Result PreparedExecution DispatchError) → M W ⊥
  after_prepared at request seq (done (ok prepared)) =
      exits (finalize_prepared worker at.task.task_id seq prepared)
  after_prepared at request seq (done (err error)) = prepared_error at.task.task_id seq error
  after_prepared at request seq (cancelled reason) =
      finalize_cancelled at request seq reason TaskStatus.cancelled
        (TaskEventPayload.cancelled reason)
  after_prepared at request seq (timed_out d) =
      finalize_cancelled at request seq (codes "task deadline elapsed") TaskStatus.timed_out
        (TaskEventPayload.timed_out d)

  abbrev pub after_execute :
      Attempt W → DispatchRequest → ℕ → ℕ → Raced (Result DispatchOutcome DispatchError) → M W ⊥
  after_execute at request attempt seq (done (ok (DispatchOutcome.completed output))) =
      exits (completed_task worker at.task.task_id seq output)
  after_execute at request attempt seq (done (ok (DispatchOutcome.failed error))) =
      exits (fail_task worker at.task.task_id seq error)
  after_execute at request attempt seq (done (err error)) =
      on_refused worker at.task.task_id attempt seq error at.task.deadline
  after_execute at request attempt seq (cancelled reason) =
      exits (cancel_task worker at.task.task_id seq reason)
  after_execute at request attempt seq (timed_out d) =
      exits (timed_out_task worker at.task.task_id seq d)

  unfoldable pub execute_prepared : Attempt W → DispatchRequest → ℕ → M W ⊥
  execute_prepared at request seq = do
    outcome ←
        lift (race worker at.task.task_id at.task.deadline (at.dispatcher.execute_prepared request))
    after_prepared at request seq outcome

  unfoldable pub execute_plain : Attempt W → DispatchRequest → ℕ → ℕ → M W ⊥
  execute_plain at request attempt seq = do
    outcome ← lift (race worker at.task.task_id at.task.deadline (at.dispatcher.execute request))
    after_execute at request attempt seq outcome

  unfoldable pub execute : Attempt W → DispatchRequest → ℕ → ℕ → M W ⊥
  execute at request attempt seq =
      if at.dispatcher.supports_prepared
      then execute_prepared at request seq
      else execute_plain at request attempt seq

  -- The execution of an accepted attempt.
  unfoldable pub run_accepted : Attempt W → DispatchRequest → ℕ → ℕ → M W ⊥
  run_accepted at request attempt seq = do start at seq; execute at request attempt (next_seq seq)

  -- What follows the `Dispatched` event of an attempt.
  unfoldable pub after_dispatch : Attempt W → DispatchRequest → ℕ → ℕ → M W ⊥
  after_dispatch at request attempt seq = do
    keep_lease worker at seq
    deliver worker at request attempt seq
    check_accepted at request seq
    run_accepted at request attempt seq

  -- One round of the loop of `process`.
  unfoldable pub attempt_once : Attempt W → ℕ → ℕ → M W ⊥
  attempt_once at attempt seq = do
    check worker at.task.task_id seq at.task.deadline
    request ← dispatch worker at attempt seq
    after_dispatch at request attempt (next_seq seq)
