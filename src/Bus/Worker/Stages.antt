-- ===== src/Bus/Worker/Stages.antt =====
-- The stages of one attempt in `Worker::process` of src/bus/worker.rs, in the order of the code. A stage
-- goes on with a value, ends the task's run, or starts the next attempt.
pub mod Monad
use guigu_agent_bridge.Prelude.{
  ℕ, suc, ◌+◌, ◌%◌, ◌^◌, Option, none, some, Bool, true, false, ◌&&◌, ◌||◌, not, List, [], ◌∷◌,
  ◌==◌, if◌then◌else◌, Result, ok, err,
}
use guigu_agent_bridge.Prelude.Texts.{Text, codes}
use guigu_agent_bridge.Models.Task.{AgentTask, TaskId, DateTime, TaskStatus}
use guigu_agent_bridge.Models.Event.{TaskEvent, TaskEventPayload}
use guigu_agent_bridge.Bus.Error.{task_channel_closed}
use guigu_agent_bridge.Bus.Registry.{RegisteredEndpoint}
use guigu_agent_bridge.Bus.Policy.{deadline_after}
use guigu_agent_bridge.Bus.Policy.Backoff.{allows_another_attempt_after, delay_for}
use guigu_agent_bridge.Bus.Worker.World.{
  World, Worker, Outside, First, stage, cancellation, deadline, TaskDispatcher, TaskLifecycle,
  DispatchRequest, DispatchOutcome, DispatchError, error_text, QueueLeaseContext, PreparedExecution,
  FinalizationCapability,
}
use guigu_agent_bridge.Bus.Worker.Events.{
  Exit, WorkerError, event_write, recovery_needed, now, generate, cancel_reason, expired, emit,
  make_event, fail_task, completed_task, timed_out_task, cancel_task, finalize_capability,
  finalize_prepared, retire_task,
}
use Monad.{Flow, go, exit, again, M, ◌>>=◌, ◌>>◌, pure, lift, exits, try}

pub data Raced {ℓ} (A : Type ℓ) : Type ℓ where
  done : A → Raced A
  cancelled : Text → Raced A
  timed_out : DateTime → Raced A

-- What an attempt works on: the task, its validated target and dispatcher, and its queue lease.
pub record Attempt (W : Type 0) : Type 0 where
  pub task : AgentTask
  pub target : RegisteredEndpoint
  pub dispatcher : TaskDispatcher W
  pub queue_lease : Option QueueLeaseContext

-- `seq += 1` on u64.
abbrev pub next_seq : ℕ → ℕ
next_seq seq = (seq + 1) % 2 ^ 64

module _ {W : Type 0} (worker : Worker W) where
  -- A call of the outside.
  abbrev pub outside {ℓ} : {A : Type ℓ} → (W → A × W) → World W → A × World W
  outside f w = let (a, outer) = f w.outer in (a, record w { outer = outer })

  abbrev pub cancelled_or {ℓ} :
      {A : Type ℓ} → (W → A × W) → Option Text × World W → Raced A × World W
  cancelled_or f (some reason, w) = (cancelled reason, w)
  cancelled_or f (none, w) = let (a, w') = outside f w in (done a, w')

  -- `race`: the stage, a cancellation of this task, or its deadline by the timer, whichever is first.
  -- Without a reason, a timer or a deadline the race goes on to the stage's end.
  abbrev pub raced_with {ℓ} :
      {A : Type ℓ} → TaskId → Option DateTime → (W → A × W) → First → World W → Raced A × World W
  raced_with task_id limit f First.stage w = let (a, w') = outside f w in (done a, w')
  raced_with task_id limit f First.cancellation w = cancelled_or f (cancel_reason worker task_id w)
  raced_with task_id none f First.deadline w = let (a, w') = outside f w in (done a, w')
  raced_with task_id (some limit) f First.deadline w =
      let (a, w') = outside f w in if worker.timer then (timed_out limit, w) else (done a, w')

  unfoldable pub race {ℓ} :
      {A : Type ℓ} → TaskId → Option DateTime → (W → A × W) → World W → Raced A × World W
  race task_id limit f w =
      let (first, w') = outside worker.outside.first w in raced_with task_id limit f first w'

  unfoldable pub wait_backoff : TaskId → ℕ → Option DateTime → World W → Raced (Unit {0}) × World W
  wait_backoff task_id failed_attempt limit w =
      let delay = delay_for worker.retry.backoff failed_attempt in
      let (t, w₁) = now worker w in
      let until = deadline_after worker.outside.chrono t delay in
      let slept = race task_id limit (λ (o : W). (tt, worker.outside.sleep_until until o)) w₁ in
      if delay == 0 then (done tt, w) else if not worker.timer then (done tt, w) else slept

  abbrev pub retryable : DispatchError → Bool
  retryable (DispatchError.not_accepted reason) = true
  retryable (DispatchError.execution_failed reason) = true
  retryable DispatchError.unsupported_prepared = false
  retryable DispatchError.acceptance_unknown = false
  retryable DispatchError.recovery_needed = false

  abbrev pub backed_off : ℕ → Raced (Unit {0}) × World W → Raced (Option ℕ) × World W
  backed_off next_attempt (done u, w) = (done (some next_attempt), w)
  backed_off next_attempt (cancelled reason, w) = (cancelled reason, w)
  backed_off next_attempt (timed_out d, w) = (timed_out d, w)

  abbrev pub retry_unless_late :
      TaskId → ℕ → Option DateTime → Option DateTime × World W → Raced (Option ℕ) × World W
  retry_unless_late task_id attempt limit (some d, w) = (done none, w)
  retry_unless_late task_id attempt limit (none, w) =
      backed_off ((attempt + 1) % 2 ^ 32) (wait_backoff task_id attempt limit w)

  -- `refused`: the next attempt's number, or why there is none. `attempt` is a u32.
  unfoldable pub refused :
      TaskId → ℕ → DispatchError → Option DateTime → World W → Raced (Option ℕ) × World W
  refused task_id attempt error limit w =
      let later = retry_unless_late task_id attempt limit (expired worker limit w) in
      if not (retryable error) || not (allows_another_attempt_after worker.retry attempt)
      then (done none, w)
      else later

  -- The end of a stage that the dispatcher refused, when it is not prepared.
  abbrev pub after_refusal : {A : Type 0} → TaskId → ℕ → DispatchError → Raced (Option ℕ) → M W A
  after_refusal task_id seq error (done (some next_attempt)) = λ w. (again next_attempt seq, w)
  after_refusal task_id seq error (done none) =
      exits (fail_task worker task_id seq (error_text error))
  after_refusal task_id seq error (cancelled reason) = exits (cancel_task worker task_id seq reason)
  after_refusal task_id seq error (timed_out d) = exits (timed_out_task worker task_id seq d)

  unfoldable pub on_refused :
      {A : Type 0} → TaskId → ℕ → ℕ → DispatchError → Option DateTime → M W A
  on_refused task_id attempt seq error limit = do
    verdict ← lift (refused task_id attempt error limit)
    after_refusal task_id seq error verdict

  -- The checkpoint before an attempt: cancelled first, then past the deadline.
  abbrev pub stop_if_late : TaskId → ℕ → Option DateTime → M W (Unit {0})
  stop_if_late task_id seq (some d) = exits (timed_out_task worker task_id seq d)
  stop_if_late task_id seq none = pure tt

  abbrev pub stop_if_cancelled : TaskId → ℕ → Option DateTime → Option Text → M W (Unit {0})
  stop_if_cancelled task_id seq limit (some reason) = exits (cancel_task worker task_id seq reason)
  stop_if_cancelled task_id seq limit none = do
    late ← lift (expired worker limit)
    stop_if_late task_id seq late

  unfoldable pub check : TaskId → ℕ → Option DateTime → M W (Unit {0})
  check task_id seq limit = do
    reason ← lift (cancel_reason worker task_id)
    stop_if_cancelled task_id seq limit reason

  -- A `Dispatched` event with a fresh delivery identifier.
  unfoldable pub dispatch : Attempt W → ℕ → ℕ → M W DispatchRequest
  dispatch at attempt seq = do
    delivery_id ← lift (generate worker)
    event ← lift (
        make_event worker at.task.task_id seq TaskStatus.dispatched
          (TaskEventPayload.dispatched delivery_id attempt))
    try (emit worker event at.task.task_id seq)
    pure (record {
      task = at.task;
      target = at.target;
      delivery_id = delivery_id;
      attempt = attempt;
      queue_lease = at.queue_lease;
    })

  abbrev pub fail_on_error : TaskId → ℕ → Result (Unit {0}) DispatchError → M W (Unit {0})
  fail_on_error task_id seq (ok u) = pure tt
  fail_on_error task_id seq (err error) = exits (fail_task worker task_id seq (error_text error))

  abbrev pub lease_with :
      Attempt W → ℕ → Option (TaskLifecycle W) → Option QueueLeaseContext → M W (Unit {0})
  lease_with at seq none lease = pure tt
  lease_with at seq (some lifecycle) none = pure tt
  lease_with at seq (some lifecycle) (some lease) = do
    marked ← lift (outside (lifecycle.mark_queue_send_started at.task lease))
    fail_on_error at.task.task_id seq marked
    renewed ← lift (outside (lifecycle.renew_queue_lease at.task lease))
    fail_on_error at.task.task_id seq renewed

  -- The two lease steps before the delivery.
  unfoldable pub keep_lease : Attempt W → ℕ → M W (Unit {0})
  keep_lease at seq = lease_with at seq worker.lifecycle at.queue_lease

  -- The status and payload of a failed prepared delivery.
  abbrev pub failure_event :
      DispatchError → Option Text → Option DateTime → TaskStatus × TaskEventPayload
  failure_event error (some reason) late = (TaskStatus.cancelled, TaskEventPayload.cancelled reason)
  failure_event error none (some d) = (TaskStatus.timed_out, TaskEventPayload.timed_out d)
  failure_event error none none = (TaskStatus.failed, TaskEventPayload.failed (error_text error))

  abbrev pub emit_and_retire : TaskEvent → TaskId → ℕ → World W → Exit × World W
  emit_and_retire event task_id seq w =
      let (result, w') = emit worker event task_id seq w in (result, retire_task worker task_id w')

  abbrev pub or_closed : {A : Type 0} → TaskId → ℕ → Result A DispatchError → M W A
  or_closed task_id seq (ok a) = pure a
  or_closed task_id seq (err error) =
      λ w. (exit (err (event_write task_id seq task_channel_closed)), w)

  -- The deadline is read only if no cancellation is found.
  abbrev pub late_unless : Option Text → Option DateTime → World W → Option DateTime × World W
  late_unless (some reason) limit w = (none, w)
  late_unless none limit w = expired worker limit w

  unfoldable pub prepared_delivery_failure :
      Attempt W → DispatchRequest → ℕ → DispatchError → M W (Unit {0})
  prepared_delivery_failure at request seq error = do
    reason ← lift (cancel_reason worker at.task.task_id)
    late ← lift (late_unless reason at.task.deadline)
    let ending = failure_event error reason late
    event ← lift (make_event worker at.task.task_id seq ending.0 ending.1)
    stored ← lift (outside (at.dispatcher.finalize_delivery_failure request event))
    or_closed at.task.task_id seq stored
    exits (emit_and_retire event at.task.task_id seq)

  abbrev pub after_delivery :
      Attempt W → DispatchRequest → ℕ → ℕ → Raced (Result (Unit {0}) DispatchError) → M W (Unit {0})
  after_delivery at request attempt seq (done (ok u)) = pure tt
  after_delivery at request attempt seq (done (err error)) =
      if at.dispatcher.supports_prepared
      then prepared_delivery_failure at request seq error
      else on_refused at.task.task_id attempt seq error at.task.deadline
  after_delivery at request attempt seq (cancelled reason) =
      exits (cancel_task worker at.task.task_id seq reason)
  after_delivery at request attempt seq (timed_out d) =
      exits (timed_out_task worker at.task.task_id seq d)

  abbrev pub unraced {ℓ} : {A : Type ℓ} → (W → A × W) → World W → Raced A × World W
  unraced f w = let (a, w') = outside f w in (done a, w')

  -- A prepared delivery is not raced.
  unfoldable pub deliver : Attempt W → DispatchRequest → ℕ → ℕ → M W (Unit {0})
  deliver at request attempt seq = do
    delivered ← lift (
        if at.dispatcher.supports_prepared
        then unraced (at.dispatcher.deliver request)
        else race at.task.task_id at.task.deadline (at.dispatcher.deliver request))
    after_delivery at request attempt seq delivered
