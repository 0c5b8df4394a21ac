-- ===== src/Bus/Worker/Process.antt =====
-- `Worker::process` of src/bus/worker.rs: the checks on a dequeued task, then its attempts. The loop
-- takes fuel; as many rounds as the retry policy allows attempts are enough.
use guigu_agent_bridge.Prelude.{ℕ, zero, suc, ◌++◌, Option, none, some, Result, ok, err}
use guigu_agent_bridge.Prelude.Texts.{Text, codes}
use guigu_agent_bridge.Models.Task.{AgentTask, TaskId}
use guigu_agent_bridge.Models.Agent.{TransportType}
use guigu_agent_bridge.Bus.Error.{BusError, to_string}
use guigu_agent_bridge.Bus.Registry.{RegisteredEndpoint, validate_target}
use guigu_agent_bridge.Bus.Policy.{violation}
use guigu_agent_bridge.Bus.Worker.World.{
  World, Worker, TaskDispatcher, TaskLifecycle, get_dispatcher, QueueLeaseContext, error_text,
  DispatchError,
}
use guigu_agent_bridge.Bus.Worker.Events.{Exit, activate_task, fail_task}
use guigu_agent_bridge.Bus.Worker.Stages.{Attempt, outside, check}
use guigu_agent_bridge.Bus.Worker.Stages.Monad.{
  Flow, go, exit, again, M, ◌>>=◌, ◌>>◌, pure, lift, exits,
}
use guigu_agent_bridge.Bus.Worker.Execution.{attempt_once}

module _ {W : Type 0} (worker : Worker W) where
  abbrev pub fail_on_violation : TaskId → Option Text → M W (Unit {0})
  fail_on_violation task_id none = pure tt
  fail_on_violation task_id (some error) = exits (fail_task worker task_id 2 error)

  unfoldable pub check_limits : AgentTask → M W (Unit {0})
  check_limits task =
      fail_on_violation task.task_id (violation worker.outside.show_id worker.limits task)

  abbrev pub or_fail_target : TaskId → Result RegisteredEndpoint BusError → M W RegisteredEndpoint
  or_fail_target task_id (ok target) = pure target
  or_fail_target task_id (err error) =
      exits (fail_task worker task_id 2 (to_string worker.outside.show_id error))

  unfoldable pub find_target : AgentTask → M W RegisteredEndpoint
  find_target task = or_fail_target task.task_id (validate_target worker.registry task.to_agent)

  abbrev pub or_fail_transport :
      TaskId → TransportType → Option (TaskDispatcher W) → M W (TaskDispatcher W)
  or_fail_transport task_id transport (some dispatcher) = pure dispatcher
  or_fail_transport task_id transport none = exits (
      fail_task worker task_id 2 (
        codes "no dispatcher registered for transport " ++ worker.outside.show_transport transport))

  unfoldable pub find_dispatcher : AgentTask → RegisteredEndpoint → M W (TaskDispatcher W)
  find_dispatcher task target =
      or_fail_transport task.task_id target.transport
        (get_dispatcher worker.dispatchers target.transport)

  abbrev pub claimed :
      TaskId → Result (Option QueueLeaseContext) DispatchError → M W (Option QueueLeaseContext)
  claimed task_id (ok lease) = pure lease
  claimed task_id (err error) = exits (fail_task worker task_id 2 (error_text error))

  abbrev pub claim_with : AgentTask → Option (TaskLifecycle W) → M W (Option QueueLeaseContext)
  claim_with task none = pure none
  claim_with task (some lifecycle) = do
    answer ← lift (outside worker (lifecycle.claim_queue task))
    claimed task.task_id answer

  unfoldable pub claim_lease : AgentTask → M W (Option QueueLeaseContext)
  claim_lease task = claim_with task worker.lifecycle

  -- Everything before the loop, with `seq` 2 for a refusal.
  unfoldable pub claim_for : AgentTask → RegisteredEndpoint → TaskDispatcher W → M W (Attempt W)
  claim_for task target dispatcher = do
    lease ← claim_lease task
    pure (record { task = task; target = target; dispatcher = dispatcher; queue_lease = lease })

  unfoldable pub dispatch_to : AgentTask → RegisteredEndpoint → M W (Attempt W)
  dispatch_to task target = do
    dispatcher ← find_dispatcher task target
    claim_for task target dispatcher

  unfoldable pub route : AgentTask → M W (Attempt W)
  route task = do target ← find_target task; dispatch_to task target

  unfoldable pub admit : AgentTask → M W (Attempt W)
  admit task = do check worker task.task_id 2 task.deadline; check_limits task; route task

  abbrev pub continue :
      (ℕ → ℕ → World W → Option (Exit × World W)) → Flow ⊥ × World W → Option (Exit × World W)
  continue next (go absurd_value, w) = absurd absurd_value
  continue next (exit r, w) = some (r, w)
  continue next (again attempt seq, w) = next attempt seq w

  unfoldable pub attempts : ℕ → Attempt W → ℕ → ℕ → World W → Option (Exit × World W)
  attempts zero at attempt seq w = none
  attempts (suc fuel) at attempt seq w =
      continue (attempts fuel at) (attempt_once worker at attempt seq w)

  abbrev pub enter : ℕ → Flow (Attempt W) × World W → Option (Exit × World W)
  enter fuel (go at, w) = attempts fuel at 1 2 w
  enter fuel (exit r, w) = some (r, w)
  enter fuel (again attempt seq, w) = none

  unfoldable pub process : ℕ → AgentTask → World W → Option (Exit × World W)
  process fuel task w = enter fuel (admit task (activate_task worker task.task_id w))
