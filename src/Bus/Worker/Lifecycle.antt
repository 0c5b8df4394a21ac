-- ===== src/Bus/Worker/Lifecycle.antt =====
-- `Worker::process` of src/bus/worker.rs on any task, against any outside.
use guigu_agent_bridge.Prelude.{
  ℕ, ◌^◌, ◌≤◌, ◌<◌, ◌≡◌, refl, sym, Option, none, some, List, Result, ok, err, max, arith,
}
use mathlib.Core.Path.{subst}
use guigu_agent_bridge.Prelude.Texts.{Text}
use guigu_agent_bridge.Models.Task.{AgentTask}
use guigu_agent_bridge.Models.Event.{TaskEvent}
use guigu_agent_bridge.Models.Agent.{TransportType}
use guigu_agent_bridge.Bus.Error.{BusError, to_string}
use guigu_agent_bridge.Bus.Registry.{RegisteredEndpoint, validate_target}
use guigu_agent_bridge.Bus.Policy.{violation}
use guigu_agent_bridge.Bus.Worker.World.{
  World, Worker, TaskDispatcher, TaskLifecycle, get_dispatcher, QueueLeaseContext, error_text,
  DispatchError,
}
use guigu_agent_bridge.Bus.Worker.Events.{activate_task, fail_task}
use guigu_agent_bridge.Bus.Worker.Trace.{Trace, ready, begin, ready_next}
use guigu_agent_bridge.Bus.Worker.Rules.{Ended, fail_task-Ended, activate_task_recorded}
use guigu_agent_bridge.Bus.Worker.Stages.{Attempt, check}
use guigu_agent_bridge.Bus.Worker.Stages.Monad.{Flow, go, exit, again, M, ◌>>◌, pure, bind_at}
use guigu_agent_bridge.Bus.Worker.Process.{
  fail_on_violation, check_limits, or_fail_target, find_target, or_fail_transport, find_dispatcher,
  claimed, claim_with, claim_lease, claim_for, dispatch_to, route, admit, attempts, enter, process,
}
use guigu_agent_bridge.Bus.Worker.StageRules.{Post, Post-bind, check-Post}
use guigu_agent_bridge.Bus.Worker.Grammar.{EndsRun, attempts-EndsRun}

module _ {W : Type 0} (worker : Worker W) (task : AgentTask) (base : List TaskEvent) where
  -- Nothing is recorded yet. Before the loop no attempt can be repeated, which the bound says.
  abbrev Fresh : World W → Type 0
  Fresh w = Trace task.task_id base w.recorded (ready 2 1)

  abbrev limit : ℕ
  limit = max worker.retry.max_attempts 1

  abbrev Stays : {A : Type 0} → A → World W → Type 0
  Stays x w = Fresh w

  abbrev Admits : {A : Type 0} → (A → World W → Type 0) → Flow A × World W → Type 0
  Admits Q = Post worker task.task_id base limit 0 Q

  failed_at_2 :
      (error : Text) (w : World W)
      → Fresh w
      → let r = fail_task worker task.task_id 2 error w in Ended worker task.task_id base r.0 r.1
  failed_at_2 error w t = fail_task-Ended worker task.task_id base 2 error w t (ready_next 2 1)

  violation-Admits :
      (v : Option Text) (w : World W)
      → Fresh w
      → Admits (Stays {A = Unit {0}}) (fail_on_violation worker task.task_id v w)
  violation-Admits none w t = t
  violation-Admits (some error) w t = failed_at_2 error w t

  target-Admits :
      (r : Result RegisteredEndpoint BusError) (w : World W)
      → Fresh w
      → Admits (Stays {A = RegisteredEndpoint}) (or_fail_target worker task.task_id r w)
  target-Admits (ok target) w t = t
  target-Admits (err e) w t = failed_at_2 (to_string worker.outside.show_id e) w t

  dispatcher-Admits :
      (transport : TransportType) (d : Option (TaskDispatcher W)) (w : World W)
      → Fresh w
      → Admits (Stays {A = TaskDispatcher W}) (or_fail_transport worker task.task_id transport d w)
  dispatcher-Admits transport (some d) w t = t
  dispatcher-Admits transport none w t = failed_at_2 _ w t

  claimed-Admits :
      (r : Result (Option QueueLeaseContext) DispatchError) (w : World W)
      → Fresh w
      → Admits (Stays {A = Option QueueLeaseContext}) (claimed worker task.task_id r w)
  claimed-Admits (ok lease) w t = t
  claimed-Admits (err e) w t = failed_at_2 (error_text e) w t

  claim-Admits :
      (l : Option (TaskLifecycle W)) (w : World W)
      → Fresh w
      → Admits (Stays {A = Option QueueLeaseContext}) (claim_with worker task l w)
  claim-Admits none w t = t
  claim-Admits (some l) w t =
      let r = l.claim_queue task w.outer in claimed-Admits r.0 (record w { outer = r.1 }) t

  abbrev Ready : Attempt W → World W → Type 0
  Ready at w = (at.task ≡ task) × Fresh w

  rule :
      {A B : Type 0} (R : B → World W → Type 0) (r : Flow A × World W) (f : A → M W B)
      → Admits Stays r
      → ((x : A) (w : World W) → Fresh w → Admits R (f x w))
      → Admits R (bind_at r f)
  rule R r f h k = Post-bind worker task.task_id base limit 0 Stays R r f h k

  claim_for-Admits :
      (target : RegisteredEndpoint) (dispatcher : TaskDispatcher W) (w : World W)
      → Fresh w
      → Admits Ready (claim_for worker task target dispatcher w)
  unfolding claim_for claim_lease
  claim_for-Admits target dispatcher w t =
      rule Ready (claim_lease worker task w)
        (λ lease.
          pure
            (record { task = task; target = target; dispatcher = dispatcher; queue_lease = lease }))
        (claim-Admits worker.lifecycle w t) (λ lease w' t'. (refl, t'))

  dispatch_to-Admits :
      (target : RegisteredEndpoint) (w : World W)
      → Fresh w
      → Admits Ready (dispatch_to worker task target w)
  unfolding dispatch_to find_dispatcher
  dispatch_to-Admits target w t =
      rule Ready (find_dispatcher worker task target w) (claim_for worker task target)
        (dispatcher-Admits target.transport (get_dispatcher worker.dispatchers target.transport) w
          t)
        (claim_for-Admits target)

  route-Admits : (w : World W) → Fresh w → Admits Ready (route worker task w)
  unfolding route find_target
  route-Admits w t =
      rule Ready (find_target worker task w) (dispatch_to worker task)
        (target-Admits (validate_target worker.registry task.to_agent) w t) dispatch_to-Admits

  admit-Admits : (w : World W) → Fresh w → Admits Ready (admit worker task w)
  unfolding admit check_limits
  admit-Admits w t =
      rule Ready (check worker task.task_id 2 task.deadline w)
        (λ u. do check_limits worker task; route worker task)
        (check-Post worker task.task_id base limit 0 task.deadline {p = ready 2 1} {m = 2} w t
          (ready_next 2 1))
        (λ u w₁ t₁.
          rule Ready (check_limits worker task w₁) (λ u. route worker task)
            (violation-Admits (violation worker.outside.show_id worker.limits task) w₁ t₁)
            (λ u. route-Admits))

  enter-EndsRun :
      (fuel : ℕ) (r : Flow (Attempt W) × World W)
      → worker.retry.max_attempts < 2 ^ 32
      → max worker.retry.max_attempts 1 ≤ fuel
      → Admits Ready r
      → EndsRun worker task.task_id base (enter worker fuel r)
  enter-EndsRun fuel (go at, w) small enough h =
      subst (λ t. EndsRun worker t.task_id base (attempts worker fuel at 1 2 w)) h.0
        (attempts-EndsRun worker at base fuel 1 2 w small (omega arith) (omega arith) (omega arith)
          (subst (λ t. Trace t.task_id base w.recorded (ready 2 1)) (sym h.0) h.1))
  enter-EndsRun fuel (exit r, w) small enough h = h
  enter-EndsRun fuel (again b m, w) small enough h = absurd (omega (arith, h.next, h.allowed))

-- A task that was dequeued always gets a result when the fuel is at least the number of allowed attempts
-- (and at least one) and that number fits 32 bits, whatever the outside answers. After success the events
-- recorded for the task are a complete trace: each event has the sequence number after the last one,
-- from 2; attempts are dispatched in order, run only when dispatched, and a completion only follows a
-- run; exactly one terminal event is last; and the cancellation table, if there is one, no longer
-- tracks the task. After an error they are a trace that the worker may have at that point.
pub process_ends :
    {W : Type 0} (worker : Worker W) (fuel : ℕ) (task : AgentTask) (w : World W)
    → worker.retry.max_attempts < 2 ^ 32
    → max worker.retry.max_attempts 1 ≤ fuel
    → EndsRun worker task.task_id w.recorded (process worker fuel task w)
unfolding process
process_ends worker fuel task w small enough =
    enter-EndsRun worker task w.recorded fuel
      (admit worker task (activate_task worker task.task_id w)) small enough
      (admit-Admits worker task w.recorded (activate_task worker task.task_id w)
        (begin _ _ (activate_task_recorded worker task.task_id w) refl))
