-- ===== src/Bus/Worker/ExecutionRules.antt =====
-- The second half of an attempt in src/bus/worker.rs: its acceptance, its start and its execution.
use guigu_agent_bridge.Prelude.{
  ℕ, suc, ◌+◌, ◌≤◌, refl, Option, none, some, List, Result, ok, err, ◌<◌, ◌^◌,
}
use guigu_agent_bridge.Prelude.Texts.{Text, codes}
use guigu_agent_bridge.Models.Task.{TaskStatus, DateTime}
use guigu_agent_bridge.Models.Event.{TaskEvent, TaskEventPayload}
use guigu_agent_bridge.Bus.Worker.World.{
  World, Worker, DispatchError, DispatchOutcome, DispatchRequest, PreparedExecution,
  FinalizationCapability, error_text,
}
use guigu_agent_bridge.Bus.Worker.Events.{
  now, generate, cancel_reason, expired, finalize_capability, cancel_task, timed_out_task,
}
use guigu_agent_bridge.Bus.Worker.Trace.{
  Trace, Phase, sent, started, Next, sent_next, started_next, run, broken,
}
use guigu_agent_bridge.Bus.Worker.Rules.{
  cancel_reason_recorded, expired_recorded, Closes, Closes-timed_out, Closes-cancelled,
  fail_task-Ended, timed_out_task-Ended, cancel_task-Ended, completed_task-Ended,
  finalize_capability-Ended, finalize_prepared-Ended,
}
use guigu_agent_bridge.Bus.Worker.Stages.{
  Attempt, Raced, done, cancelled, timed_out, race, or_closed,
}
use guigu_agent_bridge.Bus.Worker.Stages.Monad.{exits, bind_at}
use guigu_agent_bridge.Bus.Worker.Execution.{
  finalize_cancelled, cancel_attempt, time_out_attempt, accept_unless_late, accept_unless_cancelled,
  check_accepted, start, prepared_error, after_prepared, after_execute, execute_prepared,
  execute_plain, execute,
}
use guigu_agent_bridge.Bus.Worker.StageRules.{Post, Post-if, race_recorded, try_emit-Post}
use guigu_agent_bridge.Bus.Worker.RefusalRules.{on_refused-Post}
use guigu_agent_bridge.Bus.Worker.DeliveryRules.{Here, Leads}

module _ {W : Type 0} (worker : Worker W) (at : Attempt W) (base : List TaskEvent) (a n : ℕ) where
  given-Post :
      (A : Type 0) (Q : A → World W → Type 0) (r : Result FinalizationCapability DispatchError)
      (m : ℕ) (status : TaskStatus) (payload : TaskEventPayload) (w : World W) (p : Phase)
      → Trace at.task.task_id base w.recorded p
      → Closes worker at.task.task_id base w.recorded m status payload
      → Post worker at.task.task_id base a n Q (
          bind_at (or_closed worker at.task.task_id m r w) (λ capability.
            exits (finalize_capability worker at.task.task_id m status payload capability)))
  given-Post A Q (ok capability) m status payload w p t c =
      finalize_capability-Ended worker at.task.task_id base m status payload capability w t c
  given-Post A Q (err e) m status payload w p t c = (p, t)

  finalize_cancelled-Post :
      (A : Type 0) (Q : A → World W → Type 0) (request : DispatchRequest) (m : ℕ) (reason : Text)
      (status : TaskStatus) (payload : TaskEventPayload) (w : World W) (p : Phase)
      → Trace at.task.task_id base w.recorded p
      → Closes worker at.task.task_id base w.recorded m status payload
      → Post worker at.task.task_id base a n Q
          (finalize_cancelled worker at request m reason status payload w)
  unfolding finalize_cancelled
  finalize_cancelled-Post A Q request m reason status payload w p t c =
      let r = at.dispatcher.cancel_prepared request reason w.outer in
      given-Post A Q r.0 m status payload (record w { outer = r.1 }) p t c

  cancel_attempt-Post :
      (A : Type 0) (Q : A → World W → Type 0) (request : DispatchRequest) (m : ℕ) (reason : Text)
      (w : World W) (p : Phase)
      → Trace at.task.task_id base w.recorded p
      → Next p m
      → Post worker at.task.task_id base a n Q (cancel_attempt worker at request m reason w)
  unfolding cancel_attempt
  cancel_attempt-Post A Q request m reason w p t h =
      Post-if worker at.task.task_id base a n Q at.dispatcher.supports_prepared
        (finalize_cancelled worker at request m reason TaskStatus.cancelled
          (TaskEventPayload.cancelled reason))
        (exits (cancel_task worker at.task.task_id m reason)) w
        (finalize_cancelled-Post A Q request m reason TaskStatus.cancelled
          (TaskEventPayload.cancelled reason) w p t
          (Closes-cancelled worker at.task.task_id base reason t h))
        (cancel_task-Ended worker at.task.task_id base m reason w t h)

  time_out_attempt-Post :
      (A : Type 0) (Q : A → World W → Type 0) (request : DispatchRequest) (m : ℕ) (d : DateTime)
      (w : World W) (p : Phase)
      → Trace at.task.task_id base w.recorded p
      → Next p m
      → Post worker at.task.task_id base a n Q (time_out_attempt worker at request m d w)
  unfolding time_out_attempt
  time_out_attempt-Post A Q request m d w p t h =
      Post-if worker at.task.task_id base a n Q at.dispatcher.supports_prepared
        (finalize_cancelled worker at request m (codes "task deadline elapsed") TaskStatus.timed_out
          (TaskEventPayload.timed_out d))
        (exits (timed_out_task worker at.task.task_id m d)) w
        (finalize_cancelled-Post A Q request m (codes "task deadline elapsed") TaskStatus.timed_out
          (TaskEventPayload.timed_out d) w p t (Closes-timed_out worker at.task.task_id base d t h))
        (timed_out_task-Ended worker at.task.task_id base m d w t h)

  accept_unless_late-Post :
      (request : DispatchRequest) (m : ℕ) (late : Option DateTime) (w : World W)
      → Here worker at base a n (sent m a) w
      → Post worker at.task.task_id base a n
          (Leads worker at base a n {A = Unit {0}} (sent m a))
          (accept_unless_late worker at request m late w)
  accept_unless_late-Post request m (some d) w t =
      time_out_attempt-Post (Unit {0}) (Leads worker at base a n (sent m a)) request m d w
        (sent m a) t (sent_next m a)
  accept_unless_late-Post request m none w t = t

  accept_unless_cancelled-Post :
      (request : DispatchRequest) (m : ℕ) (reason : Option Text) (w : World W)
      → Here worker at base a n (sent m a) w
      → Post worker at.task.task_id base a n
          (Leads worker at base a n {A = Unit {0}} (sent m a))
          (accept_unless_cancelled worker at request m reason w)
  accept_unless_cancelled-Post request m (some reason) w t =
      cancel_attempt-Post (Unit {0}) (Leads worker at base a n (sent m a)) request m reason w
        (sent m a) t (sent_next m a)
  accept_unless_cancelled-Post request m none w t =
      let late = expired worker at.task.deadline w in
      accept_unless_late-Post request m late.0 late.1
        (rw (expired_recorded worker at.task.deadline w) t)

  pub check_accepted-Post :
      (request : DispatchRequest) (m : ℕ) (w : World W)
      → Here worker at base a n (sent m a) w
      → Post worker at.task.task_id base a n
          (Leads worker at base a n {A = Unit {0}} (sent m a))
          (check_accepted worker at request m w)
  unfolding check_accepted
  check_accepted-Post request m w t =
      let reason = cancel_reason worker at.task.task_id w in
      accept_unless_cancelled-Post request m reason.0 reason.1
        (rw (cancel_reason_recorded worker at.task.task_id w) t)

  pub start-Post :
      (m : ℕ) (w : World W)
      → Here worker at base a n (sent m a) w
      → Post worker at.task.task_id base a n
          (Leads worker at base a n {A = Unit {0}} (started (suc m) a))
          (start worker at m w)
  unfolding start now generate
  start-Post m w t =
      let at_time = worker.outside.now w.outer in
      let id = worker.outside.generate at_time.1 in
      let e : TaskEvent = record {
        id = id.0;
        task_id = at.task.task_id;
        seq = m;
        status = TaskStatus.running;
        timestamp = at_time.0;
        payload = TaskEventPayload.running at_time.0;
      } in
      try_emit-Post worker at.task.task_id base a n e m (record w { outer = id.1 }) (sent m a)
        (started (suc m) a) t
        (run at_time.0 e t
          (record { of_task = refl; at_seq = refl; with_status = refl; with_payload = refl }))

  prepared_error-Post :
      (Q : ⊥ → World W → Type 0) (m : ℕ) (error : DispatchError) (w : World W)
      → Here worker at base a n (started m a) w
      → Post worker at.task.task_id base a n Q (prepared_error worker at.task.task_id m error w)
  prepared_error-Post Q m DispatchError.recovery_needed w t = (started m a, t)
  prepared_error-Post Q m error w t =
      fail_task-Ended worker at.task.task_id base m (error_text error) w t (started_next m a)

  after_prepared-Post :
      (Q : ⊥ → World W → Type 0) (request : DispatchRequest) (m : ℕ)
      (r : Raced (Result PreparedExecution DispatchError)) (w : World W)
      → Here worker at base a n (started m a) w
      → Post worker at.task.task_id base a n Q (after_prepared worker at request m r w)
  after_prepared-Post Q request m (done (ok prepared)) w t =
      finalize_prepared-Ended worker at.task.task_id base m a prepared w t
  after_prepared-Post Q request m (done (err e)) w t = prepared_error-Post Q m e w t
  after_prepared-Post Q request m (cancelled reason) w t =
      finalize_cancelled-Post ⊥ Q request m reason TaskStatus.cancelled
        (TaskEventPayload.cancelled reason) w (started m a) t
        (Closes-cancelled worker at.task.task_id base reason t (started_next m a))
  after_prepared-Post Q request m (timed_out d) w t =
      finalize_cancelled-Post ⊥ Q request m (codes "task deadline elapsed") TaskStatus.timed_out
        (TaskEventPayload.timed_out d) w (started m a) t
        (Closes-timed_out worker at.task.task_id base d t (started_next m a))

  after_execute-Post :
      (Q : ⊥ → World W → Type 0) (request : DispatchRequest) (m : ℕ)
      (r : Raced (Result DispatchOutcome DispatchError)) (w : World W)
      → worker.retry.max_attempts < 2 ^ 32
      → m ≤ n + 2
      → Here worker at base a n (started m a) w
      → Post worker at.task.task_id base a n Q (after_execute worker at request a m r w)
  after_execute-Post Q request m (done (ok (DispatchOutcome.completed output))) w small near t =
      completed_task-Ended worker at.task.task_id base m a output w t
  after_execute-Post Q request m (done (ok (DispatchOutcome.failed error))) w small near t =
      fail_task-Ended worker at.task.task_id base m error w t (started_next m a)
  after_execute-Post Q request m (done (err e)) w small near t =
      on_refused-Post worker at.task.task_id base a n ⊥ Q e at.task.deadline m w (started m a) small
        t (broken t) (started_next m a) near
  after_execute-Post Q request m (cancelled reason) w small near t =
      cancel_task-Ended worker at.task.task_id base m reason w t (started_next m a)
  after_execute-Post Q request m (timed_out d) w small near t =
      timed_out_task-Ended worker at.task.task_id base m d w t (started_next m a)

  execute_prepared-Post :
      (Q : ⊥ → World W → Type 0) (request : DispatchRequest) (m : ℕ) (w : World W)
      → Here worker at base a n (started m a) w
      → Post worker at.task.task_id base a n Q (execute_prepared worker at request m w)
  unfolding execute_prepared
  execute_prepared-Post Q request m w t =
      let f = at.dispatcher.execute_prepared request in
      let r = race worker at.task.task_id at.task.deadline f w in
      after_prepared-Post Q request m r.0 r.1
        (rw (race_recorded worker at.task.task_id base a n at.task.deadline f w) t)

  execute_plain-Post :
      (Q : ⊥ → World W → Type 0) (request : DispatchRequest) (m : ℕ) (w : World W)
      → worker.retry.max_attempts < 2 ^ 32
      → m ≤ n + 2
      → Here worker at base a n (started m a) w
      → Post worker at.task.task_id base a n Q (execute_plain worker at request a m w)
  unfolding execute_plain
  execute_plain-Post Q request m w small near t =
      let f = at.dispatcher.execute request in
      let r = race worker at.task.task_id at.task.deadline f w in
      after_execute-Post Q request m r.0 r.1 small near
        (rw (race_recorded worker at.task.task_id base a n at.task.deadline f w) t)

  pub execute-Post :
      (Q : ⊥ → World W → Type 0) (request : DispatchRequest) (m : ℕ) (w : World W)
      → worker.retry.max_attempts < 2 ^ 32
      → m ≤ n + 2
      → Here worker at base a n (started m a) w
      → Post worker at.task.task_id base a n Q (execute worker at request a m w)
  unfolding execute
  execute-Post Q request m w small near t =
      Post-if worker at.task.task_id base a n Q at.dispatcher.supports_prepared
        (execute_prepared worker at request m) (execute_plain worker at request a m) w
        (execute_prepared-Post Q request m w t) (execute_plain-Post Q request m w small near t)
