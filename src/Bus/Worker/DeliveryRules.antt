-- ===== src/Bus/Worker/DeliveryRules.antt =====
-- The first half of an attempt in src/bus/worker.rs: its dispatch, its lease and its delivery.
use guigu_agent_bridge.Prelude.{
  ℕ, suc, ◌+◌, ◌≤◌, ◌≡◌, refl, ◌∙◌, Option, none, some, Bool, true, false, List, ◌∷◌, Result, ok,
  err, if◌then◌else◌, ◌<◌, ◌^◌,
}
use guigu_agent_bridge.Prelude.Texts.{Text}
use guigu_agent_bridge.Models.Task.{TaskStatus, DateTime}
use guigu_agent_bridge.Models.Event.{TaskEvent, TaskEventPayload}
use guigu_agent_bridge.Bus.Worker.World.{
  World, Worker, TaskLifecycle, DispatchError, DispatchRequest, QueueLeaseContext, error_text,
}
use guigu_agent_bridge.Bus.Worker.Events.{generate, make_event, cancel_reason, emit}
use guigu_agent_bridge.Bus.Worker.Trace.{
  Trace, Phase, ready, sent, sent_next, dispatch as dispatch_trace, refused as refused_trace,
}
use guigu_agent_bridge.Bus.Worker.Rules.{
  cancel_reason_recorded, expired_recorded, make_event-Is, make_event_recorded, Closes,
  Closes-failed, Closes-timed_out, Closes-cancelled, emit_retire-Ended, timed_out_task-Ended,
  cancel_task-Ended,
}
use guigu_agent_bridge.Bus.Worker.Stages.{
  Attempt, Raced, done, cancelled, timed_out, race, unraced, dispatch, fail_on_error, lease_with,
  keep_lease, failure_event, emit_and_retire, or_closed, late_unless, prepared_delivery_failure,
  after_delivery, deliver, on_refused,
}
use guigu_agent_bridge.Bus.Worker.StageRules.{
  Post, Post-bind, Post-if, race_recorded, try_emit-Post, fail_on_error-Post,
}
use guigu_agent_bridge.Bus.Worker.RefusalRules.{on_refused-Post}
use guigu_agent_bridge.Bus.Worker.Stages.Monad.{try, pure, exits, bind_at}

module _ {W : Type 0} (worker : Worker W) (at : Attempt W) (base : List TaskEvent) (a n : ℕ) where
  abbrev pub Here : Phase → World W → Type 0
  Here p w = Trace at.task.task_id base w.recorded p

  abbrev pub Leads : {A : Type 0} → Phase → A → World W → Type 0
  Leads p x w = Here p w

  pub dispatch-Post :
      (w : World W)
      → Here (ready n a) w
      → Post worker at.task.task_id base a n
          (Leads {A = DispatchRequest} (sent (suc n) a))
          (dispatch worker at a n w)
  unfolding dispatch generate
  dispatch-Post w t =
      let id = worker.outside.generate w.outer in
      let w₁ : World W = record w { outer = id.1 } in
      let payload = TaskEventPayload.dispatched id.0 a in
      let e = make_event worker at.task.task_id n TaskStatus.dispatched payload w₁ in
      let same = make_event_recorded worker at.task.task_id n TaskStatus.dispatched payload w₁ in
      Post-bind worker at.task.task_id base a n (Leads (sent (suc n) a)) (Leads (sent (suc n) a))
        (try (emit worker e.0 at.task.task_id n) e.1)
        (λ u. pure (record {
          task = at.task;
          target = at.target;
          delivery_id = id.0;
          attempt = a;
          queue_lease = at.queue_lease;
        }))
        (try_emit-Post worker at.task.task_id base a n e.0 n e.1 (ready n a) (sent (suc n) a)
          (rw same t)
          (rw same (
            dispatch_trace id.0 e.0 t
              (make_event-Is worker at.task.task_id n TaskStatus.dispatched payload w₁))))
        (λ u w' h. h)

  lease_with-Post :
      (l : Option (TaskLifecycle W)) (lease : Option QueueLeaseContext) (m : ℕ) (w : World W)
      → Here (sent m a) w
      → Post worker at.task.task_id base a n
          (Leads {A = Unit {0}} (sent m a))
          (lease_with worker at m l lease w)
  lease_with-Post none lease m w t = t
  lease_with-Post (some l) none m w t = t
  lease_with-Post (some l) (some lease) m w t =
      let marked = l.mark_queue_send_started at.task lease w.outer in
      Post-bind worker at.task.task_id base a n (Leads (sent m a)) (Leads (sent m a))
        (fail_on_error worker at.task.task_id m marked.0 (record w { outer = marked.1 }))
        (λ u w'.
          let renewed = l.renew_queue_lease at.task lease w'.outer in
          fail_on_error worker at.task.task_id m renewed.0 (record w' { outer = renewed.1 }))
        (fail_on_error-Post worker at.task.task_id base a n marked.0 {p = sent m a} {m = m}
          (record w { outer = marked.1 }) t (sent_next m a))
        (λ u w' t'.
          let renewed = l.renew_queue_lease at.task lease w'.outer in
          fail_on_error-Post worker at.task.task_id base a n renewed.0 {p = sent m a} {m = m}
            (record w' { outer = renewed.1 }) t' (sent_next m a))

  pub keep_lease-Post :
      (m : ℕ) (w : World W)
      → Here (sent m a) w
      → Post worker at.task.task_id base a n
          (Leads {A = Unit {0}} (sent m a))
          (keep_lease worker at m w)
  unfolding keep_lease
  keep_lease-Post = lease_with-Post worker.lifecycle at.queue_lease

  late_unless_recorded :
      (reason : Option Text) (limit : Option DateTime) (w : World W)
      → (late_unless worker reason limit w).1.recorded ≡ w.recorded
  late_unless_recorded (some r) limit w = refl
  late_unless_recorded none limit w = expired_recorded worker limit w

  failure_event-Closes :
      (error : DispatchError) (reason : Option Text) (late : Option DateTime) (m : ℕ)
      (es : List TaskEvent)
      → Trace at.task.task_id base es (sent m a)
      → let f = failure_event worker error reason late in
        Closes worker at.task.task_id base es m f.0 f.1
  failure_event-Closes error (some r) late m es t =
      Closes-cancelled worker at.task.task_id base r t (sent_next m a)
  failure_event-Closes error none (some d) m es t =
      Closes-timed_out worker at.task.task_id base d t (sent_next m a)
  failure_event-Closes error none none m es t =
      Closes-failed worker at.task.task_id base (error_text error) t (sent_next m a)

  stored-Post :
      (r : Result (Unit {0}) DispatchError) (event : TaskEvent) (m : ℕ) (w : World W)
      → Here (sent m a) w
      → Trace at.task.task_id base (event ∷ w.recorded) Phase.done
      → Post worker at.task.task_id base a n (Leads {A = Unit {0}} (sent m a)) (
          bind_at
            (or_closed worker at.task.task_id m r w)
            (λ u. exits (emit_and_retire worker event at.task.task_id m)))
  stored-Post (ok u) event m w t c =
      emit_retire-Ended worker at.task.task_id base event m w {p = sent m a} t c
  stored-Post (err e) event m w t c = (sent m a, t)

  prepared_delivery_failure-Post :
      (request : DispatchRequest) (m : ℕ) (error : DispatchError) (w : World W)
      → Here (sent m a) w
      → Post worker at.task.task_id base a n
          (Leads {A = Unit {0}} (sent m a))
          (prepared_delivery_failure worker at request m error w)
  unfolding prepared_delivery_failure
  prepared_delivery_failure-Post request m error w t =
      let c = cancel_reason worker at.task.task_id w in
      let l = late_unless worker c.0 at.task.deadline c.1 in
      let f = failure_event worker error c.0 l.0 in
      let e = make_event worker at.task.task_id m f.0 f.1 l.1 in
      let s = at.dispatcher.finalize_delivery_failure request e.0 e.1.outer in
      let same : e.1.recorded ≡ w.recorded =
        make_event_recorded worker at.task.task_id m f.0 f.1 l.1
        ∙ (late_unless_recorded c.0 at.task.deadline c.1
            ∙ cancel_reason_recorded worker at.task.task_id w) in
      stored-Post s.0 e.0 m (record (e.1) { outer = s.1 }) (rw same t)
        (rw same (
          failure_event-Closes error c.0 l.0 m w.recorded t e.0
            (make_event-Is worker at.task.task_id m f.0 f.1 l.1)))

  after_delivery-Post :
      (request : DispatchRequest) (m : ℕ) (r : Raced (Result (Unit {0}) DispatchError))
      (w : World W)
      → worker.retry.max_attempts < 2 ^ 32
      → m ≤ n + 2
      → Here (sent m a) w
      → Post worker at.task.task_id base a n
          (Leads {A = Unit {0}} (sent m a))
          (after_delivery worker at request a m r w)
  after_delivery-Post request m (done (ok u)) w small near t = t
  after_delivery-Post request m (done (err e)) w small near t =
      Post-if worker at.task.task_id base a n (Leads {A = Unit {0}} (sent m a))
        at.dispatcher.supports_prepared (prepared_delivery_failure worker at request m e)
        (on_refused worker at.task.task_id a m e at.task.deadline) w
        (prepared_delivery_failure-Post request m e w t)
        (on_refused-Post worker at.task.task_id base a n (Unit {0}) (Leads (sent m a)) e
          at.task.deadline m w (sent m a) small t (refused_trace t) (sent_next m a) near)
  after_delivery-Post request m (cancelled reason) w small near t =
      cancel_task-Ended worker at.task.task_id base m reason w t (sent_next m a)
  after_delivery-Post request m (timed_out d) w small near t =
      timed_out_task-Ended worker at.task.task_id base m d w t (sent_next m a)

  delivered_recorded :
      (b : Bool) (request : DispatchRequest) (w : World W)
      → ((if b
            then unraced worker (at.dispatcher.deliver request)
            else race worker at.task.task_id at.task.deadline (at.dispatcher.deliver request))
          w).1.recorded
        ≡ w.recorded
  delivered_recorded true request w = refl
  delivered_recorded false request w =
      race_recorded worker at.task.task_id base a n at.task.deadline (at.dispatcher.deliver request)
        w

  pub deliver-Post :
      (request : DispatchRequest) (m : ℕ) (w : World W)
      → worker.retry.max_attempts < 2 ^ 32
      → m ≤ n + 2
      → Here (sent m a) w
      → Post worker at.task.task_id base a n
          (Leads {A = Unit {0}} (sent m a))
          (deliver worker at request a m w)
  unfolding deliver
  deliver-Post request m w small near t =
      let raced =
        (if at.dispatcher.supports_prepared
            then unraced worker (at.dispatcher.deliver request)
            else race worker at.task.task_id at.task.deadline (at.dispatcher.deliver request))
          w in
      after_delivery-Post request m raced.0 raced.1 small near
        (rw (delivered_recorded at.dispatcher.supports_prepared request w) t)
