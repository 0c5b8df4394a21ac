-- ===== src/Bus/Worker/Trace.antt =====
-- The life of a task as the worker of src/bus/worker.rs may record it: which events may follow which,
-- with their sequence and attempt numbers.
use guigu_agent_bridge.Prelude.{ℕ, suc, ◌≡◌, List, ◌∷◌}
use guigu_agent_bridge.Prelude.Texts.{Text}
use guigu_agent_bridge.Models.Task.{TaskId, TaskStatus, DateTime, DeliveryId}
use guigu_agent_bridge.Models.Event.{TaskEvent, TaskEventPayload}

-- `ready n a`: event `n` comes next, and attempt `a` if it is a dispatch. `sent n a`: attempt `a` is
-- dispatched. `started n a`: attempt `a` runs. `done`: nothing follows.
pub data Phase : Type 0 where
  ready sent started : ℕ → ℕ → Phase
  done : Phase

pub record Is (task_id : TaskId) (n : ℕ) (status : TaskStatus) (payload : TaskEventPayload)
    (e : TaskEvent) : Type 0 where
  pub of_task : e.task_id ≡ task_id
  pub at_seq : e.seq ≡ n
  pub with_status : e.status ≡ status
  pub with_payload : e.payload ≡ payload

-- A terminal event that may end a task in any phase, and one with a result, which only a running
-- attempt has.
pub data Ends (task_id : TaskId) (n : ℕ) (e : TaskEvent) : Type 0 where
  as_failed :
      (error : Text)
      → Is task_id n TaskStatus.failed (TaskEventPayload.failed error) e
      → Ends task_id n e
  as_timed_out :
      (deadline : DateTime)
      → Is task_id n TaskStatus.timed_out (TaskEventPayload.timed_out deadline) e
      → Ends task_id n e
  as_cancelled :
      (reason : Text)
      → Is task_id n TaskStatus.cancelled (TaskEventPayload.cancelled reason) e
      → Ends task_id n e

pub data Next : Phase → ℕ → Type 0 where
  ready_next : (n a : ℕ) → Next (ready n a) n
  sent_next : (n a : ℕ) → Next (sent n a) n
  started_next : (n a : ℕ) → Next (started n a) n

-- The events of one task after those of `base`, the newest first, and the phase that they lead to.
pub data Trace (task_id : TaskId) (base : List TaskEvent) : List TaskEvent → Phase → Type 0 where
  begin : (es : List TaskEvent) (p : Phase) → es ≡ base → p ≡ ready 2 1 → Trace task_id base es p
  dispatch :
      {es : List TaskEvent} {n a : ℕ} (d : DeliveryId) (e : TaskEvent)
      → Trace task_id base es (ready n a)
      → Is task_id n TaskStatus.dispatched (TaskEventPayload.dispatched d a) e
      → Trace task_id base (e ∷ es) (sent (suc n) a)
  run :
      {es : List TaskEvent} {n a : ℕ} (t : DateTime) (e : TaskEvent)
      → Trace task_id base es (sent n a)
      → Is task_id n TaskStatus.running (TaskEventPayload.running t) e
      → Trace task_id base (e ∷ es) (started (suc n) a)
  refused :
      {es : List TaskEvent} {n a : ℕ}
      → Trace task_id base es (sent n a)
      → Trace task_id base es (ready n (suc a))
  broken :
      {es : List TaskEvent} {n a : ℕ}
      → Trace task_id base es (started n a)
      → Trace task_id base es (ready n (suc a))
  finish :
      {es : List TaskEvent} {p : Phase} {n : ℕ} (e : TaskEvent)
      → Trace task_id base es p
      → Next p n
      → Ends task_id n e
      → Trace task_id base (e ∷ es) done
  complete :
      {es : List TaskEvent} {n a : ℕ} (output : Text) (e : TaskEvent)
      → Trace task_id base es (started n a)
      → Is task_id n TaskStatus.completed (TaskEventPayload.completed output) e
      → Trace task_id base (e ∷ es) done
