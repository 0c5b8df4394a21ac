-- ===== src/Bus/Worker/StageRules.antt =====
-- What each stage of an attempt in src/bus/worker.rs leaves: a trace to go on with, a closed one, or a
-- trace that is ready for the next attempt.
use guigu_agent_bridge.Prelude.{
  ℕ, suc, ◌+◌, ◌≤◌, ◌≡◌, inl, inr, refl, ◌∙◌, Option, none, some, Bool, true, false, List, ◌∷◌, max,
  Result, ok, err, if◌then◌else◌, arith, Bool-cases,
}
use guigu_agent_bridge.Prelude.Texts.{Text}
use guigu_agent_bridge.Models.Task.{TaskId, DateTime}
use guigu_agent_bridge.Models.Event.{TaskEvent}
use guigu_agent_bridge.Bus.Worker.World.{World, Worker, First, DispatchError}
use guigu_agent_bridge.Bus.Worker.Events.{Exit, cancel_reason, expired, emit}
use guigu_agent_bridge.Bus.Worker.Trace.{Trace, Phase, ready, Next}
use guigu_agent_bridge.Bus.Worker.Rules.{
  Emitted, written, refused as not_written, emit-Emitted, cancel_reason_recorded, expired_recorded,
  Ended, fail_task-Ended, timed_out_task-Ended, cancel_task-Ended,
}
use guigu_agent_bridge.Bus.Worker.Stages.{
  cancelled_or, raced_with, race, stop_if_late, stop_if_cancelled, check, fail_on_error,
}
use guigu_agent_bridge.Bus.Worker.Stages.Monad.{Flow, go, exit, again, M, bind_at, or_exit, try}

module _ {W : Type 0} (worker : Worker W) (task_id : TaskId) (base : List TaskEvent) (a n : ℕ) where
  abbrev pub TraceAt : World W → Phase → Type 0
  TraceAt w p = Trace task_id base w.recorded p

  -- The next attempt is the one after `a`, the policy allows it, and at most two events were
  -- recorded since the attempt began at `n`.
  pub record Again (b m : ℕ) (w : World W) : Type 0 where
    pub next : b ≡ suc a
    pub allowed : b ≤ max worker.retry.max_attempts 1
    pub near : m ≤ n + 2
    pub trace : Trace task_id base w.recorded (ready m b)

  abbrev pub Post {ℓ} : {A : Type ℓ} → (A → World W → Type 0) → Flow A × World W → Type 0
  Post Q (go x, w) = Q x w
  Post Q (exit r, w) = Ended worker task_id base r w
  Post Q (again b m, w) = Again b m w

  -- The rule for a sequence of two stages.
  pub Post-bind {ℓ κ} :
      {A : Type ℓ} {B : Type κ} (Q : A → World W → Type 0) (R : B → World W → Type 0)
      (r : Flow A × World W) (f : A → M W B)
      → Post Q r
      → ((x : A) (w : World W) → Q x w → Post R (f x w))
      → Post R (bind_at r f)
  Post-bind Q R (go x, w) f h k = k x w h
  Post-bind Q R (exit r, w) f h k = h
  Post-bind Q R (again b m, w) f h k = h

  -- The rule for a stage that depends on a test.
  pub Post-if :
      {A : Type 0} (Q : A → World W → Type 0) (b : Bool) (x y : M W A) (w : World W)
      → Post Q (x w)
      → Post Q (y w)
      → Post Q ((if b then x else y) w)
  Post-if Q true x y w h k = h
  Post-if Q false x y w h k = k

  -- A race changes no recorded event.
  cancelled_or_recorded {ℓ} :
      {A : Type ℓ} (f : W → A × W) (r : Option Text × World W)
      → (cancelled_or worker f r).1.recorded ≡ r.1.recorded
  cancelled_or_recorded f (some reason, w) = refl
  cancelled_or_recorded f (none, w) = refl

  raced_with_recorded {ℓ} :
      {A : Type ℓ} (limit : Option DateTime) (f : W → A × W) (first : First) (w : World W)
      → (raced_with worker task_id limit f first w).1.recorded ≡ w.recorded
  raced_with_recorded limit f First.stage w = refl
  raced_with_recorded limit f First.cancellation w =
      cancelled_or_recorded f (cancel_reason worker task_id w)
      ∙ cancel_reason_recorded worker task_id w
  raced_with_recorded none f First.deadline w = refl
  raced_with_recorded (some limit) f First.deadline w = elim (Bool-cases worker.timer) [
    | inl e ↦ ground arith
    | inr e ↦ ground arith
  ]

  pub race_recorded {ℓ} :
      {A : Type ℓ} (limit : Option DateTime) (f : W → A × W) (w : World W)
      → (race worker task_id limit f w).1.recorded ≡ w.recorded
  unfolding race
  race_recorded limit f w =
      let o = worker.outside.first w.outer in
      raced_with_recorded limit f o.0 (record w { outer = o.1 })

  -- The checkpoint goes on with nothing recorded, or closes the trace.
  stop_if_late-Post :
      (d : Option DateTime) {p : Phase} {m : ℕ} (w : World W)
      → TraceAt w p
      → Next p m
      → Post (λ u w'. TraceAt w' p) (stop_if_late worker task_id m d w)
  stop_if_late-Post (some d) {m = m} w t h = timed_out_task-Ended worker task_id base m d w t h
  stop_if_late-Post none w t h = t

  stop_if_cancelled-Post :
      (limit : Option DateTime) (reason : Option Text) {p : Phase} {m : ℕ} (w : World W)
      → TraceAt w p
      → Next p m
      → Post (λ u w'. TraceAt w' p) (stop_if_cancelled worker task_id m limit reason w)
  stop_if_cancelled-Post limit (some reason) {m = m} w t h =
      cancel_task-Ended worker task_id base m reason w t h
  stop_if_cancelled-Post limit none {p = p} {m = m} w t h =
      stop_if_late-Post (expired worker limit w).0 {p = p} {m = m} (expired worker limit w).1
        (rw (expired_recorded worker limit w) t) h

  pub check-Post :
      (limit : Option DateTime) {p : Phase} {m : ℕ} (w : World W)
      → TraceAt w p
      → Next p m
      → Post (λ u w'. TraceAt w' p) (check worker task_id m limit w)
  unfolding check
  check-Post limit {p = p} {m = m} w t h =
      stop_if_cancelled-Post limit (cancel_reason worker task_id w).0 {p = p} {m = m}
        (cancel_reason worker task_id w).1 (rw (cancel_reason_recorded worker task_id w) t) h

  try_written-Post :
      (event : TaskEvent) (es : List TaskEvent) (r : Exit × World W) (p q : Phase)
      → Emitted worker event es r
      → Trace task_id base es p
      → Trace task_id base (event ∷ es) q
      → Post (λ u w. TraceAt w q) (or_exit r.0, r.1)
  try_written-Post event es (ok u, w) p q (written e rec) t c = rw rec c
  try_written-Post event es (ok u, w) p q (not_written x e rec) t c = cc
  try_written-Post event es (err x, w) p q (written e rec) t c = cc
  try_written-Post event es (err x, w) p q (not_written y e rec) t c = (p, rw rec t)

  -- `emit(...).await?` with an event that the trace admits.
  pub try_emit-Post :
      (event : TaskEvent) (m : ℕ) (w : World W) (p q : Phase)
      → TraceAt w p
      → Trace task_id base (event ∷ w.recorded) q
      → Post (λ u w'. TraceAt w' q) (try (emit worker event task_id m) w)
  try_emit-Post event m w p q t c =
      try_written-Post event w.recorded (emit worker event task_id m w) p q
        (emit-Emitted worker event task_id m w) t c

  -- The lease steps record nothing unless they fail the task.
  pub fail_on_error-Post :
      (r : Result (Unit {0}) DispatchError) {p : Phase} {m : ℕ} (w : World W)
      → TraceAt w p
      → Next p m
      → Post (λ u w'. TraceAt w' p) (fail_on_error worker task_id m r w)
  fail_on_error-Post (ok u) w t h = t
  fail_on_error-Post (err e) {m = m} w t h = fail_task-Ended worker task_id base m _ w t h
