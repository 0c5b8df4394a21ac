-- ===== src/Bus/Worker/RefusalRules.antt =====
-- What the retry policy makes of a refused stage in src/bus/worker.rs.
use guigu_agent_bridge.Prelude.{
  ℕ, suc, ◌+◌, ◌%◌, ◌^◌, ◌≤◌, ◌<◌, ◌≡◌, inl, inr, refl, ◌∙◌, Option, none, some, true, not, ◌||◌,
  List, [], max, arith, Bool-cases,
}
use guigu_agent_bridge.Models.Task.{TaskId, DateTime}
use guigu_agent_bridge.Models.Event.{TaskEvent}
use guigu_agent_bridge.Bus.Policy.Backoff.{allows_another_attempt_after, delay_for}
use guigu_agent_bridge.Bus.Policy.{deadline_after}
use guigu_agent_bridge.Bus.Worker.World.{World, Worker, DispatchError, error_text}
use guigu_agent_bridge.Bus.Worker.Events.{now, expired}
use guigu_agent_bridge.Bus.Worker.Trace.{Trace, Phase, ready, Next}
use guigu_agent_bridge.Bus.Worker.Rules.{
  expired_recorded, fail_task-Ended, timed_out_task-Ended, cancel_task-Ended,
}
use guigu_agent_bridge.Bus.Worker.Stages.{
  Raced, done, cancelled, timed_out, wait_backoff, retryable, retry_unless_late, backed_off,
  refused, after_refusal, on_refused,
}
use guigu_agent_bridge.Bus.Worker.StageRules.{Post, race_recorded}

module _ {W : Type 0} (worker : Worker W) (task_id : TaskId) (a : ℕ) where
  abbrev IsRetry : Raced (Option ℕ) → Type 0
  IsRetry (done (some b)) = (b ≡ suc a) × (b ≤ max worker.retry.max_attempts 1)
  IsRetry (done none) = Unit {0}
  IsRetry (cancelled reason) = Unit {0}
  IsRetry (timed_out d) = Unit {0}

  -- Nothing is recorded, and only an allowed next attempt is granted.
  abbrev Verdict : List TaskEvent → Raced (Option ℕ) × World W → Type 0
  Verdict es r = IsRetry r.0 × (r.1.recorded ≡ es)

  wait_backoff_recorded :
      (limit : Option DateTime) (w : World W)
      → (wait_backoff worker task_id a limit w).1.recorded ≡ w.recorded
  unfolding wait_backoff now
  wait_backoff_recorded limit w =
      let t = worker.outside.now w.outer in
      ground (
        arith,
        race_recorded worker task_id [] 0 0 limit
            (λ (o : W).
              let r : (Unit {0}) × W = (
                tt,
                worker.outside.sleep_until
                    (deadline_after worker.outside.chrono t.0 (delay_for worker.retry.backoff a)) o,
              ) in
              r)
            (record w { outer = t.1 }),
      )

  backed_off-Verdict :
      (es : List TaskEvent) (r : Raced (Unit {0}) × World W)
      → r.1.recorded ≡ es
      → allows_another_attempt_after worker.retry a ≡ true
      → worker.retry.max_attempts < 2 ^ 32
      → Verdict es (backed_off worker ((a + 1) % 2 ^ 32) r)
  unfolding allows_another_attempt_after
  backed_off-Verdict es (done u, w) e allowed small = ((ground arith, ground arith), e)
  backed_off-Verdict es (cancelled reason, w) e allowed small = (tt, e)
  backed_off-Verdict es (timed_out d, w) e allowed small = (tt, e)

  retry_unless_late-Verdict :
      (es : List TaskEvent) (limit : Option DateTime) (r : Option DateTime × World W)
      → r.1.recorded ≡ es
      → allows_another_attempt_after worker.retry a ≡ true
      → worker.retry.max_attempts < 2 ^ 32
      → Verdict es (retry_unless_late worker task_id a limit r)
  retry_unless_late-Verdict es limit (some d, w) e allowed small = (tt, e)
  retry_unless_late-Verdict es limit (none, w) e allowed small =
      backed_off-Verdict es (wait_backoff worker task_id a limit w)
        (wait_backoff_recorded limit w ∙ e) allowed small

  refused-Verdict :
      (error : DispatchError) (limit : Option DateTime) (w : World W)
      → worker.retry.max_attempts < 2 ^ 32
      → Verdict w.recorded (refused worker task_id a error limit w)
  unfolding refused
  refused-Verdict error limit w small =
      elim (Bool-cases
        (not (retryable worker error) || not (allows_another_attempt_after worker.retry a))) [
          | inl e ↦ rw e (tt, refl)
          | inr e ↦ rw e (
              retry_unless_late-Verdict w.recorded limit (expired worker limit w)
                (expired_recorded worker limit w) (ground arith) small)
        ]

module _ {W : Type 0} (worker : Worker W) (task_id : TaskId) (base : List TaskEvent) (a n : ℕ) where
  after_refusal-Post :
      (A : Type 0) (Q : A → World W → Type 0) (error : DispatchError) (r : Raced (Option ℕ)) (m : ℕ)
      (w : World W) (p : Phase)
      → IsRetry worker task_id a r
      → Trace task_id base w.recorded p
      → Trace task_id base w.recorded (ready m (suc a))
      → Next p m
      → m ≤ n + 2
      → Post worker task_id base a n Q (after_refusal worker task_id m error r w)
  after_refusal-Post A Q error (done (some b)) m w p i t c h near = record {
    next = i.0;
    allowed = i.1;
    near = near;
    trace = rw i.0 c;
  }
  after_refusal-Post A Q error (done none) m w p i t c h near =
      fail_task-Ended worker task_id base m (error_text error) w t h
  after_refusal-Post A Q error (cancelled reason) m w p i t c h near =
      cancel_task-Ended worker task_id base m reason w t h
  after_refusal-Post A Q error (timed_out d) m w p i t c h near =
      timed_out_task-Ended worker task_id base m d w t h

  -- A refused stage ends the task, or leads to the next attempt if the policy allows it.
  pub on_refused-Post :
      (A : Type 0) (Q : A → World W → Type 0) (error : DispatchError) (limit : Option DateTime)
      (m : ℕ) (w : World W) (p : Phase)
      → worker.retry.max_attempts < 2 ^ 32
      → Trace task_id base w.recorded p
      → Trace task_id base w.recorded (ready m (suc a))
      → Next p m
      → m ≤ n + 2
      → Post worker task_id base a n Q (on_refused worker task_id a m error limit w)
  unfolding on_refused
  on_refused-Post A Q error limit m w p small t c h near =
      let r = refused worker task_id a error limit w in
      let v = refused-Verdict worker task_id a error limit w small in
      after_refusal-Post A Q error r.0 m r.1 p v.0 (rw v.1 t) (rw v.1 c) h near
