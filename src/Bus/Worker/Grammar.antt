-- ===== src/Bus/Worker/Grammar.antt =====
-- The attempts of `Worker::process` in src/bus/worker.rs, and the trace that they leave.
use guigu_agent_bridge.Prelude.{
  ℕ, zero, suc, ◌+◌, ◌*◌, ◌^◌, ◌≤◌, ◌<◌, ◌≡◌, Option, none, some, List, max, arith,
}
use mathlib.Core.Path.{subst}
use guigu_agent_bridge.Models.Task.{TaskId}
use guigu_agent_bridge.Models.Event.{TaskEvent}
use guigu_agent_bridge.Bus.Worker.World.{World, Worker, DispatchRequest}
use guigu_agent_bridge.Bus.Worker.Events.{Exit}
use guigu_agent_bridge.Bus.Worker.Trace.{Trace, ready, sent, started, ready_next}
use guigu_agent_bridge.Bus.Worker.Rules.{Ended}
use guigu_agent_bridge.Bus.Worker.Stages.{Attempt, check, dispatch, keep_lease, deliver, next_seq}
use guigu_agent_bridge.Bus.Worker.Stages.Monad.{Flow, go, exit, again, ◌>>=◌, ◌>>◌}
use guigu_agent_bridge.Bus.Worker.Execution.{
  check_accepted, start, execute, run_accepted, after_dispatch, attempt_once,
}
use guigu_agent_bridge.Bus.Worker.Process.{continue, attempts}
use guigu_agent_bridge.Bus.Worker.StageRules.{Post, Again, Post-bind, check-Post}
use guigu_agent_bridge.Bus.Worker.DeliveryRules.{
  Here, Leads, dispatch-Post, keep_lease-Post, deliver-Post,
}
use guigu_agent_bridge.Bus.Worker.ExecutionRules.{check_accepted-Post, start-Post, execute-Post}

-- The task's run has a result, and its ending holds.
abbrev pub EndsRun :
    {W : Type 0} → Worker W → TaskId → List TaskEvent → Option (Exit × World W) → Type 0
EndsRun worker task_id base none = ⊥
EndsRun worker task_id base (some (r, w)) = Ended worker task_id base r w

module _ {W : Type 0} (worker : Worker W) (at : Attempt W) (base : List TaskEvent) where
  -- One round: `a` is the attempt's number and `n` its first sequence number.
  module _ (a n : ℕ) (small : worker.retry.max_attempts < 2 ^ 32) where
    abbrev Never : ⊥ → World W → Type 0
    Never x w = Unit {0}

    run_accepted-Post :
        (request : DispatchRequest) (w : World W)
        → Here worker at base a n (sent (suc n) a) w
        → n + 2 < 2 ^ 64
        → Post worker at.task.task_id base a n Never (run_accepted worker at request a (suc n) w)
    unfolding run_accepted
    run_accepted-Post request w t below =
        Post-bind worker at.task.task_id base a n
          (Leads worker at base a n (started (suc (suc n)) a)) Never (start worker at (suc n) w)
          (λ u. execute worker at request a (next_seq (suc n)))
          (start-Post worker at base a n (suc n) w t)
          (λ u w' t'.
            subst
              (λ (m : ℕ).
                Post worker at.task.task_id base a n Never (execute worker at request a m w'))
              (let e : suc (suc n) ≡ next_seq (suc n) = omega arith in e)
              (execute-Post worker at base a n Never request (suc (suc n)) w' small (omega arith)
                t'))

    after_dispatch-Post :
        (request : DispatchRequest) (w : World W)
        → Here worker at base a n (sent (suc n) a) w
        → n + 2 < 2 ^ 64
        → Post worker at.task.task_id base a n Never (after_dispatch worker at request a (suc n) w)
    unfolding after_dispatch
    after_dispatch-Post request w t below =
        let m = suc n in
        let leads = Leads worker at base a n {A = Unit {0}} (sent m a) in
        let rule = Post-bind worker at.task.task_id base a n {B = ⊥} leads Never in
        rule (keep_lease worker at m w)
          (λ u. do
            deliver worker at request a m
            check_accepted worker at request m
            run_accepted worker at request a m)
          (keep_lease-Post worker at base a n m w t)
          (λ u w₁ t₁.
            rule (deliver worker at request a m w₁)
              (λ u. do check_accepted worker at request m; run_accepted worker at request a m)
              (deliver-Post worker at base a n request m w₁ small (omega arith) t₁)
              (λ u w₂ t₂.
                rule (check_accepted worker at request m w₂)
                  (λ u. run_accepted worker at request a m)
                  (check_accepted-Post worker at base a n request m w₂ t₂)
                  (λ u w₃ t₃. run_accepted-Post request w₃ t₃ below)))

    attempt_once-Post :
        (w : World W)
        → n + 2 < 2 ^ 64
        → Here worker at base a n (ready n a) w
        → Post worker at.task.task_id base a n Never (attempt_once worker at a n w)
    unfolding attempt_once
    attempt_once-Post w below t =
        Post-bind worker at.task.task_id base a n
          (Leads worker at base a n {A = Unit {0}} (ready n a)) Never
          (check worker at.task.task_id n at.task.deadline w)
          (λ u. do
            request ← dispatch worker at a n
            after_dispatch worker at request a (next_seq n))
          (check-Post worker at.task.task_id base a n at.task.deadline {p = ready n a} {m = n} w t
            (ready_next n a))
          (λ u w₁ t₁.
            Post-bind worker at.task.task_id base a n
              (Leads worker at base a n {A = DispatchRequest} (sent (suc n) a)) Never
              (dispatch worker at a n w₁)
              (λ request. after_dispatch worker at request a (next_seq n))
              (dispatch-Post worker at base a n w₁ t₁)
              (λ request w₂ t₂.
                subst
                  (λ (m : ℕ).
                    Post worker at.task.task_id base a n Never
                      (after_dispatch worker at request a m w₂))
                  (let e : suc n ≡ next_seq n = omega arith in e)
                  (after_dispatch-Post request w₂ t₂ below)))

  continue-EndsRun :
      (a n : ℕ) (next : ℕ → ℕ → World W → Option (Exit × World W)) (r : Flow ⊥ × World W)
      → Post worker at.task.task_id base a n (λ x w. Unit {0}) r
      → ((b m : ℕ) (w : World W)
          → Again worker at.task.task_id base a n b m w
          → EndsRun worker at.task.task_id base (next b m w))
      → EndsRun worker at.task.task_id base (continue worker next r)
  continue-EndsRun a n next (go x, w) h k = absurd x
  continue-EndsRun a n next (exit r, w) h k = h
  continue-EndsRun a n next (again b m, w) h k = k b m w h

  -- Enough fuel for the attempts that are left ends the loop.
  pub attempts-EndsRun :
      (fuel a n : ℕ) (w : World W)
      → worker.retry.max_attempts < 2 ^ 32
      → max worker.retry.max_attempts 1 < fuel + a
      → a ≤ max worker.retry.max_attempts 1
      → n ≤ 2 * a
      → Trace at.task.task_id base w.recorded (ready n a)
      → EndsRun worker at.task.task_id base (attempts worker fuel at a n w)
  unfolding attempts
  attempts-EndsRun zero a n w small enough within near t = absurd (omega arith)
  attempts-EndsRun (suc fuel) a n w small enough within near t =
      continue-EndsRun a n (attempts worker fuel at) (attempt_once worker at a n w)
        (attempt_once-Post a n small w (omega arith) t)
        (λ b m w' again.
          attempts-EndsRun fuel b m w' small (omega (arith, again.next)) again.allowed
            (omega (arith, again.next, again.near)) again.trace)
