-- ===== src/Bus/Worker/Drain.antt =====
-- The rounds that the loop of `Worker::run` in src/bus/worker.rs takes.
use guigu_agent_bridge.Prelude.{
  ℕ, zero, suc, ◌+◌, ◌-◌, ◌*◌, ◌%◌, ◌^◌, ◌≤◌, ◌<◌, ◌≡◌, inl, inr, refl, max, Option, none, some,
  Bool, true, false, if◌then◌else◌, [], ◌∷◌, length, ok, err, arith, Bool-cases,
}
use guigu_agent_bridge.Models.Task.{AgentTask}
use guigu_agent_bridge.Bus.Queue.{
  PriorityQueue, push, pop, TryRecv, received, empty, disconnected, Receiver, on_answer, admit_loop,
  admit_ready,
}
use guigu_agent_bridge.Bus.Queue.Order.{pop_from-length}
use guigu_agent_bridge.Bus.Worker.World.{World, Worker}
use guigu_agent_bridge.Bus.Worker.Events.{Exit, is_recovery_needed}
use guigu_agent_bridge.Bus.Worker.Process.{process}
use guigu_agent_bridge.Bus.Worker.Grammar.{EndsRun}
use guigu_agent_bridge.Bus.Worker.Lifecycle.{process_ends}
use guigu_agent_bridge.Bus.Worker.Run.{
  RunState, Round, goes_on, returns, unfinished, admitted, after_process, after_recv, serve, round,
  next_round, run_loop, initial, run,
}

-- What `pop` leaves.
abbrev pub Popped : PriorityQueue → Option (AgentTask × PriorityQueue) → Type 0
Popped queue none = queue ≡ []
Popped queue (some (task, rest)) = suc (length rest) ≡ length queue

pub pop-Popped : (queue : PriorityQueue) → Popped queue (pop queue)
unfolding pop
pop-Popped [] = refl
pop-Popped (q ∷ qs) = omega (arith, pop_from-length q qs)

-- How many tasks an answer of the channel carries.
abbrev pub taken : TryRecv → ℕ
taken (received t) = 1
taken empty = 0
taken disconnected = 0

abbrev pub taken_by_recv : Option AgentTask → ℕ
taken_by_recv (some t) = 1
taken_by_recv none = 0

-- What a run returns: success with an empty queue, or an error other than a needed recovery.
abbrev pub Stopped : {C W : Type 0} → Option (Exit × RunState C W) → Type 0
Stopped none = ⊥
Stopped (some (ok u, s)) = s.queue ≡ []
Stopped (some (err e, s)) = is_recovery_needed e ≡ false

-- `left` bounds the tasks that a channel still gives, and each task given is one less.
pub record IsFinite {C : Type 0} (receiver : Receiver C) (left : C → ℕ) : Type 0 where
  pub try_recv_law : (c : C) → left (receiver.try_recv c).1 + taken (receiver.try_recv c).0 ≤ left c
  pub recv_law : (c : C) → left (receiver.recv c).1 + taken_by_recv (receiver.recv c).0 ≤ left c

module _ {C : Type 0} (receiver : Receiver C) (left : C → ℕ) (finite : IsFinite receiver left) where
  -- Each task counts twice while it is in the channel, and once in the queue.
  abbrev weight : C → PriorityQueue → ℕ
  weight c queue = 2 * left c + length queue

  on_answer-weight :
      (n : ℕ) (c : C) (queue : PriorityQueue) (arrival : ℕ) (r : TryRecv × C)
      → left r.1 + taken r.0 ≤ left c
      → ((c' : C) (q : PriorityQueue) (m : ℕ)
          → let a = admit_loop receiver n c' q m in weight a.tasks a.queue ≤ weight c' q)
      → let a = on_answer receiver (admit_loop receiver n) queue arrival r in
        weight a.tasks a.queue ≤ weight c queue
  unfolding push
  on_answer-weight n c queue arrival (received t, c') h ih =
      omega (arith, ih c' (push queue t arrival) ((arrival + 1) % 2 ^ 64))
  on_answer-weight n c queue arrival (empty, c') h ih = omega arith
  on_answer-weight n c queue arrival (disconnected, c') h ih = omega arith

  admit_loop-weight :
      (n : ℕ) (c : C) (queue : PriorityQueue) (arrival : ℕ)
      → let a = admit_loop receiver n c queue arrival in weight a.tasks a.queue ≤ weight c queue
  unfolding admit_loop
  admit_loop-weight zero c queue arrival = omega arith
  admit_loop-weight (suc n) c queue arrival =
      on_answer-weight n c queue arrival (receiver.try_recv c) (finite.try_recv_law c)
        (admit_loop-weight n)

  module _ {W : Type 0} (worker : Worker W) (small : worker.retry.max_attempts < 2 ^ 32) where
    abbrev state_weight : RunState C W → ℕ
    state_weight s = weight s.tasks s.queue

    abbrev Progress : ℕ → Round C W → Type 0
    Progress n (goes_on s) = state_weight s < n
    Progress n (returns r s) = Stopped (some (r, s))
    Progress n unfinished = ⊥

    admitted-weight :
        (s : RunState C W) → state_weight (admitted receiver worker s) ≤ state_weight s
    unfolding admitted admit_ready
    admitted-weight s = elim (Bool-cases s.closed) [
      | inl e ↦ rw e (omega arith)
      | inr e ↦ rw e (
          admit_loop-weight (receiver.max_capacity s.tasks - length s.queue) s.tasks s.queue
            s.arrival)
    ]

    processed-Progress :
        (s : RunState C W) (task : AgentTask) (r : Option (Exit × World W)) (n : ℕ)
        → EndsRun worker task.task_id s.world.recorded r
        → state_weight s < n
        → Progress n (after_process receiver worker s r)
    processed-Progress s task none n ends h = absurd ends
    processed-Progress s task (some (ok u, w)) n ends h = h
    processed-Progress s task (some (err e, w)) n ends h =
        elim (Bool-cases (is_recovery_needed e)) [
          | inl needed ↦ rw needed h
          | inr other ↦ rw other other
        ]

    received-Progress :
        (s : RunState C W) (r : Option AgentTask × C) (n : ℕ)
        → s.queue ≡ []
        → left r.1 + taken_by_recv r.0 ≤ left s.tasks
        → state_weight s ≤ n
        → Progress n (after_recv receiver worker s r)
    unfolding push
    received-Progress s (some t, c) n none_queued law h = omega arith
    received-Progress s (none, c) n none_queued law h = none_queued

    idle-Progress :
        (s : RunState C W) (closed : Bool) (n : ℕ)
        → s.queue ≡ []
        → state_weight s ≤ n
        → Progress n (
            if closed
            then returns (ok tt) s
            else after_recv receiver worker s (receiver.recv s.tasks))
    idle-Progress s true n none_queued h = none_queued
    idle-Progress s false n none_queued h =
        received-Progress s (receiver.recv s.tasks) n none_queued (finite.recv_law s.tasks) h

    serve-Progress :
        (s : RunState C W) (p : Option (AgentTask × PriorityQueue)) (n : ℕ)
        → Popped s.queue p
        → state_weight s ≤ n
        → Progress n (serve receiver worker s p)
    serve-Progress s (some (task, rest)) n popped h =
        let fuel = max worker.retry.max_attempts 1 in
        processed-Progress (record s { queue = rest }) task (process worker fuel task s.world) n
          (process_ends worker fuel task s.world small (omega arith)) (omega arith)
    serve-Progress s none n popped h = idle-Progress s s.closed n popped h

    round-Progress : (s : RunState C W) → Progress (state_weight s) (round receiver worker s)
    unfolding round
    round-Progress s =
        let s' = admitted receiver worker s in
        serve-Progress s' (pop s'.queue) (state_weight s) (pop-Popped s'.queue) (admitted-weight s)

    next-Stopped :
        (fuel : ℕ) (r : Round C W)
        → Progress fuel r
        → ((s : RunState C W) → state_weight s < fuel → Stopped (run_loop receiver worker fuel s))
        → Stopped (next_round receiver worker (run_loop receiver worker fuel) r)
    next-Stopped fuel (goes_on s) p ih = ih s p
    next-Stopped fuel (returns r s) p ih = p
    next-Stopped fuel unfinished p ih = absurd p

    Progress-mono : (m n : ℕ) (r : Round C W) → m ≤ n → Progress m r → Progress n r
    Progress-mono m n (goes_on s) h p = omega arith
    Progress-mono m n (returns r s) h p = p
    Progress-mono m n unfinished h p = p

    run_loop-Stopped :
        (fuel : ℕ) (s : RunState C W)
        → state_weight s < fuel
        → Stopped (run_loop receiver worker fuel s)
    unfolding run_loop
    run_loop-Stopped zero s h = absurd (omega arith)
    run_loop-Stopped (suc fuel) s h =
        next-Stopped fuel (round receiver worker s)
          (Progress-mono (state_weight s) fuel (round receiver worker s) (omega arith)
            (round-Progress s))
          (run_loop-Stopped fuel)

-- When the senders send finitely many tasks, `left` of them, and the retry policy's number of attempts
-- fits 32 bits, the worker's loop returns within `2 * left + 1` rounds, whatever the outside answers to each task: with success once its queue is
-- empty, or with an error that is not a needed recovery.
pub run_ends :
    {C W : Type 0} (receiver : Receiver C) (worker : Worker W) (left : C → ℕ) (fuel : ℕ) (tasks : C)
    (world : World W)
    → IsFinite receiver left
    → worker.retry.max_attempts < 2 ^ 32
    → 2 * left tasks < fuel
    → Stopped (run receiver worker fuel tasks world)
unfolding run
run_ends receiver worker left fuel tasks world finite small enough =
    run_loop-Stopped receiver left finite worker small fuel (initial receiver worker tasks world)
      (omega arith)
