-- ===== src/Bus/Worker/Backlog.antt =====
-- The length of the queue in `Worker::run` of src/bus/worker.rs.
use guigu_agent_bridge.Prelude.{
  ℕ, zero, suc, ◌+◌, ◌-◌, ◌%◌, ◌^◌, ◌≤◌, ◌≡◌, inl, inr, max, Option, none, some, Bool, true, false,
  if◌then◌else◌, [], length, ok, err, arith, Bool-cases, ap,
}
use mathlib.Core.Path.{subst}
use guigu_agent_bridge.Models.Task.{AgentTask}
use guigu_agent_bridge.Bus.Queue.{
  PriorityQueue, push, pop, TryRecv, received, empty, disconnected, Receiver, on_answer, admit_loop,
  admit_ready,
}
use guigu_agent_bridge.Bus.Worker.World.{World, Worker}
use guigu_agent_bridge.Bus.Worker.Events.{Exit, is_recovery_needed}
use guigu_agent_bridge.Bus.Worker.Process.{process}
use guigu_agent_bridge.Bus.Worker.Drain.{Popped, pop-Popped}
use guigu_agent_bridge.Bus.Worker.Run.{
  RunState, Round, goes_on, returns, unfinished, admitted, after_process, after_recv, serve, round,
  initial,
}

-- The states at the head of the loop, one round after another.
pub data Reaches {C W : Type 0} (receiver : Receiver C) (worker : Worker W) (tasks : C)
    (world : World W) : RunState C W → Type 0 where
  at_start : Reaches receiver worker tasks world (initial receiver worker tasks world)
  after_round :
      {s s' : RunState C W}
      → Reaches receiver worker tasks world s
      → round receiver worker s ≡ goes_on s'
      → Reaches receiver worker tasks world s'

module _ {C W : Type 0} (receiver : Receiver C) (worker : Worker W) (capacity : ℕ) where
  length-on_answer :
      (n : ℕ) (queue : PriorityQueue) (arrival : ℕ) (r : TryRecv × C)
      → ((c' : C) (q : PriorityQueue) (m : ℕ)
          → length (admit_loop receiver n c' q m).queue ≤ length q + n)
      → length (on_answer receiver (admit_loop receiver n) queue arrival r).queue
        ≤ length queue + suc n
  unfolding push
  length-on_answer n queue arrival (received t, c') ih =
      omega (arith, ih c' (push queue t arrival) ((arrival + 1) % 2 ^ 64))
  length-on_answer n queue arrival (empty, c') ih = omega arith
  length-on_answer n queue arrival (disconnected, c') ih = omega arith

  length-admit_loop :
      (n : ℕ) (c : C) (queue : PriorityQueue) (arrival : ℕ)
      → length (admit_loop receiver n c queue arrival).queue ≤ length queue + n
  unfolding admit_loop
  length-admit_loop zero c queue arrival = omega arith
  length-admit_loop (suc n) c queue arrival =
      length-on_answer n queue arrival (receiver.try_recv c) (length-admit_loop n)

  abbrev Within : Round C W → Type 0
  Within (goes_on s) = length s.queue ≤ capacity
  Within (returns r s) = Unit {0}
  Within unfinished = Unit {0}

  processed-Within :
      (s : RunState C W) (r : Option (Exit × World W))
      → length s.queue ≤ capacity
      → Within (after_process receiver worker s r)
  processed-Within s none h = tt
  processed-Within s (some (ok u, w)) h = h
  processed-Within s (some (err e, w)) h = elim (Bool-cases (is_recovery_needed e)) [
    | inl needed ↦ rw needed h
    | inr other ↦ rw other tt
  ]

  received-Within :
      (s : RunState C W) (r : Option AgentTask × C)
      → 1 ≤ capacity
      → s.queue ≡ []
      → Within (after_recv receiver worker s r)
  unfolding push
  received-Within s (some t, c) room none_queued = omega (arith, ap length none_queued)
  received-Within s (none, c) room none_queued = tt

  idle-Within :
      (s : RunState C W) (closed : Bool)
      → 1 ≤ capacity
      → s.queue ≡ []
      → Within (
          if closed
          then returns (ok tt) s
          else after_recv receiver worker s (receiver.recv s.tasks))
  idle-Within s true room none_queued = tt
  idle-Within s false room none_queued = received-Within s (receiver.recv s.tasks) room none_queued

  serve-Within :
      (s : RunState C W) (p : Option (AgentTask × PriorityQueue))
      → 1 ≤ capacity
      → Popped s.queue p
      → length s.queue ≤ capacity
      → Within (serve receiver worker s p)
  serve-Within s (some (task, rest)) room popped h =
      processed-Within (record s { queue = rest })
        (process worker (max worker.retry.max_attempts 1) task s.world) (omega arith)
  serve-Within s none room popped h = idle-Within s s.closed room popped

  admitted-Within :
      (s : RunState C W)
      → receiver.max_capacity s.tasks ≡ capacity
      → length s.queue ≤ capacity
      → length (admitted receiver worker s).queue ≤ capacity
  unfolding admitted admit_ready
  admitted-Within s same h = elim (Bool-cases s.closed) [
    | inl e ↦ rw e h
    | inr e ↦ rw e (
        omega (
          arith,
          length-admit_loop (receiver.max_capacity s.tasks - length s.queue) s.tasks s.queue
              s.arrival,
        ))
  ]

  round-Within :
      (s : RunState C W)
      → 1 ≤ capacity
      → receiver.max_capacity s.tasks ≡ capacity
      → length s.queue ≤ capacity
      → Within (round receiver worker s)
  unfolding round
  round-Within s room same h =
      let s' = admitted receiver worker s in
      serve-Within s' (pop s'.queue) room (pop-Popped s'.queue) (admitted-Within s same h)

head_backlog :
    {C W : Type 0} (receiver : Receiver C) (worker : Worker W) (capacity : ℕ) (tasks : C)
    (world : World W) (s : RunState C W)
    → ((c : C) → receiver.max_capacity c ≡ capacity)
    → 1 ≤ capacity
    → Reaches receiver worker tasks world s
    → length s.queue ≤ capacity
head_backlog receiver worker capacity tasks world s same room at_start = omega arith
head_backlog receiver worker capacity tasks world s' same room (after_round {s} reached e) =
    subst (Within receiver worker capacity) e (
      round-Within receiver worker capacity s room (same s.tasks)
        (head_backlog receiver worker capacity tasks world s same room reached))

-- When the channel's capacity is a positive constant, the worker's queue never holds more tasks than
-- that, however many tasks the senders send: neither at the head of its loop nor after the admission
-- step that follows, the only step that queues more than one task.
pub run_backlog :
    {C W : Type 0} (receiver : Receiver C) (worker : Worker W) (capacity : ℕ) (tasks : C)
    (world : World W) (s : RunState C W)
    → ((c : C) → receiver.max_capacity c ≡ capacity)
    → 1 ≤ capacity
    → Reaches receiver worker tasks world s
    → (length s.queue ≤ capacity) × (length (admitted receiver worker s).queue ≤ capacity)
run_backlog receiver worker capacity tasks world s same room reached =
    let h = head_backlog receiver worker capacity tasks world s same room reached in
    (h, admitted-Within receiver worker capacity s (same s.tasks) h)
