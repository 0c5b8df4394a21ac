-- ===== src/Bus/Worker/Run.antt =====
-- `Worker::run` of src/bus/worker.rs: admission, the queue and `process` in one loop. The loop takes
-- fuel, since senders may never stop.
use guigu_agent_bridge.Prelude.{
  ℕ, zero, suc, ◌+◌, ◌%◌, ◌^◌, max, Option, none, some, Bool, false, if◌then◌else◌, [], ok, err,
}
use guigu_agent_bridge.Models.Task.{AgentTask}
use guigu_agent_bridge.Bus.Queue.{PriorityQueue, push, pop, Receiver, admit_ready}
use guigu_agent_bridge.Bus.Worker.World.{World, Worker}
use guigu_agent_bridge.Bus.Worker.Events.{Exit, is_recovery_needed}
use guigu_agent_bridge.Bus.Worker.Process.{process}

-- The worker's own fields and the locals of `run`.
pub record RunState (C W : Type 0) : Type 0 where
  pub tasks : C
  pub queue : PriorityQueue
  pub arrival : ℕ  -- u64
  pub closed : Bool
  pub world : World W

-- How a round of the loop ends. `unfinished` would be a `process` that was given too little fuel.
pub data Round (C W : Type 0) : Type 0 where
  goes_on : RunState C W → Round C W
  returns : Exit → RunState C W → Round C W
  unfinished : Round C W

module _ {C W : Type 0} (receiver : Receiver C) (worker : Worker W) where
  unfoldable pub admitted : RunState C W → RunState C W
  admitted s =
      let a = admit_ready receiver s.tasks s.queue s.arrival in
      if s.closed
      then s
      else record s { tasks = a.tasks; queue = a.queue; arrival = a.arrival; closed = a.closed }

  abbrev pub after_process : RunState C W → Option (Exit × World W) → Round C W
  after_process s none = unfinished
  after_process s (some (ok u, w)) = goes_on (record s { world = w })
  after_process s (some (err error, w)) =
      if is_recovery_needed error
      then goes_on (record s { world = w })
      else returns (err error) (record s { world = w })

  abbrev pub after_recv : RunState C W → Option AgentTask × C → Round C W
  after_recv s (some task, tasks) = goes_on (record s {
    tasks = tasks;
    queue = push s.queue task s.arrival;
    arrival = (s.arrival + 1) % 2 ^ 64;
  })
  after_recv s (none, tasks) = returns (ok tt) (record s { tasks = tasks })

  abbrev pub serve : RunState C W → Option (AgentTask × PriorityQueue) → Round C W
  serve s (some (task, rest)) =
      after_process (record s { queue = rest })
        (process worker (max worker.retry.max_attempts 1) task s.world)
  serve s none = if s.closed then returns (ok tt) s else after_recv s (receiver.recv s.tasks)

  unfoldable pub round : RunState C W → Round C W
  round s = let s' = admitted s in serve s' (pop s'.queue)

  abbrev pub next_round :
      (RunState C W → Option (Exit × RunState C W)) → Round C W → Option (Exit × RunState C W)
  next_round next (goes_on s) = next s
  next_round next (returns r s) = some (r, s)
  next_round next unfinished = none

  unfoldable pub run_loop : ℕ → RunState C W → Option (Exit × RunState C W)
  run_loop zero s = none
  run_loop (suc fuel) s = next_round (run_loop fuel) (round s)

  abbrev pub initial : C → World W → RunState C W
  initial tasks world = record {
    tasks = tasks;
    queue = [];
    arrival = 0;
    closed = false;
    world = world;
  }

  unfoldable pub run : ℕ → C → World W → Option (Exit × RunState C W)
  run fuel tasks world = run_loop fuel (initial tasks world)
