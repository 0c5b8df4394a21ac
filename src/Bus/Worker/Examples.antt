-- ===== src/Bus/Worker/Examples.antt =====
-- A run of `Worker::process`: the first delivery is refused, the second is accepted and completes.
use guigu_agent_bridge.Prelude.{refl, ◌≤◌, length}
use guigu_agent_bridge.Bus.Queue.{Receiver, empty, push, pop, admit_ready, admit_loop}
use guigu_agent_bridge.Bus.Queue.Examples.{channel, recv_list}
use guigu_agent_bridge.Bus.Worker.Run.{run, RunState, round, admitted}
use guigu_agent_bridge.Bus.Worker.Drain.{IsFinite, taken, taken_by_recv, Stopped, run_ends}
use guigu_agent_bridge.Bus.Worker.Backlog.{Reaches, at_start, after_round, run_backlog}
use guigu_agent_bridge.Prelude.{
  ℕ, suc, ◌+◌, ◌==◌, Option, none, some, true, false, List, [], ◌∷◌, Result, ok, err, if◌then◌else◌,
  arith,
}
use guigu_agent_bridge.Prelude.Texts.{codes, show_nat}
use guigu_agent_bridge.Models.Task.{AgentTask, TaskStatus}
use guigu_agent_bridge.Models.Event.{TaskEvent}
use guigu_agent_bridge.Models.Agent.{TransportType}
use guigu_agent_bridge.Models.Tests.{task_for}
use guigu_agent_bridge.Bus.Control.{new}
use guigu_agent_bridge.Bus.Registry.{from_config}
use guigu_agent_bridge.Bus.Registry.Examples.{checksum, coder}
use guigu_agent_bridge.Bus.Policy.{default_limits}
use guigu_agent_bridge.Bus.Policy.Backoff.{Backoff}
use guigu_agent_bridge.Bus.Worker.World.{
  World, Worker, Outside, TaskDispatcher, DispatchRequest, DispatchOutcome, DispatchError, First,
  unanswered, with_dispatcher,
}
use guigu_agent_bridge.Bus.Worker.Events.{Exit}
use guigu_agent_bridge.Bus.Worker.Process.{process}
use guigu_agent_bridge.Bus.Worker.Grammar.{EndsRun}
use guigu_agent_bridge.Bus.Worker.Lifecycle.{process_ends}

-- The state outside counts the deliveries.
abbrev deliver_second : DispatchRequest → ℕ → Result (Unit {0}) DispatchError × ℕ
deliver_second request w =
    (if w == 0 then err (DispatchError.not_accepted (codes "busy")) else ok tt, suc w)

abbrev dispatcher : TaskDispatcher ℕ
dispatcher = record {
  supports_prepared = false;
  deliver = deliver_second;
  execute = λ request w. (ok (DispatchOutcome.completed (codes "done")), w);
  execute_prepared = λ request w. (err DispatchError.unsupported_prepared, w);
  cancel_prepared = λ request reason w. (err DispatchError.unsupported_prepared, w);
  finalize_delivery_failure = λ request event w. (err DispatchError.unsupported_prepared, w);
}

abbrev outside : Outside ℕ
outside = record {
  interfere = λ w. ([], w);
  now = λ w. (w, w);
  generate = λ w. (w, w);
  emit = λ event w. (ok tt, w);
  finalize = λ capability event w. (unanswered, w);
  first = λ w. (First.stage, w);
  sleep_until = λ until w. w;
  show_id = show_nat;
  show_transport = λ transport. codes "acp";
  chrono = record {
    from_std = some;
    max_delta = 0;
    checked_add_signed = λ now delay. some (now + delay);
    max_utc = 0;
  };
}

abbrev worker : Worker ℕ
worker = record {
  registry = from_config checksum 0 ((codes "a", coder) ∷ []);
  dispatchers = with_dispatcher [] TransportType.acp dispatcher;
  limits = default_limits;
  retry = record { max_attempts = 2; backoff = Backoff.none };
  cancellation = true;
  timer = true;
  lifecycle = none;
  outside = outside;
}

abbrev coder_task : AgentTask
coder_task = task_for (checksum (checksum 0 (codes "guigu-agent-bridge/agent/v1")) (codes "a")) 5

abbrev world : World ℕ
world = record { table = new; recorded = []; outer = 0 }

abbrev statuses : List TaskEvent → List TaskStatus
statuses [] = []
statuses (e ∷ es) = e.status ∷ statuses es

abbrev recorded_of : Option (Exit × World ℕ) → List TaskStatus
recorded_of none = []
recorded_of (some r) = statuses r.1.recorded

run_statuses : List TaskStatus
run_statuses = recorded_of (process worker 2 coder_task world)

process_ends_example : EndsRun worker 7 [] (process worker 2 coder_task world)
process_ends_example = process_ends worker 2 coder_task world (omega arith) (omega arith)

-- A channel that is a list gives each task once.
channel-IsFinite : IsFinite channel length
channel-IsFinite = record { try_recv_law = try_recv_less; recv_law = recv_less }
  where
    try_recv_less :
        (c : List AgentTask)
        → length (channel.try_recv c).1 + taken (channel.try_recv c).0 ≤ length c
    try_recv_less [] = omega arith
    try_recv_less (t ∷ ts) = omega arith

    recv_less :
        (c : List AgentTask)
        → length (channel.recv c).1 + taken_by_recv (channel.recv c).0 ≤ length c
    recv_less [] = omega arith
    recv_less (t ∷ ts) = omega arith

run_ends_example : Stopped (run channel worker 5 (coder_task ∷ task_for 9 1 ∷ []) world)
run_ends_example =
    run_ends channel worker length 5 (coder_task ∷ task_for 9 1 ∷ []) world channel-IsFinite
      (omega arith) (omega arith)

-- A channel whose task comes while the worker waits.
abbrev slow_channel : Receiver (List AgentTask)
slow_channel = record { max_capacity = λ ts. 4; try_recv = λ ts. (empty, ts); recv = recv_list }

abbrev after_waiting : RunState (List AgentTask) ℕ
after_waiting = record {
  tasks = [];
  queue = push [] coder_task 0;
  arrival = 1;
  closed = false;
  world = world;
}

waiting-Reaches : Reaches slow_channel worker (coder_task ∷ []) world after_waiting
unfolding round admitted admit_ready admit_loop pop push
waiting-Reaches = after_round at_start refl

run_backlog_example :
    (length after_waiting.queue ≤ 4)
    × (length (admitted slow_channel worker after_waiting).queue ≤ 4)
run_backlog_example =
    run_backlog slow_channel worker 4 (coder_task ∷ []) world after_waiting (λ c. refl)
      (omega arith) waiting-Reaches
