-- ===== src/Bus/Queue/Examples.antt =====
-- A queue of two tasks, and a channel that is a list.
use mathlib.Core.List.{Perm}
use guigu_agent_bridge.Prelude.{
  Option, ◌-◌, ◌≤◌, ◌≡◌, ◌⊎◌, none, some, List, [], ◌∷◌, length, max, All, arith,
}
use guigu_agent_bridge.Models.Task.{AgentTask}
use guigu_agent_bridge.Models.Tests.{task_for}
use guigu_agent_bridge.Bus.Queue.{
  QueuedTask, PriorityQueue, push, pop, TryRecv, received, empty, Receiver, admit_ready,
}
use guigu_agent_bridge.Bus.Queue.Order.{Before, pop-Before}
use guigu_agent_bridge.Bus.Queue.Admission.{Outcome, IsFresh, admit_ready-Outcome}

abbrev two_tasks : PriorityQueue
two_tasks = push (push [] (task_for 3 5) 0) (task_for 3 9) 1

pop-Before_example :
    ((two_tasks ≡ []) × (pop two_tasks ≡ none))
    ⊎ ((e : QueuedTask) × (rest : PriorityQueue) × (pop two_tasks ≡ some (e.task, rest))
        × All (Before e) two_tasks
        × Perm (e ∷ rest) two_tasks)
pop-Before_example = pop-Before two_tasks

abbrev try_list : List AgentTask → TryRecv × List AgentTask
try_list [] = (empty, [])
try_list (t ∷ ts) = (received t, ts)

abbrev pub recv_list : List AgentTask → Option AgentTask × List AgentTask
recv_list [] = (none, [])
recv_list (t ∷ ts) = (some t, ts)

abbrev pub channel : Receiver (List AgentTask)
channel = record { max_capacity = λ ts. 4; try_recv = try_list; recv = recv_list }

abbrev waiting : List AgentTask
waiting = task_for 3 1 ∷ task_for 3 2 ∷ task_for 3 3 ∷ []

two_tasks-IsFresh : IsFresh two_tasks 2
unfolding push
two_tasks-IsFresh = (omega arith, (omega arith, tt))

admit_ready-Outcome_example :
    let a = admit_ready channel waiting two_tasks 2 in
    Outcome channel (4 - length two_tasks) waiting two_tasks 2 a
    × (length a.queue ≤ max (length two_tasks) 4)
    × IsFresh a.queue a.arrival
admit_ready-Outcome_example =
    admit_ready-Outcome channel waiting two_tasks 2 (omega arith) two_tasks-IsFresh
