-- ===== src/Bus/Queue.antt =====
-- The worker's priority queue and its admission loop, src/bus/worker.rs. The binary heap is a list
-- from which `pop` takes a greatest item; the task channel is a parameter.
pub mod Order
pub mod Admission
pub mod Examples
use guigu_agent_bridge.Prelude.{
  ℕ, zero, suc, ◌+◌, ◌-◌, ◌%◌, ◌^◌, Option, none, some, Bool, true, false, List, [], ◌∷◌,
  if◌then◌else◌, length,
}
use Prim.Native.Nat.{compare, Ordering}
use guigu_agent_bridge.Models.Task.{AgentTask, Priority}

pub record QueuedTask : Type 0 where
  pub priority : Priority
  pub arrival : ℕ  -- u64
  pub task : AgentTask

-- `Ord for QueuedTask`: by priority, then the earlier arrival is the greater.
unfoldable pub cmp : QueuedTask → QueuedTask → Ordering
cmp a b = elim (compare a.priority.value b.priority.value) [
  | Ordering.eq ↦ compare b.arrival a.arrival
  | Ordering.lt ↦ Ordering.lt
  | Ordering.gt ↦ Ordering.gt
]

abbrev pub PriorityQueue : Type 0
PriorityQueue = List QueuedTask

unfoldable pub push : PriorityQueue → AgentTask → ℕ → PriorityQueue
push q task arrival = record { priority = task.priority; arrival = arrival; task = task } ∷ q

abbrev is_less : Ordering → Bool
is_less Ordering.lt = true
is_less Ordering.eq = false
is_less Ordering.gt = false

-- The greatest of an item and a list, and what is left.
unfoldable pub pop_from : QueuedTask → List QueuedTask → QueuedTask × List QueuedTask
unfolding cmp
pop_from best [] = (best, [])
pop_from best (q ∷ qs) =
    let less = is_less (cmp best q) in
    let (top, rest) = pop_from (if less then q else best) qs in
    (top, (if less then best else q) ∷ rest)

unfoldable pub pop_entry : PriorityQueue → Option (QueuedTask × PriorityQueue)
unfolding pop_from
pop_entry [] = none
pop_entry (q ∷ qs) = some (pop_from q qs)

unfoldable pub pop : PriorityQueue → Option (AgentTask × PriorityQueue)
unfolding pop_entry
pop q = elim (pop_entry q) [ none ↦ none | some e ↦ some (e.0.task, e.1) ]

-- What `try_recv` answers.
pub data TryRecv : Type 0 where
  received : AgentTask → TryRecv
  empty disconnected : TryRecv

-- The receiving end of the task channel, over its own state.
pub record Receiver (C : Type 0) : Type 0 where
  pub max_capacity : C → ℕ
  pub try_recv : C → TryRecv × C
  pub recv : C → Option AgentTask × C  -- none when the senders are gone

pub record Admitted (C : Type 0) : Type 0 where
  pub closed : Bool
  pub tasks : C
  pub queue : PriorityQueue
  pub arrival : ℕ

module _ {C : Type 0} (receiver : Receiver C) where
  open receiver use {max_capacity, try_recv}

  -- One round of the loop of `admit_ready` on the channel's answer, before the other rounds.
  abbrev pub on_answer :
      (C → PriorityQueue → ℕ → Admitted C) → PriorityQueue → ℕ → TryRecv × C → Admitted C
  on_answer next queue arrival (received task, tasks) =
      next tasks (push queue task arrival) ((arrival + 1) % 2 ^ 64)
  on_answer next queue arrival (empty, tasks) = record {
    closed = false;
    tasks = tasks;
    queue = queue;
    arrival = arrival;
  }
  on_answer next queue arrival (disconnected, tasks) = record {
    closed = true;
    tasks = tasks;
    queue = queue;
    arrival = arrival;
  }

  -- The loop, over the rounds left.
  unfoldable pub admit_loop : ℕ → C → PriorityQueue → ℕ → Admitted C
  admit_loop zero tasks queue arrival = record {
    closed = false;
    tasks = tasks;
    queue = queue;
    arrival = arrival;
  }
  admit_loop (suc budget) tasks queue arrival =
      on_answer (admit_loop budget) queue arrival (try_recv tasks)

  unfoldable pub admit_ready : C → PriorityQueue → ℕ → Admitted C
  unfolding admit_loop
  admit_ready tasks queue arrival =
      admit_loop (max_capacity tasks - length queue) tasks queue arrival
