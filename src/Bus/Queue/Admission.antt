-- ===== src/Bus/Queue/Admission.antt =====
-- What the admission loop of src/bus/worker.rs takes from the channel.
use guigu_agent_bridge.Prelude.{
  ℕ, zero, suc, ◌+◌, ◌-◌, ◌%◌, ◌^◌, ◌≤◌, ◌<◌, ◌≡◌, refl, Bool, true, false, List, [], ◌∷◌, length,
  All, arith, ap, max,
}
use mathlib.Core.Path.{subst₂, sym}
use native.Mathlib.Nat.{add-zero}
use guigu_agent_bridge.Models.Task.{AgentTask}
use guigu_agent_bridge.Bus.Queue.{
  PriorityQueue, push, TryRecv, received, empty, disconnected, Receiver, Admitted, on_answer,
  admit_loop, admit_ready,
}

-- Entries for tasks that arrive one after another, the last on top.
abbrev pub push_all : PriorityQueue → List AgentTask → ℕ → PriorityQueue
push_all queue [] arrival = queue
push_all queue (t ∷ ts) arrival = push_all (push queue t arrival) ts (arrival + 1)

abbrev pub IsFresh : PriorityQueue → ℕ → Type 0
IsFresh queue n = All (λ e. e.arrival < n) queue

-- How the answers of a channel over a number of calls read: tasks, and why they stopped.
pub data Answers {C : Type 0} (receiver : Receiver C)
    : ℕ → C → List AgentTask → Bool → C → Type 0 where
  spent : (c : C) → Answers receiver zero c [] false c
  task :
      {n : ℕ} {c c' : C} {t : AgentTask} {ts : List AgentTask} {ended : Bool} {last : C}
      → receiver.try_recv c ≡ (received t, c')
      → Answers receiver n c' ts ended last
      → Answers receiver (suc n) c (t ∷ ts) ended last
  none_ready :
      {n : ℕ} {c c' : C}
      → receiver.try_recv c ≡ (empty, c')
      → Answers receiver (suc n) c [] false c'
  senders_gone :
      {n : ℕ} {c c' : C}
      → receiver.try_recv c ≡ (disconnected, c')
      → Answers receiver (suc n) c [] true c'

length-push_all :
    (queue : PriorityQueue) (ts : List AgentTask) (n : ℕ)
    → length (push_all queue ts n) ≡ length queue + length ts
unfolding push
length-push_all queue [] n = omega arith
length-push_all queue (t ∷ ts) n = omega (arith, length-push_all (push queue t n) ts (n + 1))

IsFresh-mono : (queue : PriorityQueue) (m n : ℕ) → m ≤ n → IsFresh queue m → IsFresh queue n
IsFresh-mono [] m n h f = tt
IsFresh-mono (e ∷ es) m n h f = (omega arith, IsFresh-mono es m n h f.1)

push_all-IsFresh :
    (queue : PriorityQueue) (ts : List AgentTask) (n : ℕ)
    → IsFresh queue n
    → IsFresh (push_all queue ts n) (n + length ts)
unfolding push
push_all-IsFresh queue [] n f = rw add-zero f
push_all-IsFresh queue (t ∷ ts) n f =
    let more : IsFresh (push_all (push queue t n) ts (n + 1)) (n + 1 + length ts) =
      push_all-IsFresh (push queue t n) ts (n + 1)
        (omega arith, IsFresh-mono queue n (n + 1) (omega arith) f) in
    let e : n + suc (length ts) ≡ n + 1 + length ts = omega arith in rw e more

module _ {C : Type 0} (receiver : Receiver C) where
  -- What the loop has done after its rounds.
  pub record Outcome (n : ℕ) (c : C) (queue : PriorityQueue) (arrival : ℕ) (a : Admitted C)
      : Type 0 where
    pub taken : List AgentTask
    pub answers : Answers receiver n c taken a.closed a.tasks
    pub within : length taken ≤ n
    pub queued : a.queue ≡ push_all queue taken arrival
    pub next : a.arrival ≡ arrival + length taken

  round-Outcome :
      (n : ℕ) (c : C) (queue : PriorityQueue) (arrival : ℕ) (r : TryRecv × C)
      → receiver.try_recv c ≡ r
      → ((c' : C) (t : AgentTask)
          → Outcome n c'
              (push queue t arrival)
              (arrival + 1)
              (admit_loop receiver n c' (push queue t arrival) (arrival + 1)))
      → arrival + suc n < 2 ^ 64
      → Outcome (suc n) c queue arrival (on_answer receiver (admit_loop receiver n) queue arrival r)
  round-Outcome n c queue arrival (received t, c') e ih h =
      let o = ih c' t in
      let small : (arrival + 1) % 2 ^ 64 ≡ arrival + 1 = omega arith in
      rw small (record {
        taken = t ∷ o.taken;
        answers = task e o.answers;
        within = omega (arith, o.within);
        queued = o.queued;
        next = omega (arith, o.next);
      })
  round-Outcome n c queue arrival (empty, c') e ih h = record {
    taken = [];
    answers = none_ready e;
    within = omega arith;
    queued = refl;
    next = omega arith;
  }
  round-Outcome n c queue arrival (disconnected, c') e ih h = record {
    taken = [];
    answers = senders_gone e;
    within = omega arith;
    queued = refl;
    next = omega arith;
  }

  admit_loop-Outcome :
      (n : ℕ) (c : C) (queue : PriorityQueue) (arrival : ℕ)
      → arrival + n < 2 ^ 64
      → Outcome n c queue arrival (admit_loop receiver n c queue arrival)
  unfolding admit_loop
  admit_loop-Outcome zero c queue arrival h = record {
    taken = [];
    answers = spent c;
    within = omega arith;
    queued = refl;
    next = omega arith;
  }
  admit_loop-Outcome (suc n) c queue arrival h =
      round-Outcome n c queue arrival (receiver.try_recv c) refl
        (λ c' t. admit_loop-Outcome n c' (push queue t arrival) (arrival + 1) (omega arith)) h

  -- Admission, while the arrival counter does not wrap: the channel was asked for at most as many
  -- tasks as the queue has room for below the channel's capacity, and answered with the tasks
  -- `taken`; these are queued in that order, one arrival number each, the queue's length stays within
  -- the capacity (or as it was), entries stay numbered below the counter, and the loop reports
  -- `closed` exactly when the senders were found to be gone.
  pub admit_ready-Outcome :
      (c : C) (queue : PriorityQueue) (arrival : ℕ)
      → arrival + receiver.max_capacity c < 2 ^ 64
      → IsFresh queue arrival
      → let a = admit_ready receiver c queue arrival in
        Outcome (receiver.max_capacity c - length queue) c queue arrival a
        × (length a.queue ≤ max (length queue) (receiver.max_capacity c))
        × IsFresh a.queue a.arrival
  unfolding admit_ready
  admit_ready-Outcome c queue arrival h f =
      let o =
        admit_loop-Outcome (receiver.max_capacity c - length queue) c queue arrival (omega arith) in
      (
        o,
        omega (arith, o.within, ap length o.queued, length-push_all queue o.taken arrival),
        subst₂ IsFresh (sym o.queued) (sym o.next) (push_all-IsFresh queue o.taken arrival f),
      )
