-- ===== src/Bus/Queue/Order.antt =====
-- The order in which src/bus/worker.rs takes tasks from its queue.
use mathlib.Core.List.Perm
use mathlib.Core.List.{Perm}
use mathlib.Core.Path.{subst, sym}
use guigu_agent_bridge.Prelude.{
  length, ◌≤◌, ◌<◌, ◌≡◌, ◌⊎◌, refl, none, some, true, false, List, [], ◌∷◌, All, arith, inl, inr,
  Bool-cases,
}
use guigu_agent_bridge.Bus.Queue.{QueuedTask, PriorityQueue, cmp, is_less, pop_from, pop}

-- `a` is served before `b`: a higher priority, or the same one and no later arrival.
abbrev pub Before : QueuedTask → QueuedTask → Type 0
Before a b =
    (b.priority.value < a.priority.value)
    ⊎ ((b.priority.value ≡ a.priority.value) × (a.arrival ≤ b.arrival))

Before-trans : (a b c : QueuedTask) → Before a b → Before b c → Before a c
Before-trans a b c p q = ground arith

less_Before : (a b : QueuedTask) → is_less (cmp a b) ≡ true → Before b a
unfolding cmp
less_Before a b h = ground arith

not_less_Before : (a b : QueuedTask) → is_less (cmp a b) ≡ false → Before a b
unfolding cmp
not_less_Before a b h = ground arith

-- One round, on either outcome of the comparison.
pop_from_less :
    (best q : QueuedTask) (qs : List QueuedTask)
    → is_less (cmp best q) ≡ true
    → pop_from best (q ∷ qs) ≡ ((pop_from q qs).0, best ∷ (pop_from q qs).1)
unfolding pop_from
pop_from_less best q qs h = rw h refl

pop_from_not_less :
    (best q : QueuedTask) (qs : List QueuedTask)
    → is_less (cmp best q) ≡ false
    → pop_from best (q ∷ qs) ≡ ((pop_from best qs).0, q ∷ (pop_from best qs).1)
unfolding pop_from
pop_from_not_less best q qs h = rw h refl

pop_from-top :
    (best : QueuedTask) (qs : List QueuedTask) → All (Before (pop_from best qs).0) (best ∷ qs)
pop_from-top best [] = unfold pop_from in (inr (refl, omega arith), tt)
pop_from-top best (q ∷ qs) = elim (Bool-cases (is_less (cmp best q))) [
  | inl e ↦
      let (below, rest) = pop_from-top q qs in
      subst (λ (t : QueuedTask × List QueuedTask). All (Before t.0) (best ∷ q ∷ qs))
        (sym (pop_from_less best q qs e))
        (Before-trans (pop_from q qs).0 q best below (less_Before best q e), (below, rest))
  | inr e ↦
      let (below, rest) = pop_from-top best qs in
      subst (λ (t : QueuedTask × List QueuedTask). All (Before t.0) (best ∷ q ∷ qs))
        (sym (pop_from_not_less best q qs e))
        (below, (Before-trans (pop_from best qs).0 best q below (not_less_Before best q e), rest))
]

pop_from-perm :
    (best : QueuedTask) (qs : List QueuedTask)
    → Perm ((pop_from best qs).0 ∷ (pop_from best qs).1) (best ∷ qs)
pop_from-perm best [] = unfold pop_from in Perm.refl (best ∷ [])
pop_from-perm best (q ∷ qs) = elim (Bool-cases (is_less (cmp best q))) [
  | inl e ↦ rw (pop_from_less best q qs e) (
      Perm.trans (Perm.swap best (pop_from q qs).0 (pop_from q qs).1)
        (Perm.cons best (pop_from-perm q qs)))
  | inr e ↦ rw (pop_from_not_less best q qs e) (
      Perm.trans (Perm.swap q (pop_from best qs).0 (pop_from best qs).1)
        (Perm.trans (Perm.cons q (pop_from-perm best qs)) (Perm.swap best q qs)))
]

pub pop_from-length :
    (best : QueuedTask) (qs : List QueuedTask) → length (pop_from best qs).1 ≡ length qs
pop_from-length best [] = unfold pop_from in refl
pop_from-length best (q ∷ qs) = elim (Bool-cases (is_less (cmp best q))) [
  | inl e ↦ rw (pop_from_less best q qs e) (omega (arith, pop_from-length q qs))
  | inr e ↦ rw (pop_from_not_less best q qs e) (omega (arith, pop_from-length best qs))
]

-- Taking from an empty queue gives nothing. From any other it takes an entry that is served before
-- every entry of the queue (higher priority first, then earlier arrival), hands out its task, and
-- leaves exactly the other entries.
pub pop-Before :
    (queue : PriorityQueue)
    → ((queue ≡ []) × (pop queue ≡ none))
      ⊎ ((e : QueuedTask) × (rest : PriorityQueue) × (pop queue ≡ some (e.task, rest))
          × All (Before e) queue
          × Perm (e ∷ rest) queue)
unfolding pop
pop-Before [] = inl (refl, refl)
pop-Before (q ∷ qs) =
    inr ((pop_from q qs).0, (pop_from q qs).1, refl, pop_from-top q qs, pop_from-perm q qs)
