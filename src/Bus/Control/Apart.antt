-- ===== src/Bus/Control/Apart.antt =====
-- The three tables of src/bus/control.rs and their common keys.
use guigu_agent_bridge.Prelude.{
  ℕ, ◌≡◌, ◌≤◌, none, some, false, List, [], ◌∷◌, ◌==◌, length, arith, inl, inr, Option-cases,
  if◌then◌else◌, ◌⊎◌, ◌&&◌,
}
use guigu_agent_bridge.Prelude.Texts.{Text}
use guigu_agent_bridge.Prelude.Maps.{lookup, remove, contains_key, lookup-insert, lookup-remove}
use guigu_agent_bridge.Models.Task.{TaskId}
use guigu_agent_bridge.Bus.Control.{
  CancellationState, Cancellation, new, remember_pending, remember_retired, cancel_state, cancel,
  max_pending_cancellations, max_retired_tasks, promoted_reason, get_or_insert, cancel_all,
  activate, retire,
}
use guigu_agent_bridge.Bus.Control.Reason.{bounded_reason}
use guigu_agent_bridge.Bus.Control.Oldest.{displace_oldest, lookup-displace_oldest}
use guigu_agent_bridge.Bus.Control.Calls.{
  Call, cancels, cancels_all, activates, retires, call, calls,
}

-- At most one table has a record of the task.
pub record IsApart (s : CancellationState) (k : TaskId) : Type 0 where
  pub active_pending : contains_key k s.active && contains_key k s.pending ≡ false
  pub active_retired : contains_key k s.active && contains_key k s.retired ≡ false
  pub pending_retired : contains_key k s.pending && contains_key k s.retired ≡ false

-- What the pending table holds after a record is added: room may have been made by displacing one
-- entry, which happens at the ceiling only.
pub remember_pending-lookup :
    (s : CancellationState) (k j : TaskId) (r : Text)
    → let found = lookup j (remember_pending s k r).pending in
      (found ≡ (if k == j then some (r, s.next_pending_seq) else lookup j s.pending))
      ⊎ ((max_pending_cancellations ≤ length s.pending)
          × (found ≡ (if k == j then some (r, s.next_pending_seq) else none)))
unfolding remember_pending
remember_pending-lookup s k j r = ground (
  arith,
  lookup-insert k j (r, s.next_pending_seq) s.pending,
  lookup-insert k j (r, s.next_pending_seq) (displace_oldest (λ (p : Text × ℕ). p.1) s.pending),
  lookup-displace_oldest (λ (p : Text × ℕ). p.1) s.pending j,
)

pub remember_pending_rest :
    (s : CancellationState) (k : TaskId) (r : Text)
    → let t = remember_pending s k r in
      (t.active ≡ s.active) × (t.retired ≡ s.retired) × (t.global ≡ s.global)
unfolding remember_pending
remember_pending_rest s k r = ground arith

pub remember_retired-lookup :
    (s : CancellationState) (k j : TaskId)
    → let found = lookup j (remember_retired s k).retired in
      (found ≡ (if k == j then some s.next_retired_seq else lookup j s.retired))
      ⊎ ((max_retired_tasks ≤ length s.retired)
          × (found ≡ (if k == j then some s.next_retired_seq else none)))
unfolding remember_retired
remember_retired-lookup s k j = ground (
  arith,
  lookup-insert k j s.next_retired_seq s.retired,
  lookup-insert k j s.next_retired_seq (displace_oldest (λ (n : ℕ). n) s.retired),
  lookup-displace_oldest (λ (n : ℕ). n) s.retired j,
)

cancel_state-IsApart :
    (s : CancellationState) (k j : TaskId) (r : Text) → IsApart s j → IsApart (cancel_state s k r) j
unfolding cancel_state
cancel_state-IsApart s k j r a = elim (Option-cases (lookup k s.active)) [
  | inl e ↦ ground (
    arith,
    remember_pending-lookup s k j (bounded_reason r),
    remember_pending_rest s k (bounded_reason r),
  )
  | inr (slot, e) ↦
      ground (arith, lookup-insert k j (get_or_insert slot (bounded_reason r)) s.active)
]

activate-IsApart : (s : CancellationState) (k j : TaskId) → IsApart s j → IsApart (activate s k) j
unfolding activate
activate-IsApart s k j a = ground (
  arith,
  lookup-remove k j s.retired,
  lookup-remove k j s.pending,
  lookup-insert k j (promoted_reason (lookup k s.pending)) s.active,
)

abbrev pub forget : CancellationState → TaskId → CancellationState
forget s k = record s { active = remove k s.active; pending = remove k s.pending }

retire-IsApart : (s : CancellationState) (k j : TaskId) → IsApart s j → IsApart (retire s k).0 j
unfolding retire remember_retired
retire-IsApart s k j a = ground (
  arith,
  remember_retired-lookup (forget s k) k j,
  lookup-remove k j s.active,
  lookup-remove k j s.pending,
)

call-IsApart :
    (c : Cancellation) (e : Call) (j : TaskId) → IsApart c.state j → IsApart (call c e).state j
unfolding call cancel cancel_all
call-IsApart c (cancels k r) j a = cancel_state-IsApart c.state k j r a
call-IsApart c (cancels_all r) j a = ground arith
call-IsApart c (activates k) j a = activate-IsApart c.state k j a
call-IsApart c (retires k) j a = retire-IsApart c.state k j a

pub calls-IsApart :
    (c : Cancellation) (es : List Call) (j : TaskId)
    → IsApart c.state j
    → IsApart (calls c es).state j
unfolding calls
calls-IsApart c [] j a = a
calls-IsApart c (e ∷ es) j a = calls-IsApart (call c e) es j (call-IsApart c e j a)

pub new-IsApart : (j : TaskId) → IsApart new.state j
unfolding new lookup
new-IsApart j = ground arith
