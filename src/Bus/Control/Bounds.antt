-- ===== src/Bus/Control/Bounds.antt =====
-- The sizes of the retained tables of src/bus/control.rs.
use guigu_agent_bridge.Prelude.{
  ℕ, ◌≤◌, leb, length, arith, inl, inr, Bool-cases, List, [], ◌∷◌, if◌then◌else◌,
}
use guigu_agent_bridge.Prelude.Texts.{Text}
use guigu_agent_bridge.Prelude.Maps.{Map, insert, remove, length-insert-le, length-remove-le}
use guigu_agent_bridge.Models.Task.{TaskId}
use guigu_agent_bridge.Bus.Control.{
  CancellationState, Cancellation, max_pending_cancellations, max_retired_tasks, new,
  remember_pending, remember_retired, cancel_state, cancel, cancel_all, activate, retire,
}
use guigu_agent_bridge.Bus.Control.Reason.{bounded_reason}
use guigu_agent_bridge.Bus.Control.Calls.{
  Call, cancels, cancels_all, activates, retires, call, calls,
}
use guigu_agent_bridge.Bus.Control.Oldest.{displace_oldest, length-displace_oldest}

-- The ceilings on the two tables that outlive a task.
pub record IsBounded (s : CancellationState) : Type 0 where
  pub pending_bound : length s.pending ≤ max_pending_cancellations
  pub retired_bound : length s.retired ≤ max_retired_tasks

-- Room for one entry is made at the ceiling, for any table.
insert_after_room :
    {V : Type 0} (f : V → ℕ) (k : ℕ) (v : V) (m : Map V)
    → length m ≤ 1024
    → length (insert k v (if leb 1024 (length m) then displace_oldest f m else m)) ≤ 1024
insert_after_room f k v m h = elim (Bool-cases (leb 1024 (length m))) [
  | inl full ↦
      rw full
        (ground (arith, length-insert-le k v (displace_oldest f m), length-displace_oldest f m))
  | inr room ↦ rw room (ground (arith, length-insert-le k v m))
]

remember_pending-IsBounded :
    (s : CancellationState) (k : TaskId) (r : Text)
    → IsBounded s
    → IsBounded (remember_pending s k r)
unfolding remember_pending
remember_pending-IsBounded s k r b = ground (
  arith,
  length-displace_oldest (λ (p : Text × ℕ). p.1) s.pending,
  length-insert-le k (r, s.next_pending_seq) s.pending,
  length-insert-le k (r, s.next_pending_seq) (displace_oldest (λ (p : Text × ℕ). p.1) s.pending),
)

pub remember_retired-IsBounded :
    (s : CancellationState) (k : TaskId) → IsBounded s → IsBounded (remember_retired s k)
unfolding remember_retired
remember_retired-IsBounded s k b = record {
  pending_bound = b.pending_bound;
  retired_bound = insert_after_room (λ n. n) k s.next_retired_seq s.retired b.retired_bound;
}

pub cancel_state-IsBounded :
    (s : CancellationState) (k : TaskId) (r : Text) → IsBounded s → IsBounded (cancel_state s k r)
unfolding cancel_state
cancel_state-IsBounded s k r b = ground (arith, remember_pending-IsBounded s k (bounded_reason r))

call-IsBounded : (c : Cancellation) (e : Call) → IsBounded c.state → IsBounded (call c e).state
unfolding call cancel cancel_all activate retire
call-IsBounded c (cancels k r) b = cancel_state-IsBounded c.state k r b
call-IsBounded c (cancels_all r) b = ground arith
call-IsBounded c (activates k) b =
    ground (arith, length-remove-le k c.state.pending, length-remove-le k c.state.retired)
call-IsBounded c (retires k) b =
    remember_retired-IsBounded
      (record (c.state) { active = remove k c.state.active; pending = remove k c.state.pending }) k
      (ground (arith, length-remove-le k c.state.pending))

calls-IsBounded :
    (c : Cancellation) (es : List Call) → IsBounded c.state → IsBounded (calls c es).state
unfolding calls
calls-IsBounded c [] b = b
calls-IsBounded c (e ∷ es) b = calls-IsBounded (call c e) es (call-IsBounded c e b)

-- After any sequence of calls of the public methods on a new table, in any order and for any task
-- identifiers, the pending and the retired table hold at most 1024 entries each.
pub calls-new-IsBounded : (es : List Call) → IsBounded (calls new es).state
unfolding new
calls-new-IsBounded es = calls-IsBounded new es (ground arith)
