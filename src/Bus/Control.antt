-- ===== src/Bus/Control.antt =====
-- The cancellation table of src/bus/control.rs. A method that locks the table and writes it returns
-- the new table; `version` is the counter that wakes the waiting tasks.
pub mod Reason
pub mod Oldest
pub mod Calls
pub mod Bounds
pub mod Apart
pub mod Standing
pub mod Examples
use guigu_agent_bridge.Prelude.{
  ℕ, ◌+◌, ◌%◌, ◌^◌, Option, none, some, Bool, true, false, ◌&&◌, ◌||◌, not, leb, if◌then◌else◌,
  length, is_some, [],
}
use guigu_agent_bridge.Prelude.Texts.{Text}
use guigu_agent_bridge.Prelude.Maps.{Map, lookup, insert, remove, contains_key}
use guigu_agent_bridge.Models.Task.{TaskId}
use Reason.{bounded_reason}
use Oldest.{displace_oldest}

abbrev pub max_pending_cancellations : ℕ
max_pending_cancellations = 1024

abbrev pub max_retired_tasks : ℕ
max_retired_tasks = 1024

pub record CancellationState : Type 0 where
  pub global : Option Text
  pub active : Map (Option Text)
  pub pending : Map (Text × ℕ)
  pub next_pending_seq : ℕ  -- u64
  pub retired : Map ℕ
  pub next_retired_seq : ℕ  -- u64

pub record Cancellation : Type 0 where
  pub state : CancellationState
  pub version : ℕ  -- u64

-- `wrapping_add(1)` on u64.
abbrev pub wrapping_inc : ℕ → ℕ
wrapping_inc n = (n + 1) % 2 ^ 64

unfoldable pub displace_oldest_pending : CancellationState → CancellationState
displace_oldest_pending s = record s { pending = displace_oldest (λ p. p.1) s.pending }

unfoldable pub remember_pending : CancellationState → TaskId → Text → CancellationState
unfolding displace_oldest_pending
remember_pending s task_id reason =
    let room =
      if leb max_pending_cancellations (length s.pending) then displace_oldest_pending s else s in
    record room {
      pending = insert task_id (reason, room.next_pending_seq) room.pending;
      next_pending_seq = wrapping_inc room.next_pending_seq;
    }

unfoldable pub remember_retired : CancellationState → TaskId → CancellationState
remember_retired s task_id =
    let room =
      if leb max_retired_tasks (length s.retired)
      then displace_oldest (λ n. n) s.retired
      else s.retired in
    record s {
      retired = insert task_id s.next_retired_seq room;
      next_retired_seq = wrapping_inc s.next_retired_seq;
    }

unfoldable pub default : CancellationState
default = record {
  global = none;
  active = [];
  pending = [];
  next_pending_seq = 0;
  retired = [];
  next_retired_seq = 0;
}

unfoldable pub new : Cancellation
unfolding default
new = record { state = default; version = 0 }

bump : Cancellation → Cancellation
bump c = record c { version = wrapping_inc c.version }

-- `slot.get_or_insert_with(...)`: the first reason stays.
abbrev pub get_or_insert : Option Text → Text → Option Text
get_or_insert none reason = some reason
get_or_insert (some old) reason = some old

cancel_active : CancellationState → TaskId → Option Text → Text → CancellationState
cancel_active s task_id slot reason = record s {
  active = insert task_id (get_or_insert slot (bounded_reason reason)) s.active;
}

cancel_inactive : CancellationState → TaskId → Text → CancellationState
cancel_inactive s task_id reason =
    if not (contains_key task_id s.retired) && not (contains_key task_id s.pending)
    then remember_pending s task_id (bounded_reason reason)
    else s

unfoldable pub cancel_state : CancellationState → TaskId → Text → CancellationState
unfolding cancel_active cancel_inactive
cancel_state s task_id reason = elim (lookup task_id s.active) [
  | some slot ↦ cancel_active s task_id slot reason
  | none ↦ cancel_inactive s task_id reason
]

unfoldable pub cancel : Cancellation → TaskId → Text → Cancellation
unfolding cancel_state bump
cancel c task_id reason = bump (record c { state = cancel_state c.state task_id reason })

unfoldable pub cancel_all : Cancellation → Text → Cancellation
unfolding bump
cancel_all c reason = bump (record c {
  state = record (c.state) { global = get_or_insert c.state.global (bounded_reason reason) };
})

pending_reason : CancellationState → TaskId → Option Text
pending_reason s task_id = elim (lookup task_id s.pending) [ some p ↦ some p.0 | none ↦ s.global ]

unfoldable pub reason_for_state : CancellationState → TaskId → Option Text
unfolding pending_reason
reason_for_state s task_id = elim (lookup task_id s.active) [
  | some (some reason) ↦ some reason
  | some none ↦ pending_reason s task_id
  | none ↦ pending_reason s task_id
]

unfoldable pub reason_for : Cancellation → TaskId → Option Text
unfolding reason_for_state
reason_for c task_id = reason_for_state c.state task_id

-- `active.entry(task_id).or_insert(promoted)`.
or_insert : TaskId → Option Text → Map (Option Text) → Map (Option Text)
or_insert task_id promoted m = if contains_key task_id m then m else insert task_id promoted m

abbrev pub promoted_reason : Option (Text × ℕ) → Option Text
promoted_reason none = none
promoted_reason (some p) = some p.0

unfoldable pub activate : CancellationState → TaskId → CancellationState
unfolding or_insert
activate s task_id = record s {
  retired = remove task_id s.retired;
  pending = remove task_id s.pending;
  active = or_insert task_id (promoted_reason (lookup task_id s.pending)) s.active;
}

unfoldable pub retire : CancellationState → TaskId → CancellationState × Bool
unfolding remember_retired
retire s task_id =
    let active = contains_key task_id s.active in
    let pending = contains_key task_id s.pending in
    (
      remember_retired
          (record s { active = remove task_id s.active; pending = remove task_id s.pending })
          task_id,
      active || pending,
    )

unfoldable pub is_retired : CancellationState → TaskId → Bool
is_retired s task_id = contains_key task_id s.retired

unfoldable pub tracked : CancellationState → ℕ
tracked s = length s.active + length s.pending
