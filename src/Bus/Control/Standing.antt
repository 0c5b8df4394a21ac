-- ===== src/Bus/Control/Standing.antt =====
-- The record of one task in the table of src/bus/control.rs, as a small state machine.
use guigu_agent_bridge.Prelude.{
  ℕ, ◌≤◌, ◌≡◌, ◌≢◌, ◌⊎◌, refl, Option, none, some, List, ◌==◌, length, arith, inl, inr,
  Option-cases, if◌then◌else◌,
}
use native.Mathlib.Decide.{ℕ_discrete}
use guigu_agent_bridge.Prelude.Texts.{Text}
use guigu_agent_bridge.Prelude.Maps.{lookup, lookup-insert, lookup-remove}
use guigu_agent_bridge.Models.Task.{TaskId}
use guigu_agent_bridge.Bus.Control.{
  CancellationState, Cancellation, new, max_pending_cancellations, max_retired_tasks, get_or_insert,
  promoted_reason, cancel_state, cancel, cancel_all, reason_for_state, activate, retire,
}
use guigu_agent_bridge.Bus.Control.Reason.{bounded_reason}
use guigu_agent_bridge.Bus.Control.Apart.{
  IsApart, calls-IsApart, new-IsApart, remember_pending-lookup, remember_pending_rest,
  remember_retired-lookup, forget,
}
use guigu_agent_bridge.Bus.Control.Calls.{
  Call, cancels, cancels_all, activates, retires, call, calls,
}

-- `free`: no record. `waiting`: cancelled before the worker took the task over. `owned`: taken
-- over, with the reason if it is cancelled. `gone`: finished, so that late cancels are dropped.
pub data Standing : Type 0 where
  free gone : Standing
  waiting : Text → Standing
  owned : Option Text → Standing

abbrev pub standing_of : Option (Option Text) → Option (Text × ℕ) → Option ℕ → Standing
standing_of (some slot) p r = owned slot
standing_of none (some p) r = waiting p.0
standing_of none none (some r) = gone
standing_of none none none = free

abbrev pub standing : CancellationState → TaskId → Standing
standing s k = standing_of (lookup k s.active) (lookup k s.pending) (lookup k s.retired)

-- The moves of the machine.
abbrev pub after_cancel : Text → Standing → Standing
after_cancel r free = waiting (bounded_reason r)
after_cancel r (waiting old) = waiting old
after_cancel r (owned none) = owned (some (bounded_reason r))
after_cancel r (owned (some old)) = owned (some old)
after_cancel r gone = gone

abbrev pub after_activate : Standing → Standing
after_activate free = owned none
after_activate (waiting r) = owned (some r)
after_activate (owned slot) = owned slot
after_activate gone = owned none

abbrev pub own_reason : Standing → Option Text
own_reason free = none
own_reason (waiting r) = some r
own_reason (owned slot) = slot
own_reason gone = none

abbrev pub or_else : Option Text → Option Text → Option Text
or_else (some r) other = some r
or_else none other = other

pub cancel_state-standing :
    (s : CancellationState) (k : TaskId) (r : Text)
    → standing (cancel_state s k r) k ≡ after_cancel r (standing s k)
unfolding cancel_state
cancel_state-standing s k r = elim (Option-cases (lookup k s.active)) [
  | inl e ↦ ground (
    arith,
    remember_pending-lookup s k k (bounded_reason r),
    remember_pending_rest s k (bounded_reason r),
  )
  | inr (slot, e) ↦
      ground (arith, lookup-insert k k (get_or_insert slot (bounded_reason r)) s.active)
]

pub activate-standing :
    (s : CancellationState) (k : TaskId) → standing (activate s k) k ≡ after_activate (standing s k)
unfolding activate
activate-standing s k = ground (
  arith,
  lookup-remove k k s.retired,
  lookup-remove k k s.pending,
  lookup-insert k k (promoted_reason (lookup k s.pending)) s.active,
)

pub retire-standing : (s : CancellationState) (k : TaskId) → standing (retire s k).0 k ≡ gone
unfolding retire
retire-standing s k = ground (
  arith,
  remember_retired-lookup (forget s k) k k,
  lookup-remove k k s.active,
  lookup-remove k k s.pending,
)

-- The task's own reason comes first and the global one after it, whenever its record is in one
-- table at most.
pub reason_for_state-standing :
    (s : CancellationState) (k : TaskId)
    → IsApart s k
    → reason_for_state s k ≡ or_else (own_reason (standing s k)) s.global
unfolding reason_for_state
reason_for_state-standing s k a = ground arith

-- The move that a call makes in the machine of task `k`.
abbrev pub move : TaskId → Call → Standing → Standing
move k (cancels j r) st = if j == k then after_cancel r st else st
move k (cancels_all r) st = st
move k (activates j) st = if j == k then after_activate st else st
move k (retires j) st = if j == k then gone else st

-- A record displaced at a ceiling: a waiting reason by another task's, a retired mark by another's.
pub data IsDisplaced (c : Cancellation) (k : TaskId) (e : Call) : Type 0 where
  reason_displaced :
      (j : TaskId) (r old : Text)
      → e ≡ cancels j r
      → j ≢ k
      → standing c.state k ≡ waiting old
      → max_pending_cancellations ≤ length c.state.pending
      → IsDisplaced c k e
  mark_displaced :
      (j : TaskId)
      → e ≡ retires j
      → j ≢ k
      → standing c.state k ≡ gone
      → max_retired_tasks ≤ length c.state.retired
      → IsDisplaced c k e

-- What a call does to the record of task `k`: the machine's move, or the loss of the record at a
-- ceiling.
abbrev pub Refines : Cancellation → TaskId → Call → Type 0
Refines c k e =
    (standing (call c e).state k ≡ move k e (standing c.state k))
    ⊎ (IsDisplaced c k e × (standing (call c e).state k ≡ free))

cancel_frame :
    (s : CancellationState) (k j : TaskId) (r : Text)
    → IsApart s k
    → j ≢ k
    → (standing (cancel_state s j r) k ≡ standing s k)
      ⊎ ((old : Text) × (standing s k ≡ waiting old)
          × (max_pending_cancellations ≤ length s.pending)
          × (standing (cancel_state s j r) k ≡ free))
unfolding cancel_state
cancel_frame s k j r a h = elim (Option-cases (lookup j s.active)) [
  | inl e ↦ ground (
    arith,
    remember_pending-lookup s j k (bounded_reason r),
    remember_pending_rest s j (bounded_reason r),
  )
  | inr (slot, e) ↦
      ground (arith, lookup-insert j k (get_or_insert slot (bounded_reason r)) s.active)
]

activate_frame :
    (s : CancellationState) (k j : TaskId) → j ≢ k → standing (activate s j) k ≡ standing s k
unfolding activate
activate_frame s k j h = ground (
  arith,
  lookup-remove j k s.retired,
  lookup-remove j k s.pending,
  lookup-insert j k (promoted_reason (lookup j s.pending)) s.active,
)

retire_frame :
    (s : CancellationState) (k j : TaskId)
    → j ≢ k
    → (standing (retire s j).0 k ≡ standing s k)
      ⊎ ((standing s k ≡ gone)
          × (max_retired_tasks ≤ length s.retired)
          × (standing (retire s j).0 k ≡ free))
unfolding retire
retire_frame s k j h = ground (
  arith,
  remember_retired-lookup (forget s j) j k,
  lookup-remove j k s.active,
  lookup-remove j k s.pending,
)

state-cancel :
    (c : Cancellation) (k : TaskId) (r : Text) → (cancel c k r).state ≡ cancel_state c.state k r
unfolding cancel
state-cancel c k r = refl

cancels-Refines :
    (c : Cancellation) (k j : TaskId) (r : Text) → IsApart c.state k → Refines c k (cancels j r)
unfolding call
cancels-Refines c k j r a = elim (ℕ_discrete j k) [
  | yes e ↦ inl (ground (arith, e, state-cancel c j r, cancel_state-standing c.state j r))
  | no n ↦ elim (cancel_frame c.state k j r a n) [
    | inl same ↦ inl (ground (arith, n, same, state-cancel c j r))
    | inr (old, was, full, now) ↦
        inr (reason_displaced j r old refl n was full, rw (state-cancel c j r) now)
  ]
]

retires-Refines : (c : Cancellation) (k j : TaskId) → Refines c k (retires j)
unfolding call
retires-Refines c k j = elim (ℕ_discrete j k) [
  | yes e ↦ inl (ground (arith, e, retire-standing c.state j))
  | no n ↦ elim (retire_frame c.state k j n) [
    | inl same ↦ inl (ground (arith, n, same))
    | inr (was, full, now) ↦ inr (mark_displaced j refl n was full, now)
  ]
]

activates-Refines : (c : Cancellation) (k j : TaskId) → Refines c k (activates j)
unfolding call
activates-Refines c k j = elim (ℕ_discrete j k) [
  | yes e ↦ inl (ground (arith, e, activate-standing c.state j))
  | no n ↦ inl (ground (arith, n, activate_frame c.state k j n))
]

call-Refines : (c : Cancellation) (k : TaskId) (e : Call) → IsApart c.state k → Refines c k e
unfolding call
call-Refines c k (cancels j r) a = cancels-Refines c k j r a
call-Refines c k (cancels_all r) a = inl (unfold cancel_all in refl)
call-Refines c k (activates j) a = activates-Refines c k j
call-Refines c k (retires j) a = retires-Refines c k j

-- After any sequence of calls on a new table, the next call moves the record of every task as the
-- state machine says (a cancel counts once and is dropped for a finished task, taking the task over
-- keeps a waiting reason, retiring ends it), unless another task's record displaces it at a ceiling
-- of 1024, which makes it free.
pub calls-Refines :
    (es : List Call) (k : TaskId) (e : Call)
    → let c = calls new es in
      (standing (call c e).state k ≡ move k e (standing c.state k))
      ⊎ (IsDisplaced c k e × (standing (call c e).state k ≡ free))
calls-Refines es k e = call-Refines (calls new es) k e (calls-IsApart new es k (new-IsApart k))
