-- ===== src/Bus/Control/Examples.antt =====
-- Runs of the cancellation table of src/bus/control.rs.
use guigu_agent_bridge.Prelude.{◌≡◌, ◌⊎◌, refl, some, List, [], ◌∷◌, ◌<◌, length}
use guigu_agent_bridge.Prelude.Texts.{codes}
use guigu_agent_bridge.Bus.Control.{
  new, reason_for, activate, cancel, cancel_all, retire, remember_pending,
}
use guigu_agent_bridge.Prelude.Maps.{lookup, insert, remove}
use guigu_agent_bridge.Bus.Control.Reason.{bounded_reason, bounded_reason-IsCut, max_reason_bytes}
use guigu_agent_bridge.Boundaries.{IsCut}
use guigu_agent_bridge.Bus.Control.Calls.{
  Call, cancels, cancels_all, activates, retires, call, calls,
}
use guigu_agent_bridge.Bus.Control.Bounds.{IsBounded, calls-new-IsBounded}
use guigu_agent_bridge.Bus.Control.Standing.{standing, move, free, IsDisplaced, calls-Refines}

-- A cancel that comes before the task is taken over, and one that comes after it has ended.
abbrev early_cancel : List Call
early_cancel = cancels 7 (codes "stop") ∷ activates 7 ∷ []

abbrev late_cancel : List Call
late_cancel = activates 7 ∷ retires 7 ∷ cancels 7 (codes "late") ∷ cancels_all (codes "bye") ∷ []

early_cancel_reason : reason_for (calls new early_cancel) 7 ≡ some (codes "stop")
unfolding calls call new reason_for lookup activate cancel remember_pending insert bounded_reason
early_cancel_reason = refl

late_cancel_reason : reason_for (calls new late_cancel) 7 ≡ some (codes "bye")
unfolding calls call new reason_for lookup cancel_all cancel retire remove activate insert
    bounded_reason
late_cancel_reason = refl

calls-Refines_example :
    (standing (call (calls new early_cancel) (retires 7)).state 7
      ≡ move 7 (retires 7) (standing (calls new early_cancel).state 7))
    ⊎ (IsDisplaced (calls new early_cancel) 7 (retires 7)
        × (standing (call (calls new early_cancel) (retires 7)).state 7 ≡ free))
calls-Refines_example = calls-Refines early_cancel 7 (retires 7)

calls-new-IsBounded_example : IsBounded (calls new late_cancel).state
calls-new-IsBounded_example = calls-new-IsBounded late_cancel

bounded_reason-IsCut_example :
    IsCut 128 (codes "stop") (bounded_reason (codes "stop"))
    × ((bounded_reason (codes "stop") ≡ codes "stop") ⊎ (max_reason_bytes < length (codes "stop")))
bounded_reason-IsCut_example = bounded_reason-IsCut (codes "stop")
