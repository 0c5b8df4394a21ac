-- ===== src/Bus/Control/Calls.antt =====
-- The calls that write the cancellation table, and sequences of them: what any interleaving of the
-- worker and of other threads does to the table, since each call holds its lock.
use guigu_agent_bridge.Prelude.{List, [], ◌∷◌}
use guigu_agent_bridge.Prelude.Texts.{Text}
use guigu_agent_bridge.Models.Task.{TaskId}
use guigu_agent_bridge.Bus.Control.{Cancellation, cancel, cancel_all, activate, retire}

pub data Call : Type 0 where
  cancels : TaskId → Text → Call
  cancels_all : Text → Call
  activates : TaskId → Call
  retires : TaskId → Call

unfoldable pub call : Cancellation → Call → Cancellation
call c (cancels k r) = cancel c k r
call c (cancels_all r) = cancel_all c r
call c (activates k) = record c { state = activate c.state k }
call c (retires k) = record c { state = (retire c.state k).0 }

unfoldable pub calls : Cancellation → List Call → Cancellation
calls c [] = c
calls c (e ∷ es) = calls (call c e) es
