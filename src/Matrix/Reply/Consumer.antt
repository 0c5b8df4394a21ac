-- ===== src/Matrix/Reply/Consumer.antt =====
-- `TerminalReplyConsumer::consume` of src/app/ingress.rs, which replies to the events of the bus, and
-- the reads and the removals of its `ReplyRegistry`.
use guigu_agent_bridge.Prelude.{ℕ, Option, none, some, Bool, true, false, List, Result, ok, err}
use guigu_agent_bridge.Prelude.Texts.{codes}
use guigu_agent_bridge.Prelude.Maps.{Map, lookup, remove}
use guigu_agent_bridge.Models.Task.{TaskId}
use guigu_agent_bridge.Models.Event.{TaskEvent}
use guigu_agent_bridge.Bus.Fanout.{ConsumerError, EventConsumer}
use guigu_agent_bridge.Matrix.Reply.{
  ReplyContext, ReplyError, MatrixSender, send_task_terminal_reply,
}

-- The contexts, and the tasks in the order of their registration.
pub record ReplyRegistry : Type 0 where
  pub capacity : ℕ
  pub contexts : Map ReplyContext
  pub order : List TaskId

abbrev pub get : TaskId → ReplyRegistry → Option ReplyContext
get task r = lookup task r.contexts

-- The order keeps the task.
abbrev pub take : TaskId → ReplyRegistry → ReplyRegistry
take task r = record r { contexts = remove task r.contexts }

module _ {W : Type 0} (sender : MatrixSender W) where
  -- The registry, and the world of the sender.
  abbrev pub State : Type 0
  State = ReplyRegistry × W

  abbrev pub after_send :
      TaskId → ReplyRegistry → Result Bool ReplyError × W → Result (Unit {0}) ConsumerError × State
  after_send task r (ok true, w) = (ok tt, (take task r, w))
  after_send task r (ok false, w) = (ok tt, (r, w))
  after_send task r (err e, w) =
      (err (ConsumerError.failed (codes "terminal Matrix reply failed")), (take task r, w))

  abbrev pub with_context :
      TaskEvent → State → Option ReplyContext → Result (Unit {0}) ConsumerError × State
  with_context event s none = (ok tt, s)
  with_context event (r, w) (some context) =
      after_send event.task_id r (send_task_terminal_reply sender context event.payload w)

  unfoldable pub consume : EventConsumer State
  consume event s = with_context event s (get event.task_id (s.0))
