-- ===== src/Matrix/Reply.antt =====
-- The replies of src/matrix/reply.rs. The sender is a function on the outside.
pub mod Consumer
pub mod Once
use guigu_agent_bridge.Prelude.{
  ℕ, Option, none, some, Bool, true, false, List, [], ◌∷◌, Result, ok, err,
}
use guigu_agent_bridge.Prelude.Texts.{Text, codes}
use guigu_agent_bridge.Models.Event.{TaskEvent, TaskEventPayload}

pub record ReplyContext : Type 0 where
  pub room_id : Text
  pub thread_root : Option Text
  pub event_id : Text

pub data ReplyError : Type 0 where
  reply_error : ReplyError

pub record MatrixSender (W : Type 0) : Type 0 where
  pub send_reply : ReplyContext → Text → W → Result (Unit {0}) ReplyError × W

-- The body of the reply to an event; none, if there is no reply.
unfoldable pub reply_body : TaskEventPayload → Option Text
reply_body TaskEventPayload.queued = none
reply_body (TaskEventPayload.dispatched delivery attempt) = none
reply_body (TaskEventPayload.running started) = none
reply_body (TaskEventPayload.completed output) = some output
reply_body (TaskEventPayload.failed error) = some error
reply_body (TaskEventPayload.timed_out deadline) = some (codes "The task timed out.")
reply_body (TaskEventPayload.cancelled reason) = some reason

abbrev pub replied : {W : Type 0} → Result (Unit {0}) ReplyError × W → Result Bool ReplyError × W
replied (ok u, w) = (ok true, w)
replied (err e, w) = (err e, w)

abbrev pub send_body :
    {W : Type 0} → MatrixSender W → ReplyContext → Option Text → W → Result Bool ReplyError × W
send_body sender context none w = (ok false, w)
send_body sender context (some body) w = replied (sender.send_reply context body w)

unfoldable pub send_task_terminal_reply :
    {W : Type 0} → MatrixSender W → ReplyContext → TaskEventPayload → W → Result Bool ReplyError × W
unfolding reply_body
send_task_terminal_reply sender context payload w = send_body sender context (reply_body payload) w
