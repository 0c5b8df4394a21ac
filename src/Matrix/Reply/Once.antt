-- ===== src/Matrix/Reply/Once.antt =====
-- How often src/app/ingress.rs replies for a task that src/bus/worker.rs runs.
use mathlib.Core.Path.{subst}
use guigu_agent_bridge.Prelude.{
  ℕ, ◌≡◌, refl, sym, ap, ◌∙◌, Option, none, some, List, [], ◌∷◌, Result, ok, err,
}
use guigu_agent_bridge.Prelude.Texts.{Text, codes}
use guigu_agent_bridge.Models.Task.{TaskId, DateTime}
use guigu_agent_bridge.Models.Event.{TaskEvent, TaskEventPayload}
use guigu_agent_bridge.Bus.Worker.Trace.{
  Phase, ready, sent, started, done, Ends, as_failed, as_timed_out, as_cancelled, Next, ready_next,
  sent_next, started_next, Trace, begin, dispatch, run, refused, broken, finish, complete,
}
use guigu_agent_bridge.Matrix.Reply.{
  ReplyContext, ReplyError, MatrixSender, reply_body, replied, send_task_terminal_reply,
}
use guigu_agent_bridge.Matrix.Reply.Consumer.{State, get, take, after_send, with_context, consume}

-- What the user is told of a task's end.
pub data Says : TaskEventPayload → Text → Type 0 where
  output : (text : Text) → Says (TaskEventPayload.completed text) text
  error : (text : Text) → Says (TaskEventPayload.failed text) text
  overdue : (t : DateTime) → Says (TaskEventPayload.timed_out t) (codes "The task timed out.")
  reason : (text : Text) → Says (TaskEventPayload.cancelled text) text

module _ {W : Type 0} (sender : MatrixSender W) where
  -- After events that are listed with the newest first.
  abbrev pub consume_all : List TaskEvent → State sender → State sender
  consume_all [] s = s
  consume_all (e ∷ es) s = (consume sender e (consume_all es s)).1

  -- One reply for the task, sent from the state `before` with the text of the newest event; or none,
  -- for a task without a context.
  pub data Replied (task_id : TaskId) (es : List TaskEvent) (before after : State sender)
      : Type 0 where
    once :
        (context : ReplyContext) (newest : TaskEvent) (older : List TaskEvent) (body : Text)
        → get task_id (before.0) ≡ some context
        → es ≡ newest ∷ older
        → Says newest.payload body
        → after ≡ (take task_id (before.0), (sender.send_reply context body (before.1)).1)
        → Replied task_id es before after
    unregistered : get task_id (before.0) ≡ none → after ≡ before → Replied task_id es before after

  silent :
      (e : TaskEvent) (s : State sender) (o : Option ReplyContext)
      → reply_body e.payload ≡ none
      → (with_context sender e s o).1 ≡ s
  unfolding send_task_terminal_reply
  silent e s none h = refl
  silent e s (some context) h = rw h refl

  Says-reply_body : (p : TaskEventPayload) (body : Text) → Says p body → reply_body p ≡ some body
  unfolding reply_body
  Says-reply_body p body (output text) = refl
  Says-reply_body p body (error text) = refl
  Says-reply_body p body (overdue t) = refl
  Says-reply_body p body (reason text) = refl

  -- The context goes whether or not the sender accepts the reply.
  taken :
      (task_id : TaskId) (s : State sender) (r : Result (Unit {0}) ReplyError × W)
      → (after_send sender task_id (s.0) (replied r)).1 ≡ (take task_id (s.0), r.1)
  taken task_id s (ok u, w) = refl
  taken task_id s (err e, w) = refl

  ending_told :
      (task_id : TaskId) (e : TaskEvent) (es : List TaskEvent) (body : Text) (s : State sender)
      (o : Option ReplyContext)
      → get task_id (s.0) ≡ o
      → e.task_id ≡ task_id
      → Says e.payload body
      → Replied task_id (e ∷ es) s ((with_context sender e s o).1)
  unfolding send_task_terminal_reply
  ending_told task_id e es body s none found same says = unregistered found refl
  ending_told task_id e es body s (some context) found same says =
      once context e es body found refl says (
        rw (Says-reply_body e.payload body says) (
          taken e.task_id s (sender.send_reply context body (s.1))
          ∙ ap (λ t. (take t (s.0), (sender.send_reply context body (s.1)).1)) same))

  module _ (task_id : TaskId) (base : List TaskEvent) (s : State sender) where
    -- Nothing is sent before the task is done.
    abbrev Stands : Phase → List TaskEvent → Type 0
    Stands (ready n a) es = consume_all es s ≡ consume_all base s
    Stands (sent n a) es = consume_all es s ≡ consume_all base s
    Stands (started n a) es = consume_all es s ≡ consume_all base s
    Stands done es = Replied task_id es (consume_all base s) (consume_all es s)

    still_none :
        (p : Phase) (n : ℕ) (es : List TaskEvent)
        → Next p n
        → Stands p es
        → consume_all es s ≡ consume_all base s
    still_none p n es (ready_next m a) h = h
    still_none p n es (sent_next m a) h = h
    still_none p n es (started_next m a) h = h

    passed :
        (e : TaskEvent) (es : List TaskEvent)
        → reply_body e.payload ≡ none
        → consume_all es s ≡ consume_all base s
        → consume_all (e ∷ es) s ≡ consume_all base s
    unfolding consume
    passed e es quiet h =
        silent e (consume_all es s) (get e.task_id ((consume_all es s).0)) quiet ∙ h

    ended :
        (e : TaskEvent) (es : List TaskEvent) (body : Text)
        → e.task_id ≡ task_id
        → Says e.payload body
        → consume_all es s ≡ consume_all base s
        → Stands done (e ∷ es)
    unfolding consume
    ended e es body same says h =
        let before = consume_all base s in
        subst
          (λ x. Replied task_id (e ∷ es) before ((with_context sender e x (get e.task_id (x.0))).1))
          (sym h)
          (ending_told task_id e es body before (get e.task_id (before.0))
            (ap (λ t. get t (before.0)) (sym same)) same says)

    Ends-Says :
        (n : ℕ) (e : TaskEvent) (es : List TaskEvent)
        → Ends task_id n e
        → consume_all es s ≡ consume_all base s
        → Stands done (e ∷ es)
    Ends-Says n e es (as_failed text i) h =
        ended e es text i.of_task (rw i.with_payload (error text)) h
    Ends-Says n e es (as_timed_out t i) h =
        ended e es (codes "The task timed out.") i.of_task (rw i.with_payload (overdue t)) h
    Ends-Says n e es (as_cancelled text i) h =
        ended e es text i.of_task (rw i.with_payload (reason text)) h

    told : (es : List TaskEvent) (p : Phase) → Trace task_id base es p → Stands p es
    unfolding reply_body
    told es p (begin es' p' same first) = rw (same, first) refl
    told es p (dispatch d e t i) = passed e _ (rw i.with_payload refl) (told _ _ t)
    told es p (run started_at e t i) = passed e _ (rw i.with_payload refl) (told _ _ t)
    told es p (refused t) = told _ _ t
    told es p (broken t) = told _ _ t
    told es p (finish {es = older} {p = p'} {n = n} e t next ends) =
        Ends-Says n e older ends (still_none p' n older next (told older p' t))
    told es p (complete text e t i) =
        ended e _ text i.of_task (rw i.with_payload (output text)) (told _ _ t)

  -- When the consumer has been given the events of a task that has run to its end, and the task had a
  -- context after those of `base`, before it was taken up, then from there on exactly one reply was
  -- sent: to that context, with the output, the error or the reason of the last event. It is not tried
  -- again when the sender fails, and the context is gone. For a task without a context nothing is sent
  -- and nothing changes.
  pub replies-Trace :
      (task_id : TaskId) (base es : List TaskEvent) (s : State sender)
      → Trace task_id base es done
      → Replied task_id es (consume_all base s) (consume_all es s)
  replies-Trace task_id base es s t = told task_id base s es done t
