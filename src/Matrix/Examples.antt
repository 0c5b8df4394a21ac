-- ===== src/Matrix/Examples.antt =====
-- Runs of the table of seen events, of the permissions and of the replies.
use guigu_agent_bridge.Prelude.{
  ℕ, ◌↔◌, ◌≤◌, ◌≡◌, ◌+◌, refl, ok, err, some, none, false, List, [], ◌∷◌, length, arith, true,
}
use guigu_agent_bridge.Prelude.Texts.{text_eq, codes, get, put}
use guigu_agent_bridge.Models.Task.{TaskStatus}
use guigu_agent_bridge.Models.Event.{TaskEvent, TaskEventPayload}
use guigu_agent_bridge.Bus.Worker.Trace.{Trace, begin, finish, ready, ready_next, as_failed, done}
use guigu_agent_bridge.Matrix.Reply.{
  ReplyContext, reply_error, MatrixSender, send_task_terminal_reply, reply_body,
}
use guigu_agent_bridge.Matrix.Reply.Consumer.{State, consume}
use guigu_agent_bridge.Prelude.Maps.{lookup, remove}
use guigu_agent_bridge.Matrix.Reply.Once.{Replied, consume_all, replies-Trace}
use guigu_agent_bridge.Matrix.Dedup.{
  Key, EventDedup, key_eq, has, without, new, contains, evict, mark,
}
use guigu_agent_bridge.Matrix.Dedup.Replay.{marks, remember_all, contains-marks}
use guigu_agent_bridge.Matrix.Permission.{
  Grant, new as no_permissions, grant_all, permits, allow_user, allow_user_for, IsGranted,
  permits-grant_all,
}

abbrev key : ℕ → Key
key n = (codes "!room", n ∷ [])

abbrev four_keys : List Key
four_keys = key 1 ∷ key 2 ∷ key 1 ∷ key 3 ∷ []

contains-marks_example :
    (d : EventDedup) × (new 2 ≡ ok d)
    × (contains (key 1) (marks four_keys d) ≡ has (key 1) (remember_all 2 four_keys []))
    × (length (marks four_keys d).order ≤ 2)
contains-marks_example = contains-marks 2 four_keys (key 1) (omega arith)

-- The first key is forgotten although it was marked again.
abbrev small_table : EventDedup
small_table = record { capacity = 2; order = []; seen = [] }

forgotten_test : contains (key 1) (marks four_keys small_table) ≡ false
unfolding contains mark evict has without key_eq text_eq
forgotten_test = refl

abbrev grants : List Grant
grants = (codes "@a:x", none) ∷ (codes "@b:x", some 1) ∷ (codes "@a:x", some 2) ∷ []

permits-grant_all_example :
    (permits (grant_all grants no_permissions) (codes "@a:x") 1 ≡ true)
    ↔ IsGranted (codes "@a:x") 1 grants
permits-grant_all_example = permits-grant_all grants (codes "@a:x") 1

narrowed_test : permits (grant_all grants no_permissions) (codes "@a:x") 1 ≡ false
unfolding permits allow_user allow_user_for put get text_eq
narrowed_test = refl

-- A task that fails before it is dispatched.
abbrev no_agent : TaskEvent
no_agent = record {
  id = 1;
  task_id = 4;
  seq = 2;
  status = TaskStatus.failed;
  timestamp = 0;
  payload = TaskEventPayload.failed (codes "no agent");
}

no_agent-Trace : Trace 4 [] (no_agent ∷ []) done
no_agent-Trace = finish no_agent (begin [] (ready 2 1) refl refl) (ready_next 2 1) (
    as_failed (codes "no agent")
      (record { of_task = refl; at_seq = refl; with_status = refl; with_payload = refl }))

abbrev context : ReplyContext
context = record { room_id = codes "!room"; thread_root = none; event_id = codes "$1" }

-- A sender that is offline, and counts what it is asked for.
abbrev offline : MatrixSender ℕ
offline = record { send_reply = λ context body n. (err reply_error, n + 1) }

abbrev registered : State offline
registered = (record { capacity = 4096; contexts = (4, context) ∷ []; order = 4 ∷ [] }, 0)

replies-Trace_example :
    Replied offline 4 (no_agent ∷ []) registered (consume_all offline (no_agent ∷ []) registered)
replies-Trace_example = replies-Trace offline 4 [] (no_agent ∷ []) registered no_agent-Trace

-- The reply is tried once, and the context is gone.
tried_test :
    consume_all offline (no_agent ∷ no_agent ∷ []) registered
    ≡ (record { capacity = 4096; contexts = []; order = 4 ∷ [] }, 1)
unfolding consume lookup remove send_task_terminal_reply reply_body
tried_test = refl
