-- ===== src/Matrix/Router/Examples.antt =====
-- A router with one agent, a bus that accepts every task, and a durable admission that keeps its
-- winners in a map.
use guigu_agent_bridge.Prelude.{
  ◌≡◌, refl, ap, ◌∙◌, Option, none, some, true, [], ◌∷◌, Result, ok, err, arith, Bool-cases, inl,
  inr, is_ok,
}
use guigu_agent_bridge.Prelude.Texts.{
  Text, codes, TextMap, get, put, get-put, text_eq, text_eq_refl, text_eq_iff,
}
use guigu_agent_bridge.Prelude.Maps.{lookup}
use guigu_agent_bridge.Models.Task.{AgentTask, TaskId}
use guigu_agent_bridge.Models.Agent.{TransportType, EndpointAddress}
use guigu_agent_bridge.Bus.Error.{BusError}
use guigu_agent_bridge.Bus.Registry.{RegisteredEndpoint, resolve_agent_id, validate_target}
use guigu_agent_bridge.Matrix.Dedup.{has, contains}
use guigu_agent_bridge.Matrix.Dedup.Window.{IsAgreed, distinct}
use guigu_agent_bridge.Matrix.Permission.{permits}
use guigu_agent_bridge.Matrix.Words.{
  space_size, last_space_size, trim_by, reversed_onto, trim, split_once, strip_prefix,
}
use guigu_agent_bridge.Matrix.Event.{InboundMatrixEvent}
use guigu_agent_bridge.Matrix.Router.{
  AdmissionContext, RouteError, duplicate, Outside, Router, Rules, Origin, select_target,
  derive_matrix_user_id, admissible, route_event_with_monitor,
}
use guigu_agent_bridge.Matrix.Router.Routed.{Routed, route_event_with_monitor-Routed}
use guigu_agent_bridge.Matrix.Router.Replay.{route_all, route_event-again}
use guigu_agent_bridge.Matrix.Router.Durable.{
  DurableMatrixAdmission, IsDurable, route_event_durable, route_all_durable,
  route_event_durable-again, Repeated, Agrees,
}

abbrev Store : Type 0
Store = TextMap AgentTask

abbrev outside : Outside Store
outside = record {
  parse_user = some;
  new_v5 = λ namespace bytes. 9;
  namespace_url = 0;
  generate = λ w. (7, w);
  submit_with_context = λ task context w. (ok tt, put context.external_event_id task w);
}

abbrev coder : RegisteredEndpoint
coder = record {
  id = 5;
  agent_id = codes "coder";
  transport = TransportType.acp;
  enabled = true;
  address = some (EndpointAddress.acp (codes "run") []);
}

abbrev rules : Rules
rules = record {
  policy = record {
    aliases = (codes "dev", codes "coder") ∷ [];
    room_targets = [];
    direct_targets = [];
  };
  permissions = record { users = (codes "@a:x", none) ∷ [] };
  registry = record { by_agent_id = (codes "coder", coder) ∷ []; by_id = (5, codes "coder") ∷ [] };
}

abbrev event_from : Text → Text → InboundMatrixEvent
event_from event_id body = record {
  event_id = event_id;
  room_id = codes "!r:x";
  thread_root = none;
  sender = codes "@a:x";
  body = body;
}

abbrev hello : InboundMatrixEvent
hello = event_from (codes "$1") (codes " @dev : hello")

abbrev other : InboundMatrixEvent
other = event_from (codes "$2") (codes "@dev: more")

abbrev origin : Origin
origin = record { conversation_id = 3; monitor_room = none; monitor_generation = 0 }

abbrev fresh : Router Store
fresh = record { dedup = record { capacity = 2; order = []; seen = [] }; outer = [] }

fresh-IsAgreed : IsAgreed fresh.dedup
fresh-IsAgreed = record {
  some_room = omega arith;
  same = λ k. refl;
  apart = unfold distinct in refl;
  small = omega arith;
}

route_event_with_monitor-Routed_example :
    Routed outside rules origin hello fresh
      (route_event_with_monitor outside rules origin hello fresh)
route_event_with_monitor-Routed_example =
    route_event_with_monitor-Routed outside rules origin hello fresh

abbrev text_of : Result AgentTask RouteError → Text
text_of (ok task) = task.text
text_of (err e) = []

hello_test : text_of ((route_event_with_monitor outside rules origin hello fresh).0) ≡ codes "hello"
unfolding route_event_with_monitor admissible derive_matrix_user_id select_target contains has
    split_once strip_prefix trim reversed_onto trim_by space_size last_space_size get text_eq
    resolve_agent_id validate_target lookup permits
hello_test = refl

hello_accepted : is_ok ((route_event_with_monitor outside rules origin hello fresh).0) ≡ true
unfolding route_event_with_monitor admissible derive_matrix_user_id select_target contains has
    split_once strip_prefix trim reversed_onto trim_by space_size last_space_size get text_eq
    resolve_agent_id validate_target lookup permits
hello_accepted = refl

route_event-again_example :
    route_event_with_monitor outside rules origin hello (
      route_all outside rules
        ((origin, other) ∷ [])
        (route_event_with_monitor outside rules origin hello fresh).1)
    ≡ (
      err duplicate,
      route_all outside rules
          ((origin, other) ∷ [])
          (route_event_with_monitor outside rules origin hello fresh).1,
    )
route_event-again_example =
    route_event-again outside rules origin origin hello ((origin, other) ∷ []) fresh fresh-IsAgreed
      hello_accepted (omega arith)

-- The first task of an event stays its winner.
abbrev admit_with :
    AgentTask → AdmissionContext → Store → Option AgentTask → Result AgentTask BusError × Store
admit_with task context w none = (ok task, put context.external_event_id task w)
admit_with task context w (some won) = (ok won, w)

abbrev admission : DurableMatrixAdmission Store
admission = record {
  winner = λ event_id w. (ok (get event_id w), w);
  admit = λ task context w. admit_with task context w (get context.external_event_id w);
}

abbrev task_in : Result AgentTask BusError → Option AgentTask
task_in (ok task) = some task
task_in (err e) = none

abbrev found_in : Result (Option AgentTask) BusError → Option AgentTask
found_in (ok found) = found
found_in (err e) = none

-- The receipt of the event names the task.
abbrev Receipt : Text → TaskId → Store → Type 0
Receipt event_id won w = (task : AgentTask) × (get event_id w ≡ some task) × (task.task_id ≡ won)

Receipt-Agrees :
    (event_id : Text) (won : TaskId) (w : Store)
    → Receipt event_id won w
    → Agrees outside admission won (ok (get event_id w))
Receipt-Agrees event_id won w (task, held, same) = rw held same

admitted_wins :
    (task won : AgentTask) (context : AdmissionContext) (w : Store) (held : Option AgentTask)
    → get context.external_event_id w ≡ held
    → (admit_with task context w held).0 ≡ ok won
    → get context.external_event_id ((admit_with task context w held).1) ≡ some won
admitted_wins task won context w none e h =
    get-put context.external_event_id context.external_event_id task w
    ∙ rw (text_eq_refl context.external_event_id) (ap task_in h)
admitted_wins task won context w (some old) e h = e ∙ ap task_in h

admit_keeps :
    (event_id : Text) (task won : AgentTask) (context : AdmissionContext) (w : Store)
    (held : Option AgentTask)
    → get context.external_event_id w ≡ held
    → get event_id w ≡ some won
    → get event_id ((admit_with task context w held).1) ≡ some won
admit_keeps event_id task won context w none e h =
    elim (Bool-cases (text_eq context.external_event_id event_id)) [
      | inl x ↦
          absurd
            (cc (e, h, ap (λ i. get i w) ((text_eq_iff context.external_event_id event_id).0 x)))
      | inr x ↦ get-put context.external_event_id event_id task w ∙ rw x h
    ]
admit_keeps event_id task won context w (some old) e h = h

admission-IsDurable : IsDurable outside admission Receipt
admission-IsDurable = record {
  admitted_holds = λ task won context w e h.
      (won, admitted_wins task won context w (get context.external_event_id w) refl h, refl);
  winner_holds = λ event_id won w h. (won, ap found_in h, refl);
  winner_agrees = Receipt-Agrees;
  winner_keeps = λ asked event_id won w h. h;
  admit_keeps = λ event_id task won context w h. (
    h.0,
    admit_keeps event_id task (h.0) context w (get context.external_event_id w) refl h.1,
    h.2,
  );
  generate_keeps = λ event_id won w h. h;
}

abbrev no_rules : Rules
no_rules = record {
  policy = record { aliases = []; room_targets = []; direct_targets = [] };
  permissions = record { users = [] };
  registry = record { by_agent_id = []; by_id = [] };
}

abbrev hello_task : AgentTask
hello_task = record {
  task_id = 7;
  root_task_id = 7;
  parent_task_id = none;
  from_agent = 9;
  to_agent = 5;
  conversation_id = 3;
  reply_to = none;
  text = codes "hello";
  priority = record { value = 5 };
  depth = 0;
  hops = 0;
  deadline = none;
  version = 0;
}

hello_durable : (route_event_durable outside admission rules origin hello fresh).0 ≡ ok hello_task
unfolding route_event_durable admissible derive_matrix_user_id select_target contains has split_once
    strip_prefix trim reversed_onto trim_by space_size last_space_size get text_eq resolve_agent_id
    validate_target lookup permits
hello_durable = refl

-- The rules are gone when the event comes again.
route_event_durable-again_example :
    Repeated outside admission hello 7
      (route_all_durable outside admission
        ((rules, origin, other) ∷ [])
        (route_event_durable outside admission rules origin hello fresh).1)
      (route_event_durable outside admission no_rules origin hello (
        route_all_durable outside admission
          ((rules, origin, other) ∷ [])
          (route_event_durable outside admission rules origin hello fresh).1))
route_event_durable-again_example =
    route_event_durable-again outside admission Receipt admission-IsDurable rules no_rules origin
      origin hello ((rules, origin, other) ∷ []) fresh hello_task hello_durable
