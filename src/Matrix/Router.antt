-- ===== src/Matrix/Router.antt =====
-- The routing of Matrix events, src/matrix/router.rs, and the sender's identity, src/matrix/identity.rs.
-- The bus, the identifiers, UUIDv5 and the SDK's parser of user IDs are functions on the outside.
pub mod Routed
pub mod Replay
pub mod Durable
pub mod Examples
use guigu_agent_bridge.Prelude.{
  ℕ, Option, none, some, Bool, true, false, ◌||◌, List, [], ◌∷◌, Result, ok, err, if◌then◌else◌,
  map_err, ok_or, ensure, ◌>>=◌,
}
use guigu_agent_bridge.Prelude.Texts.{Text, codes, TextMap, get, put}
use guigu_agent_bridge.Models.Task.{AgentTask, EndpointId, TaskId, ConversationId, default_priority}
use guigu_agent_bridge.Bus.Error.{
  BusError, unknown_target, target_disabled, address_unavailable, queue_full, event_buffer_full,
  task_channel_closed, event_sink_closed,
}
use guigu_agent_bridge.Bus.Registry.{
  RegisteredEndpoint, EndpointRegistry, resolve_agent_id, validate_target,
}
use guigu_agent_bridge.Matrix.{MatrixError, protocol}
use guigu_agent_bridge.Matrix.Event.{InboundMatrixEvent}
use guigu_agent_bridge.Matrix.Dedup.{Key, EventDedup, contains, mark}
use guigu_agent_bridge.Matrix.Permission.{PermissionPolicy, permits}
use guigu_agent_bridge.Matrix.Words.{trim, trim_start, split_once, strip_prefix}

-- Where a task came from (src/bus/mod.rs).
pub record AdmissionContext : Type 0 where
  pub transport : Text
  pub external_event_id : Text
  pub room_id : Text
  pub thread_root : Option Text
  pub reply_event_id : Text
  pub monitor_room : Option Text
  pub monitor_generation : ℕ  -- u64

pub record RoutePolicy : Type 0 where
  pub aliases : TextMap Text
  pub room_targets : TextMap Text
  pub direct_targets : TextMap (List Text)

abbrev pub new : RoutePolicy
new = record { aliases = []; room_targets = []; direct_targets = [] }

unfoldable pub alias : Text → Text → RoutePolicy → RoutePolicy
alias name agent_id p = record p { aliases = put name agent_id p.aliases }

unfoldable pub bind_room : Text → Text → RoutePolicy → RoutePolicy
bind_room room_id agent_id p = record p { room_targets = put room_id agent_id p.room_targets }

unfoldable pub direct_room : Text → List Text → RoutePolicy → RoutePolicy
direct_room room_id candidates p = record p {
  direct_targets = put room_id candidates p.direct_targets;
}

pub data RouteError : Type 0 where
  no_route ambiguous forbidden duplicate target bus identity workflow : RouteError

-- The name after `@` before the first colon, and what follows the colon.
abbrev pub mention : Text → Option (Text × Text)
mention body = elim (split_once b':' body) [
  | none ↦ none
  | some split ↦ elim (strip_prefix b'@' (trim (split.0))) [
    | none ↦ none
    | some name ↦ some (name, split.1)
  ]
]

abbrev pub select_alias : RoutePolicy → Text × Text → Result (Text × Text) RouteError
select_alias p (name, text) = elim (get name p.aliases) [
  | none ↦ err no_route
  | some agent_id ↦ ok (agent_id, trim_start text)
]

abbrev pub select_direct : Text → Option (List Text) → Result (Text × Text) RouteError
select_direct body none = err no_route
select_direct body (some []) = err no_route
select_direct body (some (agent_id ∷ [])) = ok (agent_id, body)
select_direct body (some (agent_id ∷ other ∷ more)) = err ambiguous

abbrev pub select_room :
    InboundMatrixEvent → RoutePolicy → Option Text → Result (Text × Text) RouteError
select_room event p (some agent_id) = ok (agent_id, event.body)
select_room event p none = select_direct event.body (get event.room_id p.direct_targets)

unfoldable pub select_target : InboundMatrixEvent → RoutePolicy → Result (Text × Text) RouteError
select_target event p = elim (mention event.body) [
  | none ↦ select_room event p (get event.room_id p.room_targets)
  | some named ↦ select_alias p named
]

-- What the router calls, and the parts it is given.
pub record Outside (W : Type 0) : Type 0 where
  pub parse_user : Text → Option Text
  pub new_v5 : ℕ → Text → ℕ
  pub namespace_url : ℕ
  pub generate : W → TaskId × W
  pub submit_with_context : AgentTask → AdmissionContext → W → Result (Unit {0}) BusError × W

-- The state of a router.
pub record Router (W : Type 0) : Type 0 where
  pub dedup : EventDedup
  pub outer : W

-- The rules that stay as they are.
pub record Rules : Type 0 where
  pub policy : RoutePolicy
  pub permissions : PermissionPolicy
  pub registry : EndpointRegistry

abbrev pub key_of : InboundMatrixEvent → Key
key_of event = (event.room_id, event.event_id)

-- The fields that the router does not take from the event or the rules.
pub record Origin : Type 0 where
  pub conversation_id : ConversationId
  pub monitor_room : Option Text
  pub monitor_generation : ℕ  -- u64

abbrev pub task_for : Origin → TaskId → EndpointId → EndpointId → Text → AgentTask
task_for origin task_id sender found text = record {
  task_id = task_id;
  root_task_id = task_id;
  parent_task_id = none;
  from_agent = sender;
  to_agent = found;
  conversation_id = origin.conversation_id;
  reply_to = none;
  text = text;
  priority = default_priority;
  depth = 0;
  hops = 0;
  deadline = none;
  version = 0;
}

abbrev pub context_for : Origin → InboundMatrixEvent → AdmissionContext
context_for origin event = record {
  transport = codes "matrix";
  external_event_id = event.event_id;
  room_id = event.room_id;
  thread_root = event.thread_root;
  reply_event_id = event.event_id;
  monitor_room = origin.monitor_room;
  monitor_generation = origin.monitor_generation;
}

-- After these errors of the bus the task was accepted all the same.
abbrev pub was_accepted : BusError → Bool
was_accepted (unknown_target e) = false
was_accepted (target_disabled e) = false
was_accepted (address_unavailable e) = false
was_accepted queue_full = false
was_accepted event_buffer_full = true
was_accepted task_channel_closed = false
was_accepted event_sink_closed = true

-- The sender, the target and the text of a task.
abbrev pub Request : Type 0
Request = EndpointId × EndpointId × Text

module _ {W : Type 0} (outside : Outside W) (rules : Rules) where
  unfoldable pub derive_matrix_user_id : Text → Result EndpointId MatrixError
  derive_matrix_user_id user_id = do
    canonical ← ok_or (protocol (codes "invalid Matrix user ID")) (outside.parse_user user_id)
    let namespace = outside.new_v5 outside.namespace_url (codes "guigu-agent-bridge/matrix-user/v1")
    ok (outside.new_v5 namespace canonical)

  -- The checks between the test for a duplicate and the new task.
  unfoldable pub admissible : InboundMatrixEvent → Result Request RouteError
  admissible event = do
    selected ← select_target event rules.policy
    found ← ok_or target (resolve_agent_id rules.registry (selected.0))
    endpoint ← map_err (λ e. target) (validate_target rules.registry found)
    sender ← map_err (λ e. identity) (derive_matrix_user_id event.sender)
    allowed ← ensure (permits rules.permissions event.sender found) forbidden
    ok (sender, found, selected.1)

  abbrev pub marked : InboundMatrixEvent → Router W → Router W
  marked event s = record s { dedup = (mark (key_of event) s.dedup).1 }

  abbrev pub answered :
      InboundMatrixEvent
      → AgentTask
      → Router W
      → Result (Unit {0}) BusError × W
      → Result AgentTask RouteError × Router W
  answered event task s (ok u, outer) = (ok task, marked event (record s { outer = outer }))
  answered event task s (err e, outer) = (
    err bus,
    if was_accepted e
        then marked event (record s { outer = outer })
        else record s { outer = outer },
  )

  abbrev pub submitted :
      Origin
      → InboundMatrixEvent
      → Router W
      → Result Request RouteError
      → Result AgentTask RouteError × Router W
  submitted origin event s (err e) = (err e, s)
  submitted origin event s (ok (sender, found, text)) =
      let (task_id, outer) = outside.generate s.outer in
      let task = task_for origin task_id sender found text in
      answered event task s (outside.submit_with_context task (context_for origin event) outer)

  unfoldable pub route_event_with_monitor :
      Origin → InboundMatrixEvent → Router W → Result AgentTask RouteError × Router W
  route_event_with_monitor origin event s =
      if contains (key_of event) s.dedup
      then (err duplicate, s)
      else submitted origin event s (admissible event)

  unfoldable pub route_event :
      ConversationId → InboundMatrixEvent → Router W → Result AgentTask RouteError × Router W
  route_event conversation_id event s =
      route_event_with_monitor
        (record { conversation_id = conversation_id; monitor_room = none; monitor_generation = 0 })
        event s
