-- ===== src/Matrix/Router/Routed.antt =====
-- What `route_event_with_monitor` of src/matrix/router.rs has done on each of its results.
use guigu_agent_bridge.Prelude.{
  ◌≡◌, refl, Option, none, some, Bool, true, false, Result, ok, err, Bool-cases, inl, inr,
  Result-cases, map_err, ok_or, ensure, ◌>>=◌, if◌then◌else◌,
}
use guigu_agent_bridge.Prelude.Texts.{Text}
use guigu_agent_bridge.Models.Task.{AgentTask, EndpointId}
use guigu_agent_bridge.Bus.Error.{BusError}
use guigu_agent_bridge.Bus.Registry.{RegisteredEndpoint, resolve_agent_id, validate_target}
use guigu_agent_bridge.Matrix.{MatrixError}
use guigu_agent_bridge.Matrix.Dedup.{contains, mark}
use guigu_agent_bridge.Matrix.Permission.{permits}
use guigu_agent_bridge.Matrix.Event.{InboundMatrixEvent}
use guigu_agent_bridge.Matrix.Router.{
  RouteError, bus, target, identity, forbidden, duplicate, select_target, Outside, Router, Rules,
  Request, Origin, key_of, task_for, context_for, was_accepted, derive_matrix_user_id, admissible,
  answered, submitted, route_event_with_monitor,
}

module _ {W : Type 0} (outside : Outside W) (rules : Rules) where
  -- The rules send the event to an agent that the registry accepts as a target, and permit this to
  -- the sender, whose identity is known.
  pub record IsPermitted (event : InboundMatrixEvent) (sender found : EndpointId) (text : Text)
      : Type 0 where
    pub agent_id : Text
    pub endpoint : RegisteredEndpoint
    pub selected : select_target event rules.policy ≡ ok (agent_id, text)
    pub resolved : resolve_agent_id rules.registry agent_id ≡ some found
    pub valid : validate_target rules.registry found ≡ ok endpoint
    pub known : derive_matrix_user_id outside rules event.sender ≡ ok sender
    pub permitted : permits rules.permissions event.sender found ≡ true

  -- A request has been permitted.
  abbrev Justified : InboundMatrixEvent → Result Request RouteError → Type 0
  Justified event (ok (sender, found, text)) = IsPermitted event sender found text
  Justified event (err e) = Unit {0}

  module _ (event : InboundMatrixEvent) (agent_id text : Text) where
    abbrev Selected : Type 0
    Selected = select_target event rules.policy ≡ ok (agent_id, text)

    known-Justified :
        (sender found : EndpointId) (endpoint : RegisteredEndpoint) (allowed : Bool)
        → Selected
        → resolve_agent_id rules.registry agent_id ≡ some found
        → validate_target rules.registry found ≡ ok endpoint
        → derive_matrix_user_id outside rules event.sender ≡ ok sender
        → permits rules.permissions event.sender found ≡ allowed
        → Justified event (ensure allowed forbidden >>= λ u. ok (sender, found, text))
    known-Justified sender found endpoint true s r v k p = record {
      agent_id = agent_id;
      endpoint = endpoint;
      selected = s;
      resolved = r;
      valid = v;
      known = k;
      permitted = p;
    }
    known-Justified sender found endpoint false s r v k p = tt

    valid-Justified :
        (found : EndpointId) (endpoint : RegisteredEndpoint)
        (derived : Result EndpointId MatrixError)
        → Selected
        → resolve_agent_id rules.registry agent_id ≡ some found
        → validate_target rules.registry found ≡ ok endpoint
        → derive_matrix_user_id outside rules event.sender ≡ derived
        → Justified event (
            map_err (λ e. identity) derived >>= λ sender.
            ensure (permits rules.permissions event.sender found) forbidden >>= λ u.
            ok (sender, found, text))
    valid-Justified found endpoint (ok sender) s r v k =
        known-Justified sender found endpoint (permits rules.permissions event.sender found) s r v k
          refl
    valid-Justified found endpoint (err e) s r v k = tt

    resolved-Justified :
        (found : EndpointId) (validated : Result RegisteredEndpoint BusError)
        → Selected
        → resolve_agent_id rules.registry agent_id ≡ some found
        → validate_target rules.registry found ≡ validated
        → Justified event (
            map_err (λ e. target) validated >>= λ endpoint.
            map_err (λ e. identity) (derive_matrix_user_id outside rules event.sender) >>= λ sender.
            ensure (permits rules.permissions event.sender found) forbidden >>= λ u.
            ok (sender, found, text))
    resolved-Justified found (ok endpoint) s r v =
        valid-Justified found endpoint (derive_matrix_user_id outside rules event.sender) s r v refl
    resolved-Justified found (err e) s r v = tt

    selected-Justified :
        (resolved : Option EndpointId)
        → Selected
        → resolve_agent_id rules.registry agent_id ≡ resolved
        → Justified event (
            ok_or target resolved >>= λ found.
            map_err (λ e. target) (validate_target rules.registry found) >>= λ endpoint.
            map_err (λ e. identity) (derive_matrix_user_id outside rules event.sender) >>= λ sender.
            ensure (permits rules.permissions event.sender found) forbidden >>= λ u.
            ok (sender, found, text))
    selected-Justified none s r = tt
    selected-Justified (some found) s r =
        resolved-Justified found (validate_target rules.registry found) s r refl

  admissible-Justified :
      (event : InboundMatrixEvent) → Justified event (admissible outside rules event)
  unfolding admissible
  admissible-Justified event = elim (Result-cases (select_target event rules.policy)) [
    | inl (selected, e) ↦ rw e (
        selected-Justified event (selected.0) (selected.1)
          (resolve_agent_id rules.registry (selected.0)) e refl)
    | inr (error, e) ↦ rw e tt
  ]

  -- The bus was given the event's task.
  pub record Submitted (origin : Origin) (event : InboundMatrixEvent) (s : Router W) : Type 0 where
    pub sender : EndpointId
    pub found : EndpointId
    pub text : Text
    pub unseen : contains (key_of event) s.dedup ≡ false
    pub permitted : IsPermitted event sender found text

  abbrev pub task_of :
      (origin : Origin) (event : InboundMatrixEvent) (s : Router W)
      → Submitted origin event s
      → AgentTask
  task_of origin event s sub =
      task_for origin ((outside.generate s.outer).0) sub.sender sub.found sub.text

  abbrev pub answer_of :
      (origin : Origin) (event : InboundMatrixEvent) (s : Router W)
      → Submitted origin event s
      → Result (Unit {0}) BusError × W
  answer_of origin event s sub =
      outside.submit_with_context (task_of origin event s sub) (context_for origin event)
        ((outside.generate s.outer).1)

  -- The three ways that the routing of an event ends.
  pub data Routed (origin : Origin) (event : InboundMatrixEvent) (s : Router W)
      : Result AgentTask RouteError × Router W → Type 0 where
    refused : (e : RouteError) → Routed origin event s (err e, s)
    accepted :
        (sub : Submitted origin event s) (outer : W)
        → answer_of origin event s sub ≡ (ok tt, outer)
        → Routed origin event s (
          ok (task_of origin event s sub),
          record { dedup = (mark (key_of event) s.dedup).1; outer = outer },
        )
    failed :
        (sub : Submitted origin event s) (e : BusError) (outer : W)
        → answer_of origin event s sub ≡ (err e, outer)
        → Routed origin event s (
          err bus,
          record {
            dedup = if was_accepted e then (mark (key_of event) s.dedup).1 else s.dedup;
            outer = outer;
          },
        )

  answered-Routed :
      (origin : Origin) (event : InboundMatrixEvent) (s : Router W) (sub : Submitted origin event s)
      (answer : Result (Unit {0}) BusError × W)
      → answer_of origin event s sub ≡ answer
      → Routed origin event s (answered outside rules event (task_of origin event s sub) s answer)
  answered-Routed origin event s sub (ok u, outer) e = accepted sub outer e
  answered-Routed origin event s sub (err x, outer) e = elim (Bool-cases (was_accepted x)) [
    | inl w ↦ let r = failed sub x outer e in rw w (rw w at r)
    | inr w ↦ let r = failed sub x outer e in rw w (rw w at r)
  ]

  submitted-Routed :
      (origin : Origin) (event : InboundMatrixEvent) (s : Router W)
      (request : Result Request RouteError)
      → contains (key_of event) s.dedup ≡ false
      → Justified event request
      → Routed origin event s (submitted outside rules origin event s request)
  submitted-Routed origin event s (err e) unseen j = refused e
  submitted-Routed origin event s (ok (sender, found, text)) unseen j =
      let sub : Submitted origin event s = record {
        sender = sender;
        found = found;
        text = text;
        unseen = unseen;
        permitted = j;
      } in
      answered-Routed origin event s sub (answer_of origin event s sub) refl

  -- Routing an event ends in one of three ways. It is refused, and then nothing has changed. Or the
  -- bus is given one task, which the event's text, target and sender determine: only if the event was
  -- not seen before, the rules send it to a target that the registry accepts, and they permit this to
  -- the sender. When the bus accepts it, the result is that task and the event is seen. When the bus
  -- fails, the result is a bus error, and the event is seen only if the bus had accepted the task.
  pub route_event_with_monitor-Routed :
      (origin : Origin) (event : InboundMatrixEvent) (s : Router W)
      → Routed origin event s (route_event_with_monitor outside rules origin event s)
  unfolding route_event_with_monitor
  route_event_with_monitor-Routed origin event s =
      elim (Bool-cases (contains (key_of event) s.dedup)) [
        | inl e ↦ rw e (refused duplicate)
        | inr e ↦ rw e (
            submitted-Routed origin event s (admissible outside rules event) e
              (admissible-Justified event))
      ]
