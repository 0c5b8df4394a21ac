-- ===== src/Matrix/Router/Durable.antt =====
-- `route_event_durable` of src/matrix/router.rs, which asks for the durable winner of an event first.
use mathlib.Core.Path.{subst}
use guigu_agent_bridge.Prelude.{
  ◌≡◌, refl, ap, Option, none, some, List, [], ◌∷◌, Result, ok, err, if◌then◌else◌, Bool-cases, inl,
  inr, arith, sym,
}
use guigu_agent_bridge.Prelude.Texts.{Text, codes}
use guigu_agent_bridge.Models.Task.{AgentTask, TaskId}
use guigu_agent_bridge.Bus.Error.{BusError}
use guigu_agent_bridge.Matrix.Dedup.{contains}
use guigu_agent_bridge.Matrix.Event.{InboundMatrixEvent}
use guigu_agent_bridge.Matrix.Router.{
  AdmissionContext, RouteError, bus, duplicate, Outside, Router, Rules, Request, Origin, key_of,
  task_for, context_for, admissible, marked,
}

pub record DurableMatrixAdmission (W : Type 0) : Type 0 where
  pub winner : Text → W → Result (Option AgentTask) BusError × W
  pub admit : AgentTask → AdmissionContext → W → Result AgentTask BusError × W

module _ {W : Type 0} (outside : Outside W) (admission : DurableMatrixAdmission W) where
  -- The rules may differ from one event to the next.
  module _ (rules : Rules) where
    abbrev pub admitted :
        InboundMatrixEvent
        → Router W
        → Result AgentTask BusError × W
        → Result AgentTask RouteError × Router W
    admitted event s (ok task, outer) =
        (ok task, marked outside rules event (record s { outer = outer }))
    admitted event s (err e, outer) = (err bus, record s { outer = outer })

    abbrev pub requested :
        Origin
        → InboundMatrixEvent
        → Router W
        → Result Request RouteError
        → Result AgentTask RouteError × Router W
    requested origin event s (err e) = (err e, s)
    requested origin event s (ok (sender, found, text)) =
        let (task_id, outer) = outside.generate s.outer in
        admitted event s (
          admission.admit (task_for origin task_id sender found text) (context_for origin event)
            outer)

    abbrev pub without_winner :
        Origin → InboundMatrixEvent → Router W → Result AgentTask RouteError × Router W
    without_winner origin event s =
        if contains (key_of event) s.dedup
        then (err duplicate, s)
        else requested origin event s (admissible outside rules event)

    abbrev pub with_winner :
        Origin
        → InboundMatrixEvent
        → Router W
        → Result (Option AgentTask) BusError × W
        → Result AgentTask RouteError × Router W
    with_winner origin event s (err e, outer) = (err bus, record s { outer = outer })
    with_winner origin event s (ok (some task), outer) =
        (ok task, marked outside rules event (record s { outer = outer }))
    with_winner origin event s (ok none, outer) =
        without_winner origin event (record s { outer = outer })

    unfoldable pub route_event_durable :
        Origin → InboundMatrixEvent → Router W → Result AgentTask RouteError × Router W
    route_event_durable origin event s =
        with_winner origin event s (admission.winner event.event_id s.outer)

  -- An answer that does not contradict the winner: a task with this identifier, or an error.
  abbrev pub Agrees : TaskId → Result (Option AgentTask) BusError → Type 0
  Agrees won (ok none) = ⊥
  Agrees won (ok (some task)) = task.task_id ≡ won
  Agrees won (err e) = Unit {0}

  -- What the durable boundary promises, for the receipts that it keeps: `Holds event_id won w` says
  -- that the event's receipt names the task `won`. A task it admits or answers with is named by the
  -- receipt; no operation changes a receipt; and where there is a receipt, the answer is its task or
  -- an error. An operation may always fail.
  pub record IsDurable (Holds : Text → TaskId → W → Type 0) : Type 0 where
    pub admitted_holds :
        (task won : AgentTask) (context : AdmissionContext) (w : W)
        → context.transport ≡ codes "matrix"
        → (admission.admit task context w).0 ≡ ok won
        → Holds context.external_event_id won.task_id ((admission.admit task context w).1)
    pub winner_holds :
        (event_id : Text) (won : AgentTask) (w : W)
        → (admission.winner event_id w).0 ≡ ok (some won)
        → Holds event_id won.task_id ((admission.winner event_id w).1)
    pub winner_agrees :
        (event_id : Text) (won : TaskId) (w : W)
        → Holds event_id won w
        → Agrees won ((admission.winner event_id w).0)
    pub winner_keeps :
        (asked event_id : Text) (won : TaskId) (w : W)
        → Holds event_id won w
        → Holds event_id won ((admission.winner asked w).1)
    pub admit_keeps :
        (event_id : Text) (task : AgentTask) (won : TaskId) (context : AdmissionContext) (w : W)
        → Holds event_id won w
        → Holds event_id won ((admission.admit task context w).1)
    pub generate_keeps :
        (event_id : Text) (won : TaskId) (w : W)
        → Holds event_id won w
        → Holds event_id won ((outside.generate w).1)

  abbrev pub Event : Type 0
  Event = Rules × Origin × InboundMatrixEvent

  abbrev pub route_all_durable : List Event → Router W → Router W
  route_all_durable [] s = s
  route_all_durable ((rules, origin, event) ∷ events) s =
      route_all_durable events (route_event_durable rules origin event s).1

  module _ (Holds : Text → TaskId → W → Type 0) (durable : IsDurable Holds) (event_id : Text)
      (won : TaskId) where
    admitted_kept :
        (rules : Rules) (event : InboundMatrixEvent) (s : Router W)
        (answer : Result AgentTask BusError × W)
        → Holds event_id won (answer.1)
        → Holds event_id won (admitted rules event s answer).1.outer
    admitted_kept rules event s (ok task, outer) h = h
    admitted_kept rules event s (err e, outer) h = h

    requested_kept :
        (rules : Rules) (origin : Origin) (event : InboundMatrixEvent) (s : Router W)
        (request : Result Request RouteError)
        → Holds event_id won s.outer
        → Holds event_id won (requested rules origin event s request).1.outer
    requested_kept rules origin event s (err e) h = h
    requested_kept rules origin event s (ok (sender, found, text)) h =
        let task = task_for origin ((outside.generate s.outer).0) sender found text in
        admitted_kept rules event s
          (admission.admit task (context_for origin event) ((outside.generate s.outer).1))
          (durable.admit_keeps event_id task won (context_for origin event)
            ((outside.generate s.outer).1) (durable.generate_keeps event_id won s.outer h))

    with_winner_kept :
        (rules : Rules) (origin : Origin) (event : InboundMatrixEvent) (s : Router W)
        (answer : Result (Option AgentTask) BusError × W)
        → Holds event_id won (answer.1)
        → Holds event_id won (with_winner rules origin event s answer).1.outer
    with_winner_kept rules origin event s (err e, outer) h = h
    with_winner_kept rules origin event s (ok (some task), outer) h = h
    with_winner_kept rules origin event s (ok none, outer) h =
        let t = record s { outer = outer } in
        elim (Bool-cases (contains (key_of event) s.dedup)) [
          | inl e ↦ rw e h
          | inr e ↦ rw e (requested_kept rules origin event t (admissible outside rules event) h)
        ]

    route_all_durable_kept :
        (events : List Event) (s : Router W)
        → Holds event_id won s.outer
        → Holds event_id won (route_all_durable events s).outer
    unfolding route_event_durable
    route_all_durable_kept [] s h = h
    route_all_durable_kept ((rules, origin, event) ∷ events) s h =
        route_all_durable_kept events (route_event_durable rules origin event s).1 (
          with_winner_kept rules origin event s (admission.winner event.event_id s.outer)
            (durable.winner_keeps event.event_id event_id won s.outer h))

  -- A result's task is named by the receipt of its event.
  abbrev Won : (Text → TaskId → W → Type 0) → Text → Result AgentTask RouteError × Router W → Type 0
  Won Holds event_id (ok task, s) = Holds event_id task.task_id s.outer
  Won Holds event_id (err e, s) = Unit {0}

  -- An event that comes again gives a task with the same identifier; or the winner cannot be read, and
  -- then the result is a bus error, nothing is admitted, and the table of seen events stays.
  pub data Repeated (event : InboundMatrixEvent) (won : TaskId) (s : Router W)
      (out : Result AgentTask RouteError × Router W) : Type 0 where
    same_task : (task : AgentTask) → task.task_id ≡ won → out.0 ≡ ok task → Repeated event won s out
    unavailable :
        (e : BusError)
        → (admission.winner event.event_id s.outer).0 ≡ err e
        → out ≡ (err bus, record s { outer = (admission.winner event.event_id s.outer).1 })
        → Repeated event won s out

  module _ (Holds : Text → TaskId → W → Type 0) (durable : IsDurable Holds) (rules : Rules)
      (origin : Origin) (event : InboundMatrixEvent) where
    abbrev WonHere : Result AgentTask RouteError × Router W → Type 0
    WonHere out = Won Holds event.event_id out

    admitted-Won :
        (s : Router W) (task : AgentTask) (w : W) (answer : Result AgentTask BusError × W)
        → admission.admit task (context_for origin event) w ≡ answer
        → WonHere (admitted rules event s answer)
    admitted-Won s task w (ok won, outer) e =
        subst (λ x. Holds event.event_id won.task_id x) (ap (λ a. a.1) e)
          (durable.admitted_holds task won (context_for origin event) w refl (ap (λ a. a.0) e))
    admitted-Won s task w (err x, outer) e = tt

    requested-Won :
        (s : Router W) (request : Result Request RouteError)
        → WonHere (requested rules origin event s request)
    requested-Won s (err e) = tt
    requested-Won s (ok (sender, found, text)) =
        let task = task_for origin ((outside.generate s.outer).0) sender found text in
        let w = (outside.generate s.outer).1 in
        admitted-Won s task w (admission.admit task (context_for origin event) w) refl

    with_winner-Won :
        (s : Router W) (answer : Result (Option AgentTask) BusError × W)
        → admission.winner event.event_id s.outer ≡ answer
        → WonHere (with_winner rules origin event s answer)
    with_winner-Won s (err x, outer) e = tt
    with_winner-Won s (ok (some task), outer) e =
        subst (λ x. Holds event.event_id task.task_id x) (ap (λ a. a.1) e)
          (durable.winner_holds event.event_id task s.outer (ap (λ a. a.0) e))
    with_winner-Won s (ok none, outer) e = elim (Bool-cases (contains (key_of event) s.dedup)) [
      | inl h ↦ rw h tt
      | inr h ↦ rw h (requested-Won (record s { outer = outer }) (admissible outside rules event))
    ]

    route_event_durable-Won : (s : Router W) → WonHere (route_event_durable rules origin event s)
    unfolding route_event_durable
    route_event_durable-Won s = with_winner-Won s (admission.winner event.event_id s.outer) refl

    Won-Holds :
        (out : Result AgentTask RouteError × Router W) (task : AgentTask)
        → WonHere out
        → out.0 ≡ ok task
        → Holds event.event_id task.task_id (out.1.outer)
    Won-Holds (ok won, s) task h e =
        subst (λ t. Holds event.event_id t.task_id s.outer)
          (ap (λ r. elim r [ ok a ↦ a | err x ↦ won ]) e) h
    Won-Holds (err x, s) task h e = absurd (ground (arith, e))

    with_winner-Repeated :
        (s : Router W) (won : TaskId) (answer : Result (Option AgentTask) BusError × W)
        → admission.winner event.event_id s.outer ≡ answer
        → Agrees won (answer.0)
        → Repeated event won s (with_winner rules origin event s answer)
    with_winner-Repeated s won (err x, outer) e h =
        unavailable x (ap (λ a. a.0) e)
          (ap (λ w. (err bus, record s { outer = w })) (sym (ap (λ a. a.1) e)))
    with_winner-Repeated s won (ok none, outer) e h = absurd h
    with_winner-Repeated s won (ok (some task), outer) e h = same_task task h refl

    route_event_durable-Repeated :
        (s : Router W) (won : TaskId)
        → Holds event.event_id won s.outer
        → Repeated event won s (route_event_durable rules origin event s)
    unfolding route_event_durable
    route_event_durable-Repeated s won h =
        with_winner-Repeated s won (admission.winner event.event_id s.outer) refl
          (durable.winner_agrees event.event_id won s.outer h)

  -- With a durable admission that keeps its receipts, an event that was routed to a task and comes
  -- again, after any other events, and whatever the routes, permissions, endpoints and the table of
  -- seen events have become, gives a task with the same identifier; or, when the winner cannot be
  -- read, a bus error with nothing admitted.
  pub route_event_durable-again :
      (Holds : Text → TaskId → W → Type 0)
      → IsDurable Holds
      → (rules new_rules : Rules) (origin again : Origin) (event : InboundMatrixEvent)
        (events : List Event) (s : Router W) (task : AgentTask)
      → (route_event_durable rules origin event s).0 ≡ ok task
      → Repeated event task.task_id
          (route_all_durable events (route_event_durable rules origin event s).1)
          (route_event_durable new_rules again event
            (route_all_durable events (route_event_durable rules origin event s).1))
  route_event_durable-again Holds durable rules new_rules origin again event events s task h =
      let out = route_event_durable rules origin event s in
      route_event_durable-Repeated Holds durable new_rules again event
        (route_all_durable events (out.1)) task.task_id
        (route_all_durable_kept Holds durable event.event_id task.task_id events (out.1) (
          Won-Holds Holds durable rules origin event out task
            (route_event_durable-Won Holds durable rules origin event s) h))
