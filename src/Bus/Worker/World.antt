-- ===== src/Bus/Worker/World.antt =====
-- What the worker of src/bus/worker.rs talks to: dispatchers, the task lifecycle, the event sink, the
-- clock, and the other threads that use the cancellation table. Everything outside is a state `W`
-- and functions on it; their answers arrive, and what they are is left open.
use guigu_agent_bridge.Prelude.{
  ℕ, Option, none, some, Bool, true, false, List, [], ◌∷◌, ◌++◌, if◌then◌else◌, Result,
}
use guigu_agent_bridge.Prelude.Texts.{Text, codes}
use guigu_agent_bridge.Models.Task.{AgentTask, TaskId, DeliveryId, DateTime}
use guigu_agent_bridge.Models.Event.{TaskEvent}
use guigu_agent_bridge.Models.Agent.{TransportType, acp, matrix, http, a2a}
use guigu_agent_bridge.Bus.Error.{BusError}
use guigu_agent_bridge.Bus.Registry.{RegisteredEndpoint, EndpointRegistry}
use guigu_agent_bridge.Bus.Control.{Cancellation}
use guigu_agent_bridge.Bus.Control.Calls.{Call}
use guigu_agent_bridge.Bus.Policy.{LoopLimits, Chrono}
use guigu_agent_bridge.Bus.Policy.Backoff.{RetryPolicy}

pub record QueueLeaseContext : Type 0 where
  pub resource_key : Text
  pub runtime_owner : Text
  pub owner_fence : ℕ
  pub expires_at : Text

pub record DispatchRequest : Type 0 where
  pub task : AgentTask
  pub target : RegisteredEndpoint
  pub delivery_id : DeliveryId
  pub attempt : ℕ  -- u32
  pub queue_lease : Option QueueLeaseContext

pub data DispatchOutcome : Type 0 where
  completed : Text → DispatchOutcome
  failed : Text → DispatchOutcome

pub data DispatchError : Type 0 where
  not_accepted : Text → DispatchError
  execution_failed : Text → DispatchError
  unsupported_prepared acceptance_unknown recovery_needed : DispatchError

-- The messages that `thiserror` renders.
unfoldable pub error_text : DispatchError → Text
error_text (not_accepted reason) = codes "delivery was not accepted: " ++ reason
error_text (execution_failed reason) = codes "execution failed after acceptance: " ++ reason
error_text unsupported_prepared = codes "prepared execution is unsupported"
error_text acceptance_unknown = codes "execution acceptance is unknown"
error_text recovery_needed = codes "execution requires recovery"

pub data FinalizeResult : Type 0 where
  committed already_terminal stale fenced recovery_needed : FinalizeResult

-- What comes back for a finalize command: the channel refuses it, its answer is dropped, or answered.
pub data Finalized : Type 0 where
  unsent unanswered : Finalized
  answered : FinalizeResult → Finalized

pub record FinalizationCapability : Type 0 where
  pub task_id : TaskId
  pub command : Option ℕ

pub record PreparedExecution : Type 0 where
  pub outcome : DispatchOutcome
  pub capability : FinalizationCapability

pub data LifecycleResult : Type 0 where
  committed replay stale : LifecycleResult

-- `TaskDispatcher`, over the outside.
pub record TaskDispatcher (W : Type 0) : Type 0 where
  pub supports_prepared : Bool
  pub deliver : DispatchRequest → W → Result (Unit {0}) DispatchError × W
  pub execute : DispatchRequest → W → Result DispatchOutcome DispatchError × W
  pub execute_prepared : DispatchRequest → W → Result PreparedExecution DispatchError × W
  pub cancel_prepared : DispatchRequest → Text → W → Result FinalizationCapability DispatchError × W
  pub finalize_delivery_failure :
      DispatchRequest → TaskEvent → W → Result (Unit {0}) DispatchError × W

-- `TaskLifecycle`, without the release of leases, which the worker does not call.
pub record TaskLifecycle (W : Type 0) : Type 0 where
  pub transition : TaskEvent → W → Result LifecycleResult DispatchError × W
  pub claim_queue : AgentTask → W → Result (Option QueueLeaseContext) DispatchError × W
  pub mark_queue_send_started :
      AgentTask → QueueLeaseContext → W → Result (Unit {0}) DispatchError × W
  pub renew_queue_lease : AgentTask → QueueLeaseContext → W → Result (Unit {0}) DispatchError × W

-- `DispatcherRegistry`: one dispatcher to a transport.
abbrev pub same_transport : TransportType → TransportType → Bool
same_transport acp acp = true
same_transport matrix matrix = true
same_transport http http = true
same_transport a2a a2a = true
same_transport _ _ = false

abbrev pub DispatcherRegistry : Type 0 → Type 0
DispatcherRegistry W = List (TransportType × TaskDispatcher W)

module _ {W : Type 0} where
  unfoldable pub with_dispatcher :
      DispatcherRegistry W → TransportType → TaskDispatcher W → DispatcherRegistry W
  with_dispatcher [] transport d = (transport, d) ∷ []
  with_dispatcher ((t, old) ∷ r) transport d =
      if same_transport t transport
      then (transport, d) ∷ r
      else (t, old) ∷ with_dispatcher r transport d

  unfoldable pub get_dispatcher : DispatcherRegistry W → TransportType → Option (TaskDispatcher W)
  get_dispatcher [] transport = none
  get_dispatcher ((t, d) ∷ r) transport =
      if same_transport t transport then some d else get_dispatcher r transport

-- Which of the futures of a `select!` is the first.
pub data First : Type 0 where
  stage cancellation deadline : First

-- The rest of the outside. `interfere` is what other threads do to the cancellation table before the
-- worker next locks it, `generate` makes a UUID, `show_id` displays one.
pub record Outside (W : Type 0) : Type 0 where
  pub interfere : W → List Call × W
  pub now : W → DateTime × W
  pub generate : W → ℕ × W
  pub emit : TaskEvent → W → Result (Unit {0}) BusError × W
  pub finalize : FinalizationCapability → TaskEvent → W → Finalized × W
  pub first : W → First × W
  pub sleep_until : DateTime → W → W
  pub show_id : ℕ → Text
  pub show_transport : TransportType → Text
  pub chrono : Chrono

-- `WorkerConfig` and the rest of `Worker` that a task's run reads.
pub record Worker (W : Type 0) : Type 0 where
  pub registry : EndpointRegistry
  pub dispatchers : DispatcherRegistry W
  pub limits : LoopLimits
  pub retry : RetryPolicy
  pub cancellation : Bool  -- is a cancellation table configured
  pub timer : Bool  -- is a timer configured
  pub lifecycle : Option (TaskLifecycle W)
  pub outside : Outside W

-- The state of a run: the cancellation table, the events that the sink has accepted (the newest
-- first), and the outside.
pub record World (W : Type 0) : Type 0 where
  pub table : Cancellation
  pub recorded : List TaskEvent
  pub outer : W
