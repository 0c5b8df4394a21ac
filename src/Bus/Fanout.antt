-- ===== src/Bus/Fanout.antt =====
-- `EventBroadcaster` of src/bus/fanout.rs. The event channel and the consumers are functions on the
-- outside; the loop takes fuel, since the sink may never close.
pub mod Delivery
pub mod Examples
use guigu_agent_bridge.Prelude.{ℕ, zero, suc, Option, none, some, List, [], ◌∷◌, length, Result}
use guigu_agent_bridge.Prelude.Texts.{Text}
use guigu_agent_bridge.Models.Event.{TaskEvent}

pub data ConsumerError : Type 0 where
  failed : Text → ConsumerError

abbrev pub EventConsumer : Type 0 → Type 0
EventConsumer W = TaskEvent → W → Result (Unit {0}) ConsumerError × W

-- `recv` answers none when the channel is closed and empty.
pub record EventBroadcaster (C W : Type 0) : Type 0 where
  pub recv : C → Option TaskEvent × C
  pub consumers : List (EventConsumer W)

-- The inner loop: a consumer's error is logged, and the next consumer is served.
unfoldable pub deliver_to : {W : Type 0} → List (EventConsumer W) → TaskEvent → W → W
deliver_to [] event w = w
deliver_to (consume ∷ rest) event w = deliver_to rest event (consume event w).1

module _ {C W : Type 0} where
  unfoldable pub consumer_count : EventBroadcaster C W → ℕ
  consumer_count b = length b.consumers

  abbrev pub on_event :
      (C → W → Option W) → List (EventConsumer W) → Option TaskEvent × C → W → Option W
  on_event next consumers (none, events) w = some w
  on_event next consumers (some event, events) w = next events (deliver_to consumers event w)

  unfoldable pub broadcast : ℕ → EventBroadcaster C W → C → W → Option W
  broadcast zero b events w = none
  broadcast (suc fuel) b events w = on_event (broadcast fuel b) b.consumers (b.recv events) w
