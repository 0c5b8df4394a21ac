-- ===== src/Bus/Fanout/Delivery.antt =====
-- Which consumers of src/bus/fanout.rs see which events, and in which order.
use guigu_agent_bridge.Prelude.{
  ℕ, zero, suc, ◌<◌, ◌≡◌, refl, Option, none, some, List, [], ◌∷◌, ◌++◌, length, arith,
}
use guigu_agent_bridge.Models.Event.{TaskEvent}
use guigu_agent_bridge.Bus.Fanout.{EventConsumer, EventBroadcaster, deliver_to, broadcast}

-- The channel gives these events, then it is closed.
pub data Gives {C : Type 0} (recv : C → Option TaskEvent × C) : C → List TaskEvent → Type 0 where
  ends : {c c' : C} → recv c ≡ (none, c') → Gives recv c []
  next :
      {c c' : C} {event : TaskEvent} {events : List TaskEvent}
      → recv c ≡ (some event, c')
      → Gives recv c' events
      → Gives recv c (event ∷ events)

module _ {W : Type 0} where
  -- Every event to every consumer, event by event.
  abbrev pub with_event : TaskEvent → List (EventConsumer W) → List (EventConsumer W × TaskEvent)
  with_event event [] = []
  with_event event (consume ∷ rest) = (consume, event) ∷ with_event event rest

  abbrev pub deliveries :
      List (EventConsumer W) → List TaskEvent → List (EventConsumer W × TaskEvent)
  deliveries consumers [] = []
  deliveries consumers (event ∷ events) = with_event event consumers ++ deliveries consumers events

  -- What a sequence of deliveries makes of the outside, each delivery's result forgotten.
  abbrev pub made : List (EventConsumer W × TaskEvent) → W → W
  made [] w = w
  made ((consume, event) ∷ rest) w = made rest (consume event w).1

  made-append :
      (xs ys : List (EventConsumer W × TaskEvent)) (w : W) → made (xs ++ ys) w ≡ made ys (made xs w)
  made-append [] ys w = refl
  made-append ((consume, event) ∷ xs) ys w = made-append xs ys (consume event w).1

  made-with_event :
      (event : TaskEvent) (consumers : List (EventConsumer W)) (w : W)
      → made (with_event event consumers) w ≡ deliver_to consumers event w
  unfolding deliver_to
  made-with_event event [] w = refl
  made-with_event event (consume ∷ rest) w = made-with_event event rest (consume event w).1

  made-deliveries :
      (consumers : List (EventConsumer W)) (event : TaskEvent) (events : List TaskEvent) (w : W)
      → made (deliveries consumers (event ∷ events)) w
        ≡ made (deliveries consumers events) (deliver_to consumers event w)
  made-deliveries consumers event events w =
      rw⁻¹ (made-with_event event consumers w)
        (made-append (with_event event consumers) (deliveries consumers events) w)

-- When the channel gives some events and then closes, and the fuel is more than their number, the
-- broadcaster returns, and it has delivered every event to every consumer: events in their order, and
-- each event to the consumers in theirs, whatever any consumer answered.
pub broadcast-deliveries :
    {C W : Type 0} (b : EventBroadcaster C W) (fuel : ℕ) (c : C) (events : List TaskEvent) (w : W)
    → Gives b.recv c events
    → length events < fuel
    → broadcast fuel b c w ≡ some (made (deliveries b.consumers events) w)
unfolding broadcast
broadcast-deliveries b zero c events w gives enough = absurd (omega arith)
broadcast-deliveries b (suc fuel) c [] w (ends e) enough = rw e refl
broadcast-deliveries b (suc fuel) c (event ∷ events) w (next {c' = c'} e gives) enough =
    rw (e, made-deliveries b.consumers event events w)
      (broadcast-deliveries b fuel c' events (deliver_to b.consumers event w) gives (omega arith))
