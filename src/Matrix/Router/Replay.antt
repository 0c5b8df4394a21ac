-- ===== src/Matrix/Router/Replay.antt =====
-- Events that come again, in src/matrix/router.rs.
use guigu_agent_bridge.Prelude.{
  ℕ, ◌≤◌, ◌<◌, ◌≡◌, ◌⊎◌, refl, ap, ◌∙◌, true, false, List, [], ◌∷◌, Result, err, arith, inl, inr,
  length, is_ok, Bool-cases,
}
use guigu_agent_bridge.Models.Task.{AgentTask}
use guigu_agent_bridge.Matrix.Dedup.{Key, EventDedup, contains, mark}
use guigu_agent_bridge.Matrix.Dedup.Window.{IsAgreed}
use guigu_agent_bridge.Matrix.Dedup.Replay.{marks, contains-mark}
use guigu_agent_bridge.Matrix.Event.{InboundMatrixEvent}
use guigu_agent_bridge.Matrix.Router.{
  RouteError, duplicate, Outside, Router, Rules, Origin, key_of, was_accepted,
  route_event_with_monitor,
}
use guigu_agent_bridge.Matrix.Router.Routed.{
  Routed, refused, accepted, failed, route_event_with_monitor-Routed,
}

module _ {W : Type 0} (outside : Outside W) (rules : Rules) where
  abbrev pub route_all : List (Origin × InboundMatrixEvent) → Router W → Router W
  route_all [] s = s
  route_all ((origin, event) ∷ events) s =
      route_all events (route_event_with_monitor outside rules origin event s).1

  -- After a success the event's key was new and is marked.
  pub record IsAdded (event : InboundMatrixEvent) (s t : Router W) : Type 0 where
    pub unseen : contains (key_of event) s.dedup ≡ false
    pub added : t.dedup ≡ (mark (key_of event) s.dedup).1

  Routed-IsAdded :
      (origin : Origin) (event : InboundMatrixEvent) (s : Router W)
      (out : Result AgentTask RouteError × Router W)
      → Routed outside rules origin event s out
      → is_ok (out.0) ≡ true
      → IsAdded event s (out.1)
  Routed-IsAdded origin event s out (refused e) h = absurd (ground arith)
  Routed-IsAdded origin event s out (accepted sub outer e) h = record {
    unseen = sub.unseen;
    added = refl;
  }
  Routed-IsAdded origin event s out (failed sub e outer x) h = absurd (ground arith)

  -- An event adds its own key at most.
  Routed-dedup :
      (origin : Origin) (event : InboundMatrixEvent) (s : Router W)
      (out : Result AgentTask RouteError × Router W)
      → Routed outside rules origin event s out
      → (out.1.dedup ≡ s.dedup) ⊎ (out.1.dedup ≡ (mark (key_of event) s.dedup).1)
  Routed-dedup origin event s out (refused e) = inl refl
  Routed-dedup origin event s out (accepted sub outer e) = inr refl
  Routed-dedup origin event s out (failed sub e outer x) = elim (Bool-cases (was_accepted e)) [
    | inl h ↦ rw h (inr refl)
    | inr h ↦ rw h (inl refl)
  ]

  pub record IsMarked (count : ℕ) (d e : EventDedup) : Type 0 where
    pub keys : List Key
    pub few : length keys ≤ count
    pub result : e ≡ marks keys d

  route_all-IsMarked :
      (events : List (Origin × InboundMatrixEvent)) (s : Router W)
      → IsMarked (length events) s.dedup (route_all events s).dedup
  route_all-IsMarked [] s = record { keys = []; few = omega arith; result = refl }
  route_all-IsMarked ((origin, event) ∷ events) s =
      let out = route_event_with_monitor outside rules origin event s in
      let rest = route_all-IsMarked events (out.1) in
      elim (Routed-dedup origin event s out
        (route_event_with_monitor-Routed outside rules origin event s)) [
          | inl e ↦ record {
            keys = rest.keys;
            few = omega (arith, rest.few);
            result = rest.result ∙ ap (marks rest.keys) e;
          }
          | inr e ↦ record {
            keys = key_of event ∷ rest.keys;
            few = omega (arith, rest.few);
            result = rest.result ∙ ap (marks rest.keys) e;
          }
        ]

  -- An event that was routed with success and comes again, from anywhere, after fewer other events
  -- than the capacity of the table, is a duplicate: the bus is given nothing and nothing changes. The
  -- table is one that a new table can become.
  pub route_event-again :
      (origin again : Origin) (event : InboundMatrixEvent)
      (events : List (Origin × InboundMatrixEvent)) (s : Router W)
      → IsAgreed s.dedup
      → is_ok ((route_event_with_monitor outside rules origin event s).0) ≡ true
      → length events < s.dedup.capacity
      → route_event_with_monitor outside rules again event
          (route_all events (route_event_with_monitor outside rules origin event s).1)
        ≡ (
          err duplicate,
          route_all events (route_event_with_monitor outside rules origin event s).1,
        )
  route_event-again origin again event events s agreed h few =
      let out = route_event_with_monitor outside rules origin event s in
      let first =
        Routed-IsAdded origin event s out
          (route_event_with_monitor-Routed outside rules origin event s) h in
      let later = route_all-IsMarked events (out.1) in
      let there : contains (key_of event) (route_all events (out.1)).dedup ≡ true =
        ap (contains (key_of event)) (later.result ∙ ap (marks later.keys) first.added)
        ∙ contains-mark (key_of event) later.keys s.dedup agreed first.unseen
            (omega (arith, later.few, few)) in
      seen_again again event (route_all events (out.1)) there
    where
      seen_again :
          (o : Origin) (e : InboundMatrixEvent) (t : Router W)
          → contains (key_of e) t.dedup ≡ true
          → route_event_with_monitor outside rules o e t ≡ (err duplicate, t)
      seen_again o e t there = unfold route_event_with_monitor in rw there refl
