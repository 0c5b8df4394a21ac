-- ===== src/Bus/Fanout/Examples.antt =====
-- A broadcast to a consumer that fails and one that counts.
use guigu_agent_bridge.Prelude.{
  ℕ, suc, ◌≡◌, refl, Option, none, some, List, [], ◌∷◌, ok, err, arith,
}
use guigu_agent_bridge.Prelude.Texts.{codes}
use guigu_agent_bridge.Models.Task.{TaskStatus}
use guigu_agent_bridge.Models.Event.{TaskEvent, TaskEventPayload}
use guigu_agent_bridge.Bus.Fanout.{EventBroadcaster, ConsumerError, broadcast}
use guigu_agent_bridge.Bus.Fanout.Delivery.{ends, next, deliveries, made, broadcast-deliveries}

abbrev recv_list : List TaskEvent → Option TaskEvent × List TaskEvent
recv_list [] = (none, [])
recv_list (e ∷ es) = (some e, es)

abbrev two_consumers : EventBroadcaster (List TaskEvent) ℕ
two_consumers = record {
  recv = recv_list;
  consumers =
      (λ event w. (err (ConsumerError.failed (codes "offline")), w))
      ∷ (λ event w. (ok tt, suc w))
      ∷ [];
}

abbrev one_event : List TaskEvent
one_event =
    record {
      id = 1;
      task_id = 7;
      seq = 1;
      status = TaskStatus.queued;
      timestamp = 0;
      payload = TaskEventPayload.queued;
    }
    ∷ []

broadcast-deliveries_example :
    broadcast 2 two_consumers one_event 0
    ≡ some (made (deliveries two_consumers.consumers one_event) 0)
broadcast-deliveries_example =
    broadcast-deliveries two_consumers 2 one_event one_event 0 (next refl (ends {c' = []} refl))
      (omega arith)
