-- ===== src/Bus/Memory/Examples.antt =====
-- A submission to a bus with room.
use guigu_agent_bridge.Prelude.{ℕ, suc, [], ◌∷◌, ok}
use guigu_agent_bridge.Prelude.Texts.{codes}
use guigu_agent_bridge.Models.Task.{AgentTask}
use guigu_agent_bridge.Models.Tests.{task_for}
use guigu_agent_bridge.Bus.Registry.{from_config, derive_endpoint_id}
use guigu_agent_bridge.Bus.Registry.Examples.{checksum, coder}
use guigu_agent_bridge.Bus.Memory.{MemoryBus, BusState, submit}
use guigu_agent_bridge.Bus.Memory.Submission.{Submitted, submit-Submitted}

abbrev roomy_bus : MemoryBus ℕ
roomy_bus = record {
  registry = from_config checksum 0 ((codes "a", coder) ∷ []);
  try_send = λ task w. (ok tt, w);
  emit = λ event w. (ok tt, suc w);
  now = λ w. (w, w);
  generate = λ w. (w, suc w);
}

abbrev no_tasks : BusState ℕ
no_tasks = record { accepted = []; recorded = []; outer = 0 }

abbrev to_coder : AgentTask
to_coder = task_for (derive_endpoint_id checksum 0 (codes "a")) 5

submit-Submitted_example :
    Submitted roomy_bus to_coder no_tasks (submit roomy_bus to_coder no_tasks)
submit-Submitted_example = submit-Submitted roomy_bus to_coder no_tasks
