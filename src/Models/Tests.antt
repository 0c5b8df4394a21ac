-- ===== src/Models/Tests.antt =====
-- Priorities at their bounds, and a task for the tests of the other modules.
use guigu_agent_bridge.Prelude.{ℕ, ◌≡◌, refl, ok, err, none, some}
use guigu_agent_bridge.Prelude.Texts.{codes}
use guigu_agent_bridge.Models.Task.{new, priority_out_of_range, AgentTask}

new_at_bound : new 10 ≡ ok (record { value = 10 })
unfolding new
new_at_bound = refl

new_out_of_range : new 11 ≡ err (priority_out_of_range 11)
unfolding new
new_out_of_range = refl

abbrev pub task_for : ℕ → ℕ → AgentTask
task_for to_agent priority = record {
  task_id = 7;
  root_task_id = 7;
  parent_task_id = none;
  from_agent = 1;
  to_agent = to_agent;
  conversation_id = 2;
  reply_to = none;
  text = codes "review";
  priority = record { value = priority };
  depth = 1;
  hops = 2;
  deadline = some 1000;
  version = 0;
}
