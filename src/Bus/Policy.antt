-- ===== src/Bus/Policy.antt =====
-- The worker's limits and the instant after a delay, src/bus/worker.rs. What `chrono` does to
-- durations and instants is a parameter.
pub mod Backoff
pub mod Delays
pub mod Examples
use guigu_agent_bridge.Prelude.{
  ℕ, ◌+◌, ◌-◌, ◌*◌, ◌^◌, min, max, Option, none, some, Bool, true, false, ◌&&◌, not, List, [], ◌∷◌,
  ◌++◌, if◌then◌else◌, ltb,
}
use guigu_agent_bridge.Prelude.Texts.{Text, codes, show_nat}
use Backoff.{Duration}
use guigu_agent_bridge.Models.Task.{AgentTask, TaskId, DateTime}

abbrev pub default_max_depth : ℕ
default_max_depth = 8

abbrev pub default_max_hops : ℕ
default_max_hops = 16

pub record LoopLimits : Type 0 where
  pub max_depth : ℕ  -- u32
  pub max_hops : ℕ  -- u32

unfoldable pub default_limits : LoopLimits
default_limits = record { max_depth = default_max_depth; max_hops = default_max_hops }

-- `bridge.max_task_depth` and `bridge.max_task_hops` of the configuration.
unfoldable pub from_bridge : ℕ → ℕ → LoopLimits
from_bridge max_task_depth max_task_hops = record {
  max_depth = max_task_depth;
  max_hops = max_task_hops;
}

-- `hit.join(", ")` for the limits that were passed.
hits : Bool → Bool → Text
hits true true = codes "depth" ++ codes ", " ++ codes "hops"
hits true false = codes "depth"
hits false true = codes "hops"
hits false false = []

show_parent : (ℕ → Text) → Option TaskId → Text
show_parent show_id none = codes "none"
show_parent show_id (some parent) = show_id parent

unfoldable pub violation_text : (ℕ → Text) → LoopLimits → AgentTask → Bool → Bool → Text
unfolding hits show_parent show_nat
violation_text show_id limits task depth_over hops_over =
    codes "cycle limit exceeded (hit: "
    ++ (hits depth_over hops_over
        ++ (codes "): task_id="
            ++ (show_id task.task_id
                ++ (codes " root_task_id="
                    ++ (show_id task.root_task_id
                        ++ (codes " parent_task_id="
                            ++ (show_parent show_id task.parent_task_id
                                ++ (codes " from_agent="
                                    ++ (show_id task.from_agent
                                        ++ (codes " to_agent="
                                            ++ (show_id task.to_agent
                                                ++ (codes " depth="
                                                    ++ (show_nat task.depth
                                                        ++ (codes " (max "
                                                            ++ (show_nat limits.max_depth
                                                            ++ (codes ") hops="
                                                            ++ (show_nat task.hops
                                                            ++ (codes " (max "
                                                            ++ (show_nat limits.max_hops
                                                            ++ codes ")")))))))))))))))))))

unfoldable pub violation : (ℕ → Text) → LoopLimits → AgentTask → Option Text
violation show_id limits task =
    let depth_over = ltb limits.max_depth task.depth in
    let hops_over = ltb limits.max_hops task.hops in
    if not depth_over && not hops_over
    then none
    else some (violation_text show_id limits task depth_over hops_over)

-- `chrono`: the duration that stands for a standard one, where there is one, and the instant later by
-- it, where there is one.
pub record Chrono : Type 0 where
  pub from_std : Duration → Option Duration
  pub max_delta : Duration
  pub checked_add_signed : DateTime → Duration → Option DateTime
  pub max_utc : DateTime

abbrev or_default : Option ℕ → ℕ → ℕ
or_default none d = d
or_default (some n) d = n

unfoldable pub deadline_after : Chrono → DateTime → Duration → DateTime
deadline_after chrono now delay =
    or_default (chrono.checked_add_signed now (or_default (chrono.from_std delay) chrono.max_delta))
      chrono.max_utc
