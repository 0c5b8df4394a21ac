-- ===== src/Bus/Policy/Examples.antt =====
-- Limits and delays at small numbers.
use guigu_agent_bridge.Prelude.{
  refl, [], ◌∷◌, Option, take, drop, ℕ, ◌*◌, ◌≤◌, ◌≡◌, none, some, min, ltb, if◌then◌else◌,
}
use guigu_agent_bridge.Prelude.Texts.{show_nat, Text, codes}
use guigu_agent_bridge.Models.Task.{AgentTask}
use mathlib.Core.List.{map}
use guigu_agent_bridge.Models.Tests.{task_for}
use guigu_agent_bridge.Bus.Policy.{LoopLimits, violation, violation_text}
use guigu_agent_bridge.Bus.Policy.Backoff.{exponential, delay_for, max_duration}
use guigu_agent_bridge.Bus.Policy.Delays.{exponential_delays}

abbrev tight : LoopLimits
tight = record { max_depth = 1; max_hops = 1 }

abbrev over_in : ℕ → ℕ → AgentTask
over_in depth hops = record (task_for 3 5) { depth = depth; hops = hops }

-- The characters after the prefix name the limits.
abbrev named : Option Text → Text
named none = []
named (some message) = take 6 (drop 27 message)

hits_test :
    map
      (λ task. named (violation show_nat tight task))
      (over_in 1 1 ∷ over_in 2 1 ∷ over_in 1 2 ∷ over_in 2 2 ∷ [])
    ≡ [] ∷ codes "depth)" ∷ codes "hops):" ∷ codes "depth," ∷ []
unfolding violation violation_text
hits_test = refl

exponential_delays_example :
    let delay = delay_for (exponential 100 1000) in
    let bounded = λ (d : ℕ). min (min d max_duration) 1000 in
    (delay 3 ≤ 1000)
    × (delay 3 ≤ max_duration)
    × (delay 3 ≤ delay 4)
    × (delay 1 ≡ bounded 100)
    × (delay 5 ≡ (if ltb 3 31 then bounded (2 * delay 4) else delay 4))
exponential_delays_example = exponential_delays 100 1000 3
