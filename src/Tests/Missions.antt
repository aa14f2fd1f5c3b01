-- ===== src/Tests/Missions.antt =====
-- Transitions and the rules at the boundary of a tick.
use colony_agents.Prelude.{arith, codes, false, some, ◌≡◌, ◌↔◌, refl}
use colony_agents.Prelude.Table.{get}
use colony_agents.World.{Mission}
use colony_agents.Mission.Lifecycle.{
  stopped, paused_idle, paused_clarification, pause_for_clarification, from_value, transition,
}
use colony_agents.Mission.Lifecycle.Graph.{Reach, IsSettled, Reach-iff_IsSettled}
use colony_agents.Mission.Service.{apply, ok, current_of}
use colony_agents.Mission.Service.Writes.{IsRowOf, apply-IsRowOf}
use colony_agents.Tests.Samples.{sample, runner}

Reach-iff_IsSettled_example : Reach stopped paused_idle ↔ IsSettled paused_idle
Reach-iff_IsSettled_example = Reach-iff_IsSettled paused_idle

pauses :
    (apply 1 pause_for_clarification (some (codes "ask")) false sample).0 ≡ ok paused_clarification
unfolding apply get current_of transition from_value
pauses = refl

apply-IsRowOf_example :
    let w' = (apply 1 pause_for_clarification (some (codes "ask")) false sample).1 in
    (row : Mission) × (get 1 w'.missions ≡ some row)
    × IsRowOf paused_clarification (some (codes "ask")) row
    × (get 2 w'.missions ≡ get 2 sample.missions)
unfolding get
apply-IsRowOf_example =
    apply-IsRowOf 1 pause_for_clarification (some (codes "ask")) sample runner refl false
      paused_clarification 2 pauses (omega arith)
