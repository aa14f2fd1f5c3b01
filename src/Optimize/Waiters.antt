-- ===== src/Optimize/Waiters.antt =====
-- `resume_waiters_for_capability` of backend/app/services/worker_health_service.py: the missions that
-- stopped to wait for a worker run again.
use colony_agents.Prelude.{
  ℕ, ◌+◌, Text, codes, Bool, true, false, ◌&&◌, Option, none, some, List, [], ◌∷◌, ◌++◌, map,
  select, is_nil, str_eq, if◌then◌else◌,
}
use colony_agents.Prelude.Like.{like}
use colony_agents.Prelude.Table.{Table, get}
use colony_agents.World.{World, Mission, trigger_tick}
use colony_agents.Mission.Lifecycle.{resume}
use colony_agents.Mission.Service.{Result, ok, no_such_mission, illegal, apply}

-- WHERE lifecycle_status = 'paused_waiting_capability' AND paused_reason LIKE …
unfoldable pub waits_for : Text → Option Mission → Bool
waits_for capability none = false
waits_for capability (some m) =
    str_eq m.lifecycle_status "paused_waiting_capability" && elim m.paused_reason [
      | none ↦ false
      | some reason ↦ like (codes "worker_issue:" ++ (capability ++ codes ":%")) reason
    ]

unfoldable pub waiters : Text → Table Mission → List ℕ
waiters capability t =
    select (λ pid. waits_for capability (get pid t)) (map (λ (row : ℕ × Mission). row.0) t)

-- A mission that woke is counted, and a tick of it is spawned.
abbrev pub woken : ℕ → Result × World → ℕ × World
woken pid (ok l, w) = (1, record w { spawned = w.spawned ++ (trigger_tick pid ∷ []) })
woken pid (no_such_mission, w) = (0, w)
woken pid (illegal l a, w) = (0, w)

unfoldable pub wake : Text → List ℕ → World → ℕ × World
wake capability [] w = (0, w)
wake capability (pid ∷ pids) w =
    let (n, w1) =
      woken pid (apply pid resume (some (codes "worker_fixed:" ++ capability)) true w) in
    let (k, w2) = wake capability pids w1 in (n + k, w2)

unfoldable pub resume_waiters_for_capability : Text → World → ℕ × World
unfolding wake waiters
resume_waiters_for_capability capability w =
    if is_nil capability then (0, w) else wake capability (waiters capability w.missions) w
