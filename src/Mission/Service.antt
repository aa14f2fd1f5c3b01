-- ===== src/Mission/Service.antt =====
-- backend/app/domain/lifecycle_service.py: the one writer of a mission's lifecycle columns.
pub mod Writes
use colony_agents.Prelude.{
  ℕ, String, Text, Option, none, some, Bool, true, false, ◌&&◌, not, or_else, if◌then◌else◌,
}
use colony_agents.Prelude.Table.{get, put}
use colony_agents.World.{Mission, World, Event, lifecycle_changed, publish}
use colony_agents.Mission.Lifecycle.{
  Lifecycle, stopped, running, paused_waiting_capability, paused_clarification, paused_idle,
  stopping, error, LifecycleAction, start, stop, pause_for_capability, pause_for_clarification,
  pause_idle, resume, resolve_clarification, restart, exception, value, from_value, is_alive,
  Outcome, transition,
}

-- LifecycleAction(...).value
abbrev pub action_value : LifecycleAction → String
action_value start = "start"
action_value stop = "stop"
action_value pause_for_capability = "pause_for_capability"
action_value pause_for_clarification = "pause_for_clarification"
action_value pause_idle = "pause_idle"
action_value resume = "resume"
action_value resolve_clarification = "resolve_clarification"
action_value restart = "restart"
action_value exception = "exception"

-- `_force_target`
unfoldable pub force_target : LifecycleAction → Lifecycle
force_target stop = stopped
force_target start = running
force_target restart = running
force_target resume = running
force_target exception = error
force_target pause_for_capability = paused_waiting_capability
force_target pause_for_clarification = paused_clarification
force_target pause_idle = paused_idle
force_target resolve_clarification = running

-- What `LifecycleService.transition` returns or raises.
pub data Result : Type 0 where
  ok : Lifecycle → Result
  no_such_mission : Result
  illegal : Lifecycle → LifecycleAction → Result

-- `Lifecycle(current_raw)`, and STOPPED for a value that is none.
unfoldable pub current_of : Mission → Lifecycle
current_of m = or_else (from_value m.lifecycle_status) stopped

-- The reason is written only with the two human gates.
unfoldable pub reason_for : Lifecycle → Option Text → Option Text
reason_for paused_waiting_capability reason = reason
reason_for paused_clarification reason = reason
reason_for _ reason = none

abbrev is_stopping : Lifecycle → Bool
is_stopping stopping = true
is_stopping _ = false

abbrev dead_runtime : Lifecycle → String
dead_runtime stopped = "stopped"
dead_runtime error = "error"
dead_runtime target = value target

unfoldable pub runtime_for : Lifecycle → String
unfolding is_alive
runtime_for target =
    if is_alive target && not (is_stopping target) then "running" else dead_runtime target

unfoldable pub updated : Mission → Lifecycle → Option Text → Mission
unfolding reason_for runtime_for
updated m target reason = record m {
  lifecycle_status = value target;
  runtime_status = runtime_for target;
  paused_reason = reason_for target reason;
}

-- The write, the commit and the event of an accepted transition.
unfoldable pub write : ℕ → Mission → LifecycleAction → Option Text → Lifecycle → World → World
unfolding updated
write pid m action reason target w =
    publish pid
      (lifecycle_changed (value (current_of m)) (value target) (action_value action) reason)
      (record w { missions = put pid (updated m target reason) w.missions })

abbrev decide : LifecycleAction → Bool → Lifecycle → Outcome
decide action true current = Outcome.moved (force_target action)
decide action false current = transition current action

abbrev commit : ℕ → Mission → LifecycleAction → Option Text → World → Outcome → Result × World
commit pid m action reason w (Outcome.moved target) =
    (ok target, write pid m action reason target w)
commit pid m action reason w (Outcome.invalid_transition current a) = (illegal current a, w)

transition_row : ℕ → LifecycleAction → Option Text → Bool → Option Mission → World → Result × World
unfolding current_of
transition_row pid action reason force none w = (no_such_mission, w)
transition_row pid action reason force (some m) w =
    commit pid m action reason w (decide action force (current_of m))

-- `LifecycleService(db).transition(mission_id, action, reason=…, force=…)`
unfoldable pub apply : ℕ → LifecycleAction → Option Text → Bool → World → Result × World
unfolding transition_row
apply pid action reason force w = transition_row pid action reason force (get pid w.missions) w
