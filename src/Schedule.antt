-- ===== src/Schedule.antt =====
-- `fire_one` of backend/app/services/scheduler_service.py: one firing of a mission's schedule. The
-- rows of `mission_schedules` stand beside the world; the library's scheduler, which calls it and
-- computes `next_fire_at`, is not modelled.
pub mod Fire
use colony_agents.Prelude.{
  ℕ, ◌+◌, String, Text, codes, Bool, true, false, not, ◌&&◌, Option, none, some, is_some, List,
  ◌++◌, take, or_else, if◌then◌else◌, str,
}
use colony_agents.Prelude.Table.{Table, get, put}
use colony_agents.World.{World, Mission, lifecycle_of}
use colony_agents.Mission.Policy.{should_run_on_schedule}
use colony_agents.Daemon.Tick.{Payload}
use colony_agents.Daemon.Tick.Run.{
  Parts, Ticked, no_such_mission, no_such_supervisor, not_running, no_supervisor, run_once,
}

-- A row of `mission_schedules`.
pub record Schedule : Type 0 where
  pub mission_id : ℕ
  pub kind : String
  pub expr : Text
  pub payload_template : Payload
  pub enabled : Bool
  pub last_fired_at : Option ℕ
  pub last_error : Option Text
  pub fire_count : ℕ

pub data Fired : Type 0 where
  no_such_schedule disabled : Fired
  lifecycle_gate : (lifecycle_status : String) → Fired
  fired : Ticked → Fired
  raised : Text → Fired

-- payload.setdefault("trigger", f"{sched.kind} {sched.expr}")
abbrev pub with_trigger : Schedule → Payload → Payload
with_trigger s p = record p {
  trigger = some (or_else p.trigger (codes s.kind ++ (codes " " ++ s.expr)));
}

abbrev agent_of : Option Mission → Option ℕ
agent_of none = none
agent_of (some m) = m.supervisor_agent_id

-- The message of the error that `run_once` raises, if it does.
unfoldable pub error_of : ℕ → Option Mission → Ticked → Option Text
error_of pid row no_such_mission = some (codes "Mission " ++ (str pid ++ codes " 不存在"))
error_of pid row (not_running status) =
    some (codes "Mission 当前 runtime_status=" ++ (codes status ++ codes "，需先 start 后 run_once"))
error_of pid row no_such_supervisor = some (no_supervisor (agent_of row))
error_of pid row _ = none

-- What is kept of a firing, and what it returns.
unfoldable pub recorded : ℕ → Option Text → Schedule → Schedule
recorded now none s = record s {
  last_fired_at = some now;
  fire_count = s.fire_count + 1;
  last_error = none;
}
recorded now (some message) s = record s { last_error = some (take 500 message) }

abbrev pub outcome : Ticked → Option Text → Fired
outcome t none = fired t
outcome t (some message) = raised message

-- `render` fills the placeholders of a payload (the date and the mission's slug); `task` is the task
-- that runs the tick.
module _ (parts : Parts) (task : ℕ) (render : Payload → Payload) where
  abbrev ticked :
      (sid : ℕ)
      → Schedule
      → Table Schedule
      → Option Mission
      → Ticked × World
      → Fired × Table Schedule × World
  ticked sid s t row (res, w) =
      let error = error_of s.mission_id row res in
      (outcome res error, put sid (recorded w.clock error s) t, w)

  abbrev gate : Schedule → Option Mission → Bool
  gate s row = is_some row && not (should_run_on_schedule (lifecycle_of row))

  abbrev fire_row :
      (sid : ℕ)
      → Option Payload
      → Table Schedule
      → World
      → Option Schedule
      → Fired × Table Schedule × World
  fire_row sid override t w none = (no_such_schedule, t, w)
  fire_row sid override t w (some s) =
      let row = get s.mission_id w.missions in
      if not s.enabled
      then (disabled, t, w)
      else if gate s row
      then (lifecycle_gate (lifecycle_of row), t, w)
      else ticked sid s t row (
          run_once parts s.mission_id task
            (with_trigger s (render (or_else override s.payload_template))) w)

  unfoldable pub fire_one :
      (sid : ℕ) → Option Payload → Table Schedule → World → Fired × Table Schedule × World
  unfolding error_of recorded
  fire_one sid override t w = fire_row sid override t w (get sid t)
