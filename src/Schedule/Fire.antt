-- ===== src/Schedule/Fire.antt =====
-- Which firings of a schedule reach the mission.
use colony_agents.Prelude.{
  if◌then◌else◌, Bool-cases, inl, inr, ℕ, true, Option, some, or_else, ◌≡◌, refl,
}
use colony_agents.Prelude.Table.{Table, get, put}
use colony_agents.World.{World, Mission}
use colony_agents.Mission.Policy.{should_run_on_schedule}
use colony_agents.Daemon.Tick.{Payload}
use colony_agents.Daemon.Tick.Run.{Parts, run_once}
use colony_agents.Schedule.{
  Schedule, lifecycle_gate, with_trigger, error_of, recorded, outcome, fire_one,
}

module _ (parts : Parts) (task : ℕ) (render : Payload → Payload) (sid : ℕ)
    (override : Option Payload) (t : Table Schedule) (w : World) (s : Schedule) (m : Mission)
    (stored : get sid t ≡ some s) (enabled : s.enabled ≡ true)
    (found : get s.mission_id w.missions ≡ some m) where
  -- An enabled schedule of a mission that is there: if the policy keeps the mission's lifecycle from
  -- running, nothing is written, the schedule's row included, and the firing says so; otherwise the
  -- mission is ticked in the lifecycle that it has, and the schedule counts the firing just if the
  -- tick raises no error.
  pub fire_one_lem :
      let tick =
        run_once parts s.mission_id task
          (with_trigger s (render (or_else override s.payload_template)))
          w in
      let error = error_of s.mission_id (some m) tick.0 in
      fire_one parts task render sid override t w ≡ (
        if should_run_on_schedule m.lifecycle_status
        then (outcome tick.0 error, put sid (recorded tick.1.clock error s) t, tick.1)
        else (lifecycle_gate m.lifecycle_status, t, w))
  unfolding fire_one
  fire_one_lem = elim (Bool-cases (should_run_on_schedule m.lifecycle_status)) [
    | inl h ↦ rw (stored, enabled, found, h) refl
    | inr h ↦ rw (stored, enabled, found, h) refl
  ]
