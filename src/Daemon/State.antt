-- ===== src/Daemon/State.antt =====
-- The writes of backend/app/services/mission_daemon.py to the runtime columns of a mission and to
-- its row of `mission_run_state`.
use colony_agents.Prelude.{
  ℕ, ◌-◌, String, Text, codes, Option, none, some, ◌++◌, length, take, or_else, ltb, if◌then◌else◌,
}
use colony_agents.Prelude.Table.{get, put}
use colony_agents.World.{World, RunState}

abbrev pub step_max : ℕ
step_max = 255

unfoldable pub clip_step : Text → Text
clip_step val = if ltb step_max (length val) then take (step_max - 1) val ++ codes "…" else val

abbrev clip_step? : Option Text → Option Text
clip_step? none = none
clip_step? (some val) = some (clip_step val)

-- The row that `_get_or_create_run_state` inserts.
abbrev pub new_run_state : RunState
new_run_state = record {
  status = "stopped";
  started_at = none;
  stopped_at = none;
  last_heartbeat_at = none;
  last_error = none;
  current_step = none;
  run_count = 0;
}

abbrev pub run_state : ℕ → World → RunState
run_state pid w = or_else (get pid w.run_states) new_run_state

-- rs = await _get_or_create_run_state(db, pid), and then the assignments to its columns.
unfoldable pub edit_run_state : ℕ → (RunState → RunState) → World → World
edit_run_state pid f w = record w { run_states = put pid (f (run_state pid w)) w.run_states }

-- An argument whose default leaves the column alone (`False`).
pub data Change {ℓ} (A : Type ℓ) : Type ℓ where
  unchanged : Change A
  set_to : A → Change A

abbrev pub changed {ℓ} : {A : Type ℓ} → Change A → A → A
changed unchanged old = old
changed (set_to new) old = new

-- An argument whose default is `None`, which leaves the column alone too.
abbrev pub if_given {ℓ} : {A : Type ℓ} → Option A → Option A → Option A
if_given none old = old
if_given (some new) old = some new

abbrev clipped : Change (Option Text) → Change (Option Text)
clipped unchanged = unchanged
clipped (set_to val) = set_to (clip_step? val)

-- The arguments of `_set_project_runtime` behind the mission.
pub record Runtime : Type 0 where
  pub status : String
  pub started_at : Option ℕ
  pub stopped_at : Option ℕ
  pub last_error : Change (Option Text)
  pub current_step : Change (Option Text)

unfoldable pub with_runtime : Runtime → RunState → RunState
unfolding clip_step
with_runtime r rs = record rs {
  status = r.status;
  started_at = if_given r.started_at rs.started_at;
  stopped_at = if_given r.stopped_at rs.stopped_at;
  last_error = changed r.last_error rs.last_error;
  current_step = changed (clipped r.current_step) rs.current_step;
}

unfoldable pub set_project_runtime : ℕ → Runtime → World → World
unfolding edit_run_state with_runtime
set_project_runtime pid r w = elim (get pid w.missions) [
  | none ↦ w
  | some m ↦
      edit_run_state pid (with_runtime r)
        (record w { missions = put pid (record m { runtime_status = r.status }) w.missions })
]

unfoldable pub update_heartbeat : ℕ → Text → World → World
unfolding edit_run_state clip_step
update_heartbeat pid step w =
    edit_run_state pid
      (λ rs. record rs { last_heartbeat_at = some w.clock; current_step = some (clip_step step) }) w

abbrev pub error_runtime : ℕ → Text → Runtime
error_runtime now message = record {
  status = "error";
  started_at = none;
  stopped_at = some now;
  last_error = set_to (some message);
  current_step = set_to none;
}

unfoldable pub mark_error : ℕ → Text → World → World
unfolding set_project_runtime
mark_error pid message w = set_project_runtime pid (error_runtime w.clock message) w
