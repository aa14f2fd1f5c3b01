-- ===== src/Daemon/Control.antt =====
-- Start, stop, heartbeat, boot and shutdown of backend/app/services/mission_daemon.py. A write to
-- the database that fails is not modelled, nor so the handlers for it.
pub mod Running
pub mod Boot
use colony_agents.Prelude.{
  ℕ, ◌+◌, ◌*◌, String, Text, codes, Bool, true, false, not, ◌&&◌, ◌||◌, Option, none, some, List,
  [], ◌∷◌, ◌++◌, select, map, str_eq, ◌==◌, ltb, if◌then◌else◌, any,
}
use colony_agents.Prelude.Table.{Table, get, put, member, discard}
use colony_agents.World.{World, Mission, RunState, initial_kickoff}
use colony_agents.Mission.Lifecycle.{start as start_action}
use colony_agents.Mission.Service.{apply}
use colony_agents.Daemon.State.{
  Runtime, set_to, unchanged, run_state, edit_run_state, set_project_runtime, update_heartbeat,
  mark_error,
}

pub data Started : Type 0 where
  running no_such_mission : Started

-- proj.lifecycle_status in ("stopped", "draft", "error", "")
abbrev pub needs_start : String → Bool
needs_start l = any (λ s. str_eq s l) ("stopped" ∷ "draft" ∷ "error" ∷ "" ∷ [])

-- draft → active
unfoldable pub activated : Mission → Mission
activated m = record m { status = if str_eq m.status "draft" then "active" else m.status }

abbrev pub idle_runtime : ℕ → Runtime
idle_runtime now = record {
  status = "running";
  started_at = some now;
  stopped_at = none;
  last_error = set_to none;
  current_step = set_to (some (codes "idle"));
}

-- The registration, the runtime columns and the first heartbeat.
unfoldable pub registered : ℕ → Mission → World → World
unfolding set_project_runtime update_heartbeat activated
registered pid m w = update_heartbeat pid (codes "idle") (
    set_project_runtime pid (idle_runtime w.clock)
      (record w { missions = put pid (activated m) w.missions; daemons = w.daemons ++ (pid ∷ []) }))

unfoldable pub synced : ℕ → Mission → World → World
synced pid m w =
    if needs_start m.lifecycle_status then (apply pid start_action none true w).1 else w

-- The first tick, for a mission that never had one. The row is read, and created where there is
-- none, only under `kickoff`.
abbrev pub kicked_off : ℕ → Bool → World → World
kicked_off pid false w = w
kicked_off pid true w = record (edit_run_state pid (λ rs. rs) w) {
  spawned =
      if (run_state pid w).run_count == 0
      then w.spawned ++ (initial_kickoff pid ∷ [])
      else w.spawned;
}

abbrev pub start_row : ℕ → Bool → World → Option Mission → Started × World
start_row pid kickoff w none = (no_such_mission, w)
start_row pid kickoff w (some m) =
    (running, kicked_off pid kickoff (synced pid m (registered pid m w)))

unfoldable pub start : ℕ → Bool → World → Started × World
start pid kickoff w =
    if member pid w.daemons then (running, w) else start_row pid kickoff w (get pid w.missions)

abbrev pub stopped_runtime : ℕ → Runtime
stopped_runtime now = record {
  status = "stopped";
  started_at = none;
  stopped_at = some now;
  last_error = unchanged;
  current_step = set_to none;
}

abbrev pub stop_row : ℕ → Bool → World → Option Mission → World
stop_row pid known w none = w
stop_row pid known w (some m) =
    if not known && str_eq m.runtime_status "stopped"
    then w
    else set_project_runtime pid (stopped_runtime w.clock) w

-- It returns "stopped" in every case.
unfoldable pub stop : ℕ → World → World
stop pid w =
    stop_row pid (member pid w.daemons) (record w { daemons = discard pid w.daemons })
      (get pid w.missions)

unfoldable pub restart : ℕ → World → Started × World
restart pid w = start pid false (stop pid w)

unfoldable pub get_runtime : ℕ → World → RunState × World
get_runtime pid w = (run_state pid w, edit_run_state pid (λ rs. rs) w)

-- `_heartbeat_sweep_pass`: the missions that are gone, and the world.
abbrev sweep_row : ℕ → Option Mission → World → World
sweep_row pid none w = record w { daemons = discard pid w.daemons }
sweep_row pid (some m) w = update_heartbeat pid (codes "idle") w

abbrev gone : ℕ → Option Mission → List ℕ
gone pid none = pid ∷ []
gone pid (some m) = []

unfoldable pub heartbeat_sweep_pass : List ℕ → World → List ℕ × World
heartbeat_sweep_pass [] w = ([], w)
heartbeat_sweep_pass (pid ∷ pids) w =
    let row = get pid w.missions in
    let (deregistered, w') = heartbeat_sweep_pass pids (sweep_row pid row w) in
    (gone pid row ++ deregistered, w')

-- One round of `_heartbeat_sweeper`, over the registered daemons.
unfoldable pub sweep : World → List ℕ × World
unfolding heartbeat_sweep_pass
sweep w = heartbeat_sweep_pass w.daemons w

abbrev pub stale_heartbeat_sec : ℕ
stale_heartbeat_sec = 120

unfoldable pub start_all : List ℕ → World → World
start_all [] w = w
start_all (pid ∷ pids) w = start_all pids (start pid false w).1

-- WHERE lifecycle_status = 'running'
unfoldable pub to_resume : Table Mission → List ℕ
to_resume [] = []
to_resume ((pid, m) ∷ rows) =
    let rest = to_resume rows in if str_eq m.lifecycle_status "running" then pid ∷ rest else rest

-- WHERE runtime_status IN ('running', 'starting', 'stopping') AND lifecycle_status != 'running'
abbrev pub is_leftover : Mission → Bool
is_leftover m =
    any (λ s. str_eq s m.runtime_status) ("running" ∷ "starting" ∷ "stopping" ∷ [])
    && not (str_eq m.lifecycle_status "running")

unfoldable pub leftovers : Table Mission → List ℕ
leftovers [] = []
leftovers ((pid, m) ∷ rows) =
    let rest = leftovers rows in if is_leftover m then pid ∷ rest else rest

-- hb is None or hb < cutoff, where cutoff = now - STALE_HEARTBEAT_SEC
abbrev pub is_stale : ℕ → Option RunState → Bool
is_stale now none = true
is_stale now (some rs) = elim rs.last_heartbeat_at [
  | none ↦ true
  | some hb ↦ ltb (hb + stale_heartbeat_sec) now
]

abbrev pub ungraceful : Text
ungraceful = codes "上次进程未优雅退出（reconcile 检测到 stale heartbeat）"

unfoldable pub mark_stale : List ℕ → World → World
mark_stale [] w = w
mark_stale (pid ∷ pids) w =
    mark_stale pids
      (if is_stale w.clock (get pid w.run_states) then mark_error pid ungraceful w else w)

unfoldable pub reconcile_on_boot : World → World
unfolding start_all to_resume leftovers mark_stale
reconcile_on_boot w =
    let w' = start_all (to_resume w.missions) w in mark_stale (leftovers w'.missions) w'

unfoldable pub stop_all : List ℕ → World → World
stop_all [] w = w
stop_all (pid ∷ pids) w = stop_all pids (stop pid w)

unfoldable pub shutdown_all : World → World
unfolding stop_all
shutdown_all w = stop_all w.daemons w

-- A new process: the database stays, what lives in the process is empty.
unfoldable pub new_process : World → World
new_process w = record w {
  daemons = [];
  ticking = [];
  running_ticks = [];
  cancel_events = [];
  cancel_history = [];
  spawned = [];
}
