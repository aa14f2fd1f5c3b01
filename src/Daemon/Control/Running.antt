-- ===== src/Daemon/Control/Running.antt =====
-- What start and stop of backend/app/services/mission_daemon.py leave behind.
use colony_agents.Prelude.{
  ℕ, codes, Bool, true, false, none, some, List, [], ◌∷◌, ◌++◌, ◌≡◌, refl, ap, arith, str_eq, ◌∙◌,
  if◌then◌else◌, Bool-cases, inl, inr,
}
use colony_agents.Prelude.Table.{get, put, member, get-put_self}
use colony_agents.World.{World, Mission, RunState, lifecycle, runtime, lifecycle_of, runtime_of}
use colony_agents.Mission.Lifecycle.{start as start_action}
use colony_agents.Mission.Service.{write, updated, force_target, runtime_for}
use colony_agents.Mission.Service.Writes.{apply_forced}
use colony_agents.Daemon.State.{
  Runtime, run_state, edit_run_state, with_runtime, set_project_runtime, update_heartbeat,
  clip_step,
}
use colony_agents.Daemon.Control.{
  Started, needs_start, idle_runtime, activated, registered, synced, kicked_off, start,
}

pub member-append_last : (k : ℕ) (s : List ℕ) → member k (s ++ (k ∷ [])) ≡ true
unfolding member
member-append_last k [] = ground arith
member-append_last k (j ∷ s) = ground (arith, member-append_last k s)

-- The mission's row that `start` leaves.
abbrev started_row : Mission → Mission
started_row m = record m {
  status = if str_eq m.status "draft" then "active" else m.status;
  runtime_status = "running";
}

abbrev pub started_state : ℕ → RunState → RunState
started_state now rs = record rs {
  status = "running";
  started_at = some now;
  last_error = none;
  current_step = some (codes "idle");
  last_heartbeat_at = some now;
}

-- The write of the runtime columns of a mission that is there.
pub set_project_runtime_lem :
    (pid : ℕ) (r : Runtime) (w : World) (m : Mission)
    → get pid w.missions ≡ some m
    → set_project_runtime pid r w
      ≡ edit_run_state pid
          (with_runtime r)
          (record w { missions = put pid (record m { runtime_status = r.status }) w.missions })
unfolding set_project_runtime edit_run_state
set_project_runtime_lem pid r w m e = rw (e, set_project_runtime)

module _ (pid : ℕ) (m : Mission) (w : World) where
  registered_lem :
      registered pid m w
      ≡ update_heartbeat pid (codes "idle") (
          edit_run_state pid (with_runtime (idle_runtime w.clock)) (record w {
            missions =
                put pid
                  (record (activated m) { runtime_status = "running" })
                  (put pid (activated m) w.missions);
            daemons = w.daemons ++ (pid ∷ []);
          }))
  unfolding registered
  registered_lem = ap (update_heartbeat pid (codes "idle")) (
      set_project_runtime_lem pid (idle_runtime w.clock) _ (activated m)
        (get-put_self pid (activated m) w.missions))

  registered-row : get pid (registered pid m w).missions ≡ some (started_row m)
  unfolding update_heartbeat edit_run_state activated
  registered-row = rw registered_lem (get-put_self pid _ _)

  registered-daemons : (registered pid m w).daemons ≡ w.daemons ++ (pid ∷ [])
  unfolding update_heartbeat edit_run_state
  registered-daemons = rw registered_lem

  registered-state : run_state pid (registered pid m w) ≡ started_state w.clock (run_state pid w)
  unfolding update_heartbeat edit_run_state with_runtime clip_step
  registered-state = rw registered_lem (simp get-put_self)

  -- The lifecycle column after `synced`.
  synced-row :
      (v : World) (row : Mission)
      → get pid v.missions ≡ some row
      → row.runtime_status ≡ "running"
      → (lifecycle pid (synced pid m v)
          ≡ (if needs_start m.lifecycle_status then "running" else row.lifecycle_status))
        × (runtime pid (synced pid m v) ≡ "running")
        × (run_state pid (synced pid m v) ≡ run_state pid v)
        × ((synced pid m v).daemons ≡ v.daemons)
  unfolding synced write updated force_target runtime_for
  synced-row v row stored run = elim (Bool-cases (needs_start m.lifecycle_status)) [
    | inl e ↦
        rw (e, apply_forced pid start_action none v row stored)
          (rw get-put_self (refl, refl, refl, refl))
    | inr e ↦ rw (e, stored) (refl, run, refl, refl)
  ]

  -- A mission whose row is there and that is not registered: after `start` its runtime is
  -- "running", its lifecycle is "running" where it was stopped, draft, error or empty, it is
  -- registered, and its run state is that of an idle daemon, started now.
  module _ (fresh : member pid w.daemons ≡ false) (stored : get pid w.missions ≡ some m) where
    start_lem :
        (kickoff : Bool)
        → start pid kickoff w
          ≡ (Started.running, kicked_off pid kickoff (synced pid m (registered pid m w)))
    unfolding start
    start_lem kickoff = rw (fresh, stored)

    kicked_off_keeps :
        (kickoff : Bool) (v : World)
        → ((kicked_off pid kickoff v).missions ≡ v.missions)
          × ((kicked_off pid kickoff v).daemons ≡ v.daemons)
          × (run_state pid (kicked_off pid kickoff v) ≡ run_state pid v)
    unfolding edit_run_state
    kicked_off_keeps false v = (refl, refl, refl)
    kicked_off_keeps true v = (refl, refl, rw get-put_self refl)

    pub start_runs :
        (kickoff : Bool)
        → let w' = (start pid kickoff w).1 in
          (lifecycle pid w'
            ≡ (if needs_start m.lifecycle_status then "running" else m.lifecycle_status))
          × (runtime pid w' ≡ "running")
          × (run_state pid w' ≡ started_state w.clock (run_state pid w))
          × (member pid w'.daemons ≡ true)
    start_runs kickoff =
        let v = registered pid m w in
        let (l, r, s, d) = synced-row v (started_row m) registered-row refl in
        let (km, kd, ks) = kicked_off_keeps kickoff (synced pid m v) in
        rw (start_lem kickoff) (
          ap (λ ms. lifecycle_of (get pid ms)) km ∙ l,
          ap (λ ms. runtime_of (get pid ms)) km ∙ r,
          ks ∙ s ∙ registered-state,
          ap (member pid) (kd ∙ d ∙ registered-daemons) ∙ member-append_last pid w.daemons,
        )

    pub start-daemons : (kickoff : Bool) → (start pid kickoff w).1.daemons ≡ w.daemons ++ (pid ∷ [])
    start-daemons kickoff =
        let v = registered pid m w in
        let (l, r, s, d) = synced-row v (started_row m) registered-row refl in
        let (km, kd, ks) = kicked_off_keeps kickoff (synced pid m v) in
        rw (start_lem kickoff) (kd ∙ d ∙ registered-daemons)

-- A registered mission is left alone: a second `start` does nothing, whatever its columns say.
pub start_registered :
    (pid : ℕ) (kickoff : Bool) (w : World)
    → member pid w.daemons ≡ true
    → start pid kickoff w ≡ (Started.running, w)
unfolding start
start_registered pid kickoff w known = rw known
