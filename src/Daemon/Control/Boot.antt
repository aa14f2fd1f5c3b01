-- ===== src/Daemon/Control/Boot.antt =====
-- What `reconcile_on_boot` of backend/app/services/mission_daemon.py starts again.
use colony_agents.Prelude.{
  ℕ, true, false, none, some, is_some, not, ◌&&◌, List, [], ◌∷◌, ◌++◌, ◌≡◌, refl, ap, ◌∙◌, subst,
  sym, arith, str_eq, Bool-cases, Option-cases, inl, inr, ◌||◌, ◌==◌, ==_iff, eq_iff,
}
use colony_agents.Prelude.Table.{
  Table, get, put, member, discard, get-put, get-put_self, member-discard,
}
use colony_agents.World.{World, Mission, lifecycle, lifecycle_of}
use colony_agents.Mission.Lifecycle.{start as start_action}
use colony_agents.Mission.Service.{write}
use colony_agents.Mission.Service.Writes.{apply_keeps}
use colony_agents.Daemon.State.{
  Runtime, error_runtime, edit_run_state, set_project_runtime, update_heartbeat, mark_error,
}
use colony_agents.Daemon.Control.{
  needs_start, idle_runtime, stopped_runtime, ungraceful, registered, synced, start, stop,
  start_all, is_stale, to_resume, leftovers, mark_stale, reconcile_on_boot, new_process,
}
use colony_agents.Daemon.Control.Running.{
  member-append_last, start-daemons, start_registered, set_project_runtime_lem,
}

abbrev HasRow : ℕ → World → Type 0
HasRow i w = is_some (get i w.missions) ≡ true

put-HasRow :
    (i k : ℕ) (m : Mission) (t : Table Mission)
    → is_some (get i t) ≡ true
    → is_some (get i (put k m t)) ≡ true
put-HasRow i k m t h = ground (arith, get-put i k m t)

member-append : (i : ℕ) (s t : List ℕ) → member i s ≡ true → member i (s ++ t) ≡ true
unfolding member
member-append i [] t h = ground arith
member-append i (j ∷ s) t h = ground (arith, member-append i s t)

-- What no write of the runtime columns changes.
record Kept (v w : World) : Type 0 where
  daemons : w.daemons ≡ v.daemons
  rows : (i : ℕ) → HasRow i v → HasRow i w

set_project_runtime-Kept :
    (pid : ℕ) (r : Runtime) (w : World) → Kept w (set_project_runtime pid r w)
unfolding set_project_runtime edit_run_state
set_project_runtime-Kept pid r w = elim (Option-cases (get pid w.missions)) [
  | inl e ↦ record {
    daemons = rw (e, set_project_runtime);
    rows = λ i h. rw (e, set_project_runtime) h;
  }
  | inr (m, e) ↦ record {
    daemons = rw (e, set_project_runtime);
    rows = λ i h. rw (e, set_project_runtime) (put-HasRow i pid _ w.missions h);
  }
]

registered-HasRow :
    (i pid : ℕ) (m : Mission) (w : World) → HasRow i w → HasRow i (registered pid m w)
unfolding registered update_heartbeat edit_run_state
registered-HasRow i pid m w h =
    (set_project_runtime-Kept pid (idle_runtime w.clock) _).rows i (put-HasRow i pid _ w.missions h)

synced-HasRow : (i pid : ℕ) (m : Mission) (w : World) → HasRow i w → HasRow i (synced pid m w)
unfolding synced write
synced-HasRow i pid m w h = elim (Bool-cases (needs_start m.lifecycle_status)) [
  | inl e ↦ rw e (
      apply_keeps (HasRow i) pid start_action none w h
        (λ row target. put-HasRow i pid _ w.missions h) true)
  | inr e ↦ rw e h
]

start_fresh :
    (pid : ℕ) (w : World) (m : Mission)
    → member pid w.daemons ≡ false
    → get pid w.missions ≡ some m
    → (start pid false w).1 ≡ synced pid m (registered pid m w)
unfolding start
start_fresh pid w m fresh stored = rw (fresh, stored)

start_absent :
    (pid : ℕ) (w : World)
    → member pid w.daemons ≡ false
    → get pid w.missions ≡ none
    → (start pid false w).1 ≡ w
unfolding start
start_absent pid w fresh stored = rw (fresh, stored)

no_row : (A : Type 0) (pid : ℕ) (w : World) → get pid w.missions ≡ none → HasRow pid w → A
no_row A pid w e h = ground (arith, sym (ap is_some e) ∙ h)

-- One mission's start keeps what is there, and registers its own mission if that is there.
record Grown (pid : ℕ) (v w : World) : Type 0 where
  daemons : (i : ℕ) → member i v.daemons ≡ true → member i w.daemons ≡ true
  rows : (i : ℕ) → HasRow i v → HasRow i w
  own : HasRow pid v → member pid w.daemons ≡ true

start-Grown : (pid : ℕ) (w : World) → Grown pid w (start pid false w).1
start-Grown pid w = elim (Bool-cases (member pid w.daemons)) [
  | inl e ↦
      rw (start_registered pid false w e)
        record { daemons = λ i h. h; rows = λ i h. h; own = λ h. e }
  | inr e ↦ elim (Option-cases (get pid w.missions)) [
    | inl none_there ↦ rw (start_absent pid w e none_there) record {
      daemons = λ i h. h;
      rows = λ i h. h;
      own = λ h. no_row (member pid w.daemons ≡ true) pid w none_there h;
    }
    | inr (m, stored) ↦ record {
      daemons = λ i h. rw (start-daemons pid m w e stored false) (member-append i w.daemons _ h);
      rows = λ i h.
          rw (start_fresh pid w m e stored)
            (synced-HasRow i pid m _ (registered-HasRow i pid m w h));
      own = λ h. rw (start-daemons pid m w e stored false) (member-append_last pid w.daemons);
    }
  ]
]

start_all-registers :
    (i : ℕ) (pids : List ℕ) (w : World)
    → HasRow i w
    → (member i pids || member i w.daemons) ≡ true
    → member i (start_all pids w).daemons ≡ true
unfolding start_all member
start_all-registers i [] w h m = m
start_all-registers i (pid ∷ pids) w h m =
    let g = start-Grown pid w in
    start_all-registers i pids (start pid false w).1 (g.rows i h) (kept g)
  where
    kept :
        Grown pid w (start pid false w).1
        → (member i pids || member i (start pid false w).1.daemons) ≡ true
    kept g = elim (Bool-cases (pid == i)) [
      | inl e ↦ ground (
        arith,
        (==_iff pid i).0 e,
        h,
        subst (λ j. HasRow j w → member j (start pid false w).1.daemons ≡ true) ((==_iff pid i).0 e)
            g.own,
      )
      | inr e ↦ ground (arith, g.daemons i)
    ]

to_resume-member :
    (i : ℕ) (t : Table Mission) (m : Mission)
    → get i t ≡ some m
    → m.lifecycle_status ≡ "running"
    → member i (to_resume t) ≡ true
unfolding get to_resume member
to_resume-member i [] m e l = ground arith
to_resume-member i ((j, row) ∷ t) m e l =
    ground (arith, to_resume-member i t m, l, eq_iff row.lifecycle_status "running")

mark_stale-daemons : (pids : List ℕ) (w : World) → (mark_stale pids w).daemons ≡ w.daemons
unfolding mark_stale mark_error
mark_stale-daemons [] w = refl
mark_stale-daemons (pid ∷ pids) w =
    mark_stale-daemons pids _ ∙ elim (Bool-cases (is_stale w.clock (get pid w.run_states))) [
      | inl e ↦ rw e ((set_project_runtime-Kept pid (error_runtime w.clock ungraceful) w).daemons)
      | inr e ↦ rw e refl
    ]

abbrev resumed : World → World
resumed w = start_all (to_resume w.missions) w

-- The daemons after a boot.
boot-registers :
    (w : World) (pid : ℕ) (m : Mission)
    → get pid w.missions ≡ some m
    → m.lifecycle_status ≡ "running"
    → member pid (reconcile_on_boot w).daemons ≡ true
unfolding reconcile_on_boot
boot-registers w pid m stored l =
    ap (member pid) (mark_stale-daemons (leftovers (resumed w).missions) (resumed w))
    ∙ start_all-registers pid (to_resume w.missions) w (ap is_some stored)
        (ground (arith, to_resume-member pid w.missions m stored l))

abbrev forgotten : ℕ → World → World
forgotten pid w = record w { daemons = discard pid w.daemons }

stop-row :
    (pid : ℕ) (w : World) (m : Mission)
    → get pid w.missions ≡ some m
    → (row : Mission) × (get pid (stop pid w).missions ≡ some row)
      × (row.lifecycle_status ≡ m.lifecycle_status)
unfolding stop edit_run_state
stop-row pid w m stored =
    rw stored elim (Bool-cases (not (member pid w.daemons) && str_eq m.runtime_status "stopped")) [
      | inl e ↦ rw e (m, stored, refl)
      | inr e ↦
          rw (e, set_project_runtime_lem pid (stopped_runtime w.clock) (forgotten pid w) m stored)
            (record m { runtime_status = "stopped" }, get-put_self pid _ _, refl)
    ]

stop-daemons : (pid : ℕ) (w : World) → (stop pid w).daemons ≡ discard pid w.daemons
unfolding stop
stop-daemons pid w = elim (Option-cases (get pid w.missions)) [
  | inl e ↦ rw e refl
  | inr (m, e) ↦
      rw e elim (Bool-cases (not (member pid w.daemons) && str_eq m.runtime_status "stopped")) [
        | inl t ↦ rw t refl
        | inr t ↦
            rw t
              ((set_project_runtime-Kept pid (stopped_runtime w.clock) (forgotten pid w)).daemons)
      ]
]

-- `stop`, of a mission whose row is there with lifecycle "running": the mission is no longer
-- registered, and its lifecycle is still "running". So the next process, whose `reconcile_on_boot`
-- resumes by the lifecycle alone, has it registered again.
pub boot_undoes_stop :
    (pid : ℕ) (w : World) (m : Mission)
    → get pid w.missions ≡ some m
    → m.lifecycle_status ≡ "running"
    → (member pid (stop pid w).daemons ≡ false)
      × (lifecycle pid (stop pid w) ≡ "running")
      × (member pid (reconcile_on_boot (new_process (stop pid w))).daemons ≡ true)
unfolding new_process
boot_undoes_stop pid w m stored l =
    let (row, kept, same) = stop-row pid w m stored in
    (
      rw (stop-daemons pid w) (ground (arith, member-discard pid pid w.daemons)),
      ap lifecycle_of kept ∙ same ∙ l,
      boot-registers (new_process (stop pid w)) pid row kept (same ∙ l),
    )
