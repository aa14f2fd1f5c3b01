-- ===== src/Optimize/Closes.antt =====
-- What the soft close of a work order and the cap on its ticks leave behind, of
-- backend/app/services/worker_optimization_service.py.
use colony_agents.Prelude.{
  ℕ, Text, codes, String, true, false, ◌||◌, Option, none, some, List, [], ◌∷◌, ◌++◌, is_nil, ltb,
  ◌==◌, if◌then◌else◌, ◌≡◌, refl, ◌∙◌, arith, inl, inr, Bool-cases, Option-cases,
}
use colony_agents.Prelude.Table.{Table, get, get-put, get-put_self}
use colony_agents.World.{World, Mission, lifecycle}
use colony_agents.Mission.Lifecycle.{stop, stopped, resume, LifecycleAction}
use colony_agents.Mission.Service.{updated, force_target, write, apply}
use colony_agents.Mission.Service.Writes.{apply_forced, apply_absent}
use colony_agents.Schedule.{Schedule}
use colony_agents.Optimize.{Desk, work_order_capability, drop_mission_schedules, schedules_of}
use colony_agents.Optimize.Waiters.{waits_for, waiters, wake, woken, resume_waiters_for_capability}
use colony_agents.Optimize.Wakes.{resumed_lifecycle, forced_row, same_row, resumed, woken-missions}
use colony_agents.Optimize.Close.{
  Outcome, capped, archive, settled, close_work_order, maybe_cap_work_order, outcome_text,
  is_open_order,
}

abbrev done_reason : Outcome → Option Text
done_reason outcome = some (codes "work_order_done:" ++ codes (outcome_text outcome))

abbrev settled_order : Mission → Outcome → Mission
settled_order m outcome = record (updated m stopped (done_reason outcome)) { status = "archived" }

archive_lem :
    (pid j : ℕ) (w : World) (m : Mission)
    → get pid w.missions ≡ some m
    → get j (archive pid w).missions
      ≡ (if pid == j then some (record m { status = "archived" }) else get j w.missions)
unfolding archive
archive_lem pid j w m e =
    rw (e, archive) (get-put j pid (record m { status = "archived" }) w.missions)

module _ (pid : ℕ) (outcome : Outcome) (w : World) (m : Mission)
    (stored : get pid w.missions ≡ some m) where
  abbrev stopped_world : World
  stopped_world = write pid m stop (done_reason outcome) stopped w

  stopped_row :
      (j : ℕ)
      → get j stopped_world.missions
        ≡ (if pid == j then some (updated m stopped (done_reason outcome)) else get j w.missions)
  unfolding write
  stopped_row j = get-put j pid (updated m stopped (done_reason outcome)) w.missions

  stopped_self : get pid stopped_world.missions ≡ some (updated m stopped (done_reason outcome))
  unfolding write
  stopped_self = get-put_self pid (updated m stopped (done_reason outcome)) w.missions

  settled_row :
      (j : ℕ)
      → get j (settled pid outcome w).missions
        ≡ (if pid == j then some (settled_order m outcome) else get j w.missions)
  unfolding settled force_target
  settled_row j =
      rw
        (
          apply_forced pid stop (done_reason outcome) w m stored,
          archive_lem pid j stopped_world _ stopped_self,
          stopped_row j,
        )
        (elim (Bool-cases (pid == j)) [ inl e ↦ rw e refl | inr e ↦ rw e refl ])

  settled_lifecycle :
      (j : ℕ)
      → lifecycle j (settled pid outcome w) ≡ (if pid == j then "stopped" else lifecycle j w)
  unfolding updated
  settled_lifecycle j =
      rw (settled_row j) (elim (Bool-cases (pid == j)) [ inl e ↦ rw e refl | inr e ↦ rw e refl ])

  settled_waits :
      (j : ℕ) (capability : Text)
      → waits_for capability (get j (settled pid outcome w).missions)
        ≡ (if pid == j then false else waits_for capability (get j w.missions))
  unfolding updated waits_for
  settled_waits j capability =
      rw (settled_row j) (elim (Bool-cases (pid == j)) [ inl e ↦ rw e refl | inr e ↦ rw e refl ])

no_schedules_left :
    (pid : ℕ) (rows : Table Schedule) → schedules_of pid (drop_mission_schedules pid rows) ≡ []
unfolding drop_mission_schedules
no_schedules_left pid [] = refl
no_schedules_left pid ((sid, s) ∷ rows) = elim (Bool-cases (s.mission_id == pid)) [
  | inl e ↦ rw e (no_schedules_left pid rows)
  | inr e ↦ rw (e, e) (no_schedules_left pid rows)
]

module _ (pid : ℕ) (outcome : Outcome) (d : Desk) (m : Mission)
    (stored : get pid d.world.missions ≡ some m)
    (is_order : is_nil (work_order_capability m) ≡ false) where
  -- The soft close of a work order stops its mission, sets every other mission that waits for the
  -- order's worker running, leaves the lifecycle of every further mission, and leaves the mission no
  -- schedule.
  pub close_wakes :
      (j : ℕ)
      → (lifecycle j (close_work_order pid outcome d).1.world ≡ (
          if pid == j
          then "stopped"
          else if waits_for (work_order_capability m) (get j d.world.missions)
          then "running"
          else lifecycle j d.world))
        × (schedules_of pid (close_work_order pid outcome d).1.schedules ≡ [])
  unfolding close_work_order drop_mission_schedules
  close_wakes j = (
    rw
        (
          stored,
          is_order,
          resumed_lifecycle (work_order_capability m) j (settled pid outcome d.world) is_order,
          settled_waits pid outcome d.world m stored j (work_order_capability m),
          settled_lifecycle pid outcome d.world m stored j,
        )
        (elim (Bool-cases (pid == j)) [ inl e ↦ rw e refl | inr e ↦ rw e refl ]),
    rw (stored, is_order) (no_schedules_left pid d.schedules),
  )

-- A column that no forced transition writes.
abbrev status_col : Option Mission → Option String
status_col none = none
status_col (some m) = some m.status

abbrev status_of : ℕ → World → Option String
status_of j w = status_col (get j w.missions)

module _ (j : ℕ) where
  forced_status :
      (pid : ℕ) (action : LifecycleAction) (reason : Option Text) (w : World)
      → status_of j (apply pid action reason true w).1 ≡ status_of j w
  unfolding updated
  forced_status pid action reason w = elim (Option-cases (get pid w.missions)) [
    | inl e ↦ rw (apply_absent pid action reason w true e) refl
    | inr (m, e) ↦ rw (forced_row pid j action reason w m e) (elim (Bool-cases (pid == j)) [
      | inl s ↦ rw (s, same_row pid j action reason w m e s) refl
      | inr n ↦ rw n refl
    ])
  ]

  wake_status :
      (capability : Text) (pids : List ℕ) (w : World)
      → status_of j (wake capability pids w).1 ≡ status_of j w
  unfolding wake
  wake_status capability [] w = refl
  wake_status capability (pid ∷ pids) w =
      wake_status capability pids (woken pid (resumed capability pid w)).1
      ∙ (rw (woken-missions capability pid (resumed capability pid w))
          (forced_status pid resume (some (codes "worker_fixed:" ++ capability)) w))

  resumed_status :
      (capability : Text) (w : World)
      → status_of j (resume_waiters_for_capability capability w).1 ≡ status_of j w
  unfolding resume_waiters_for_capability
  resumed_status capability w = elim (Bool-cases (is_nil capability)) [
    | inl e ↦ rw e refl
    | inr e ↦ rw e (wake_status capability (waiters capability w.missions) w)
  ]

archived_is_closed :
    (row : Option Mission) → status_col row ≡ some "archived" → is_open_order row ≡ false
archived_is_closed none h = refl
archived_is_closed (some m) h = let e : m.status ≡ "archived" = cc in rw e (ground arith)

settled_status :
    (pid : ℕ) (outcome : Outcome) (w : World) (m : Mission)
    → get pid w.missions ≡ some m
    → status_of pid (settled pid outcome w) ≡ some "archived"
settled_status pid outcome w m stored =
    let same : (pid == pid) ≡ true = ground arith in
    rw (settled_row pid outcome w m stored pid, same) refl

open_is_order :
    (row : Option Mission)
    → is_open_order row ≡ true
    → (m : Mission) × (row ≡ some m) × (is_nil (work_order_capability m) ≡ false)
open_is_order none h = cc
open_is_order (some m) h = (m, refl, ground (arith, h))

close_archives :
    (pid : ℕ) (outcome : Outcome) (d : Desk)
    → is_open_order (get pid d.world.missions) ≡ true
    → is_open_order (get pid (close_work_order pid outcome d).1.world.missions) ≡ false
unfolding close_work_order
close_archives pid outcome d h =
    let (m, stored, is_order) = open_is_order (get pid d.world.missions) h in
    archived_is_closed _ (
      rw (stored, is_order)
        (resumed_status pid (work_order_capability m) (settled pid outcome d.world)
          ∙ settled_status pid outcome d.world m stored))

not_open_uncapped :
    (pid again limit : ℕ) (d : Desk)
    → is_open_order (get pid d.world.missions) ≡ false
    → maybe_cap_work_order pid again limit d ≡ (false, d)
unfolding maybe_cap_work_order
not_open_uncapped pid again limit d h = elim (Bool-cases (limit == 0 || ltb again limit)) [
  | inl e ↦ rw e refl
  | inr e ↦ rw (e, h) refl
]

module _ (pid run_count max_ticks : ℕ) (d : Desk) where
  was_capped :
      (maybe_cap_work_order pid run_count max_ticks d).0 ≡ true
      → (is_open_order (get pid d.world.missions) ≡ true)
        × ((maybe_cap_work_order pid run_count max_ticks d).1 ≡ (close_work_order pid capped d).1)
  unfolding maybe_cap_work_order
  was_capped h = elim (Bool-cases (max_ticks == 0 || ltb run_count max_ticks)) [
    | inl e ↦ let bad : false ≡ true = rw e at h in cc
    | inr e ↦ elim (Bool-cases (is_open_order (get pid d.world.missions))) [
      | inl y ↦ (y, rw (e, y) refl)
      | inr n ↦ let bad : false ≡ true = rw (e, n) at h in cc
    ]
  ]

  -- Where the cap has closed a work order, a further call for its mission, whatever it counts, closes
  -- nothing and writes nothing.
  pub capped_once :
      (again limit : ℕ)
      → (maybe_cap_work_order pid run_count max_ticks d).0 ≡ true
      → maybe_cap_work_order pid again limit (maybe_cap_work_order pid run_count max_ticks d).1
        ≡ (false, (maybe_cap_work_order pid run_count max_ticks d).1)
  capped_once again limit h =
      let (was_open, same) = was_capped h in
      rw same (not_open_uncapped pid again limit _ (close_archives pid capped d was_open))
