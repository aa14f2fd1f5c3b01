-- ===== src/Optimize/Wakes.antt =====
-- Which missions the end of a work order wakes, of
-- backend/app/services/worker_optimization_service.py and worker_health_service.py.
use colony_agents.Prelude.{
  ℕ, Text, codes, Bool, true, false, ◌&&◌, ◌||◌, Option, none, some, is_some, List, [], ◌∷◌, ◌++◌,
  map, select, is_nil, ◌==◌, if◌then◌else◌, ◌≡◌, refl, arith, inl, inr, Bool-cases, Option-cases,
  ==_iff,
}
use colony_agents.Prelude.Table.{Table, get, get-put, member}
use colony_agents.World.{World, Mission, lifecycle}
use colony_agents.Mission.Lifecycle.{resume, LifecycleAction, value}
use colony_agents.Mission.Service.{
  Result, ok, no_such_mission, illegal, apply, force_target, write, updated,
}
use colony_agents.Mission.Service.Writes.{apply_absent, apply_forced}
use colony_agents.Optimize.Waiters.{waits_for, waiters, woken, wake, resume_waiters_for_capability}

module _ (pid j : ℕ) (action : LifecycleAction) (reason : Option Text) (w : World) where
  pub forced_row :
      (m : Mission)
      → get pid w.missions ≡ some m
      → get j (apply pid action reason true w).1.missions
        ≡ (if pid == j then some (updated m (force_target action) reason) else get j w.missions)
  unfolding write
  forced_row m e = rw (apply_forced pid action reason w m e) (get-put j pid _ w.missions)

  pub same_row :
      (m : Mission) → get pid w.missions ≡ some m → (pid == j) ≡ true → get j w.missions ≡ some m
  same_row m e s = let p : pid ≡ j = (==_iff pid j).0 s in rw (← p) e

  -- What a forced transition does to the lifecycle of any mission.
  pub forced_lifecycle : lifecycle j (apply pid action reason true w).1 ≡ (
      if pid == j && is_some (get j w.missions) then value (force_target action) else lifecycle j w)
  unfolding updated
  forced_lifecycle = elim (Option-cases (get pid w.missions)) [
    | inl e ↦ rw (apply_absent pid action reason w true e) (elim (Bool-cases (pid == j)) [
      | inl s ↦
          let p : pid ≡ j = (==_iff pid j).0 s in
          let n : get j w.missions ≡ none = rw (← p) e in rw (n, s) refl
      | inr n ↦ rw n refl
    ])
    | inr (m, e) ↦
        rw (forced_row m e)
          (elim (Bool-cases (pid == j)) [ inl s ↦ rw (s, same_row m e s) refl | inr n ↦ rw n refl ])
  ]

  pub forced_stored :
      is_some (get j (apply pid action reason true w).1.missions) ≡ is_some (get j w.missions)
  forced_stored = elim (Option-cases (get pid w.missions)) [
    | inl e ↦ rw (apply_absent pid action reason w true e) refl
    | inr (m, e) ↦
        rw (forced_row m e)
          (elim (Bool-cases (pid == j)) [ inl s ↦ rw (s, same_row m e s) refl | inr n ↦ rw n refl ])
  ]

module _ (capability : Text) where
  -- The task that `woken` spawns is no change of the missions.
  pub woken-missions : (pid : ℕ) (r : Result × World) → (woken pid r).1.missions ≡ r.1.missions
  woken-missions pid (ok l, w) = refl
  woken-missions pid (no_such_mission, w) = refl
  woken-missions pid (illegal l a, w) = refl

  abbrev pub resumed : ℕ → World → Result × World
  resumed pid w = apply pid resume (some (codes "worker_fixed:" ++ capability)) true w

  after_first :
      (j pid : ℕ) (known : Bool) (w : World)
      → (if known && is_some (get j (resumed pid w).1.missions)
          then "running"
          else lifecycle j (resumed pid w).1)
        ≡ (if (pid == j || known) && is_some (get j w.missions) then "running" else lifecycle j w)
  unfolding force_target
  after_first j pid known w =
      rw
        (
          forced_stored pid j resume (some (codes "worker_fixed:" ++ capability)) w,
          forced_lifecycle pid j resume (some (codes "worker_fixed:" ++ capability)) w,
        )
        (ground arith)

  wake_lem :
      (j : ℕ) (pids : List ℕ) (w : World)
      → lifecycle j (wake capability pids w).1
        ≡ (if member j pids && is_some (get j w.missions) then "running" else lifecycle j w)
  unfolding wake member
  wake_lem j [] w = refl
  wake_lem j (pid ∷ pids) w =
      rw (wake_lem j pids (woken pid (resumed pid w)).1, woken-missions pid (resumed pid w))
        (after_first j pid (member j pids) w)

  member-select :
      (j : ℕ) (t s : Table Mission)
      → member j
          (select (λ pid. waits_for capability (get pid s)) (map (λ (row : ℕ × Mission). row.0) t))
        ≡ (waits_for capability (get j s) && is_some (get j t))
  unfolding member get
  member-select j [] s = ground arith
  member-select j ((i, m) ∷ t) s = elim (Bool-cases (i == j)) [
    | inl e ↦
        let p : i ≡ j = (==_iff i j).0 e in
        elim (Bool-cases (waits_for capability (get j s))) [
          | inl y ↦ rw (p, y) (ground arith)
          | inr n ↦ rw (p, n, member-select j t s, n) refl
        ]
    | inr e ↦ elim (Bool-cases (waits_for capability (get i s))) [
      | inl y ↦ rw (y, e) (member-select j t s)
      | inr n ↦ rw (n, e) (member-select j t s)
    ]
  ]

  waits_stored :
      (row : Option Mission) → (waits_for capability row && is_some row) ≡ waits_for capability row
  unfolding waits_for
  waits_stored none = refl
  waits_stored (some m) = ground arith

  member-waiters :
      (j : ℕ) (t : Table Mission)
      → (member j (waiters capability t) && is_some (get j t)) ≡ waits_for capability (get j t)
  unfolding waiters
  member-waiters j t = rw (member-select j t t, waits_stored (get j t), waits_stored (get j t)) refl

  -- Every mission that waits for the worker runs after its waiters are resumed, and every other one
  -- keeps its lifecycle.
  pub resumed_lifecycle :
      (j : ℕ) (w : World)
      → is_nil capability ≡ false
      → lifecycle j (resume_waiters_for_capability capability w).1
        ≡ (if waits_for capability (get j w.missions) then "running" else lifecycle j w)
  unfolding resume_waiters_for_capability
  resumed_lifecycle j w h =
      rw (h, wake_lem j (waiters capability w.missions) w, member-waiters j w.missions) refl
