-- ===== src/Mission/Service/Writes.antt =====
-- What `LifecycleService.transition` of backend/app/domain/lifecycle_service.py writes.
use colony_agents.Prelude.{
  ℕ, Text, Option, none, some, Bool, true, false, ◌≡◌, refl, ◌≢◌, arith, str_eq,
}
use colony_agents.Prelude.Table.{get, get-put_self, get-put_ne}
use colony_agents.World.{Mission, World}
use colony_agents.Mission.Lifecycle.{
  Lifecycle, stopped, stopping, error, LifecycleAction, value, is_alive, transition, Outcome,
}
use colony_agents.Mission.Service.{
  ok, no_such_mission, illegal, current_of, runtime_for, reason_for, updated, write, apply,
  force_target, commit, decide, transition_row,
}

-- The runtime column is a view of the lifecycle: `running` for the live states alone.
runtime_for_alive : (l : Lifecycle) → str_eq (runtime_for l) "running" ≡ is_alive l
unfolding runtime_for is_alive
runtime_for_alive stopped = refl
runtime_for_alive stopping = refl
runtime_for_alive error = refl
runtime_for_alive _ = refl

-- A mission's row after an accepted transition into `target`.
pub record IsRowOf (target : Lifecycle) (reason : Option Text) (m : Mission) : Type 0 where
  pub lifecycle : m.lifecycle_status ≡ value target
  pub runtime : str_eq m.runtime_status "running" ≡ is_alive target
  pub gated : m.paused_reason ≡ reason_for target reason

module _ (pid : ℕ) (action : LifecycleAction) (reason : Option Text) (w : World) where
  pub apply_absent :
      (force : Bool)
      → get pid w.missions ≡ none
      → apply pid action reason force w ≡ (no_such_mission, w)
  unfolding apply
  apply_absent force e = rw e

  pub apply_forced :
      (m : Mission)
      → get pid w.missions ≡ some m
      → apply pid action reason true w
        ≡ (ok (force_target action), write pid m action reason (force_target action) w)
  unfolding apply
  apply_forced m e = rw e

  pub apply_moved :
      (m : Mission) (target : Lifecycle)
      → get pid w.missions ≡ some m
      → transition (current_of m) action ≡ Outcome.moved target
      → apply pid action reason false w ≡ (ok target, write pid m action reason target w)
  unfolding apply
  apply_moved m target e t = rw (e, t)

  pub apply_refused :
      (m : Mission) (l : Lifecycle) (a : LifecycleAction)
      → get pid w.missions ≡ some m
      → transition (current_of m) action ≡ Outcome.invalid_transition l a
      → apply pid action reason false w ≡ (illegal l a, w)
  unfolding apply
  apply_refused m l a e t = rw (e, t)

module _ (pid : ℕ) (action : LifecycleAction) (reason : Option Text) (w : World) (m : Mission)
    (stored : get pid w.missions ≡ some m) where
  apply_written :
      (force : Bool) (target : Lifecycle)
      → (apply pid action reason force w).0 ≡ ok target
      → (apply pid action reason force w).1 ≡ write pid m action reason target w
  unfolding apply
  apply_written true target h = ground arith
  apply_written false target h = ground arith

  -- A call without force that returns a state, of a mission whose row is there, made exactly the
  -- write of that state, and the state machine allowed it.
  pub apply_accepted :
      (target : Lifecycle)
      → (apply pid action reason false w).0 ≡ ok target
      → ((apply pid action reason false w).1 ≡ write pid m action reason target w)
        × (transition (current_of m) action ≡ Outcome.moved target)
  unfolding apply
  apply_accepted target h = (ground arith, ground arith)

  -- Whatever the action and the force, an accepted call, of a mission whose row is there, leaves the
  -- mission's row in the form of its new state, and every other mission's row as it was.
  pub apply-IsRowOf :
      (force : Bool) (target : Lifecycle) (j : ℕ)
      → (apply pid action reason force w).0 ≡ ok target
      → j ≢ pid
      → (row : Mission) × (get pid (apply pid action reason force w).1.missions ≡ some row)
        × IsRowOf target reason row
        × (get j (apply pid action reason force w).1.missions ≡ get j w.missions)
  unfolding write updated
  apply-IsRowOf force target j h other = rw (apply_written force target h) (
    updated m target reason,
    get-put_self pid _ w.missions,
    record { lifecycle = refl; runtime = runtime_for_alive target; gated = refl },
    get-put_ne j pid _ w.missions other,
  )

-- What holds before a transition, and after each write that it can make, holds after it.
module _ (P : World → Type 0) (pid : ℕ) (action : LifecycleAction) (reason : Option Text)
    (w : World) (before : P w)
    (written : (m : Mission) (target : Lifecycle) → P (write pid m action reason target w)) where
  commit_keeps : (m : Mission) (o : Outcome) → P (commit pid m action reason w o).1
  commit_keeps m (Outcome.moved target) = written m target
  commit_keeps m (Outcome.invalid_transition l a) = before

  row_keeps :
      (force : Bool) (row : Option Mission) → P (transition_row pid action reason force row w).1
  unfolding transition_row
  row_keeps force none = before
  row_keeps force (some m) = commit_keeps m (decide action force (current_of m))

  pub apply_keeps : (force : Bool) → P (apply pid action reason force w).1
  unfolding apply
  apply_keeps force = row_keeps force (get pid w.missions)
