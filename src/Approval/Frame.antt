-- ===== src/Approval/Frame.antt =====
-- What the steps of backend/app/services/pending_approval_service.py keep, each as a rule on any
-- statement about the world that its writes keep.
use colony_agents.Prelude.{
  ℕ, Text, codes, Bool, false, Option, none, some, Bool-cases, inl, inr, str_eq, ◌||◌,
}
use colony_agents.World.{World, Mission}
use colony_agents.Mission.Lifecycle.{Lifecycle, LifecycleAction, pause_for_clarification}
use colony_agents.Mission.Service
use colony_agents.Mission.Service.{apply, write}
use colony_agents.Mission.Service.Writes.{apply_keeps}
use colony_agents.Ticks.{signal, finishes}
use colony_agents.Ticks.Cancel.{cancel_keeps}
use colony_agents.Approval.Cards.{
  Caller, lifecycle, then_cancel, pause_for_pending, resume_after_clarification,
}

-- A caller whose steps wait for nobody.
abbrev pub at_once : Caller
at_once = record { task = none; wait = record { others = λ v. v; ends = finishes } }

-- Each step that changes the world keeps `P`.
pub record Steady (P : World → Type 0) (c : Caller) : Type 0 where
  pub lifecycle_write :
      (pid : ℕ) (m : Mission) (a : LifecycleAction) (r : Option Text) (target : Lifecycle)
      (v : World)
      → P v
      → P (write pid m a r target v)
  pub on_signal : (pid : ℕ) (v : World) → P v → P (signal pid v)
  pub by_others : (v : World) → P v → P (c.wait.others v)

module _ {P : World → Type 0} {c : Caller} (s : Steady P c) (pid : ℕ) where
  apply_steady :
      (a : LifecycleAction) (r : Option Text) (force : Bool) (w : World)
      → P w
      → P (apply pid a r force w).1
  apply_steady a r force w h =
      apply_keeps P pid a r w h (λ m t. s.lifecycle_write pid m a r t w h) force

  then_cancel_steady : (res : Service.Result) (w : World) → P w → P (then_cancel pid c (res, w))
  then_cancel_steady (Service.ok t) w h =
      cancel_keeps P pid c.task c.wait (s.on_signal pid) s.by_others w h
  then_cancel_steady Service.no_such_mission w h = h
  then_cancel_steady (Service.illegal l a) w h = h

  pub pause_steady : (w : World) → P w → P (pause_for_pending pid c w)
  unfolding pause_for_pending
  pause_steady w h = elim (Bool-cases (str_eq (lifecycle pid w) "running")) [
    | inl e ↦
        let a = apply pid pause_for_clarification (some (codes "pending_approval")) false w in
        rw e (then_cancel_steady a.0 a.1 (apply_steady _ _ _ w h))
    | inr e ↦ rw e h
  ]

  pub resume_steady : (w : World) → P w → P (resume_after_clarification pid w)
  unfolding resume_after_clarification
  resume_steady w h =
      elim (Bool-cases (
        str_eq (lifecycle pid w) "paused_clarification"
        || str_eq (lifecycle pid w) "paused_waiting_capability")) [
          | inl e ↦ rw e (apply_steady _ _ _ w h)
          | inr e ↦ rw e h
        ]
