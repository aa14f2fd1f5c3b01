-- ===== src/Optimize/Close.antt =====
-- The end of a work order, in backend/app/services/worker_optimization_service.py: the soft close,
-- the cap on its ticks, and the order to go on.
use colony_agents.Prelude.{
  ℕ, String, Text, codes, Bool, true, false, ◌&&◌, ◌||◌, not, Option, none, some, List, [], ◌∷◌,
  ◌++◌, is_nil, length, select, str_eq, ◌==◌, ltb, if◌then◌else◌,
}
use colony_agents.Prelude.Table.{get, put}
use colony_agents.World.{World, Mission, PendingApproval, text}
use colony_agents.Mission.Lifecycle.{stop}
use colony_agents.Mission.Service.{apply}
use colony_agents.Queue
use colony_agents.Queue.{enqueue_user_message}
use colony_agents.Optimize.{Desk, work_order_capability, drop_mission_schedules}
use colony_agents.Optimize.Waiters.{resume_waiters_for_capability}

pub data Outcome : Type 0 where
  fixed not_fixable capped : Outcome

pub data Closed : Type 0 where
  no_such_mission not_a_work_order : Closed
  closed : (outcome : Outcome) (capability : Text) (woke_waiters : ℕ) → Closed

abbrev pub outcome_text : Outcome → String
outcome_text fixed = "fixed"
outcome_text not_fixable = "not_fixable"
outcome_text capped = "capped"

-- mission.status = "archived", on the row as it is now.
unfoldable pub archive : ℕ → World → World
archive pid w = elim (get pid w.missions) [
  | none ↦ w
  | some m ↦ record w { missions = put pid (record m { status = "archived" }) w.missions }
]

-- The stop and the archiving.
unfoldable pub settled : ℕ → Outcome → World → World
unfolding archive
settled pid outcome w =
    archive pid
      (apply pid stop (some (codes "work_order_done:" ++ codes (outcome_text outcome))) true w).1

abbrev pub close_row : ℕ → Outcome → Option Mission → Desk → Closed × Desk
close_row pid outcome none d = (no_such_mission, d)
close_row pid outcome (some m) d =
    let capability = work_order_capability m in
    let (n, w) = resume_waiters_for_capability capability (settled pid outcome d.world) in
    if is_nil capability then (not_a_work_order, d) else (
      closed outcome capability n,
      record { schedules = drop_mission_schedules pid d.schedules; world = w },
    )

-- The three outcomes are those that wake the waiters.
unfoldable pub close_work_order : ℕ → Outcome → Desk → Closed × Desk
close_work_order pid outcome d = close_row pid outcome (get pid d.world.missions) d

abbrev pub is_open_order : Option Mission → Bool
is_open_order none = false
is_open_order (some m) = not (is_nil (work_order_capability m)) && not (str_eq m.status "archived")

-- A cap of zero is no cap.
unfoldable pub maybe_cap_work_order : (pid run_count max_ticks : ℕ) → Desk → Bool × Desk
maybe_cap_work_order pid run_count max_ticks d =
    if max_ticks == 0 || ltb run_count max_ticks
    then (false, d)
    else if is_open_order (get pid d.world.missions)
    then (true, (close_work_order pid capped d).1)
    else (false, d)

pub data Continued : Type 0 where
  pending_human_approval mission_missing not_a_work_order enqueued : Continued

unfoldable pub undecided : ℕ → World → List PendingApproval
undecided pid w =
    select (λ (a : PendingApproval). (a.mission_id == pid) && str_eq a.status "pending") w.approvals

module _ (o : Queue.Outside) (max_pending max_content_kb : ℕ) where
  abbrev continue_order : ℕ → Mission → World → Option ℕ → Continued × World
  continue_order pid m w none = (mission_missing, w)
  continue_order pid m w (some agent) =
      let (answer, w') =
        enqueue_user_message o pid agent
          (codes "[续跑] 当前 worker 优化尚未完成，请继续逐步推进；完成后调 optimization_done。")
          (("type", text (codes "optimization_continue")) ∷ []) max_pending max_content_kb w in
      if is_nil (work_order_capability m) then (not_a_work_order, w) else (enqueued, w')

  abbrev continue_row : ℕ → World → Option Mission → Continued × World
  continue_row pid w none = (mission_missing, w)
  continue_row pid w (some m) = continue_order pid m w m.supervisor_agent_id

  -- `enqueue_continue`: the queue's answer is not looked at.
  unfoldable pub enqueue_continue : ℕ → World → Continued × World
  enqueue_continue pid w =
      if ltb 0 (length (undecided pid w))
      then (pending_human_approval, w)
      else continue_row pid w (get pid w.missions)
