-- ===== src/Daemon/Tick/Run.antt =====
-- `run_once` and `_run_once_body` of backend/app/services/mission_daemon.py. What the tick calls in
-- the other parts of the program is a field of `Parts`: a function on the world, with what it
-- returns. A write to the database that fails is not modelled, nor so the handlers for it.
use colony_agents.Prelude.{
  ℕ, ◌+◌, String, Text, codes, Bool, true, false, not, ◌||◌, Option, none, some, is_some, List, [],
  ◌∷◌, ◌++◌, str_eq, if◌then◌else◌, or_text, contains, str,
}
use colony_agents.Prelude.Table.{get, member, discard}
use colony_agents.World.{World, Mission, RunState, PendingMessage, lifecycle}
use colony_agents.Mission.Lifecycle.{stop as stop_action, pause_idle}
use colony_agents.Mission.Service.{apply}
use colony_agents.Mission.Policy.{should_pause_idle_after_tick}
use colony_agents.Queue.{pop_pending_messages, count_pending}
use colony_agents.Ticks.{register_task, unregister_task, get_cancel_event}
use colony_agents.Daemon.State.{run_state, edit_run_state, clip_step}
use colony_agents.Daemon.Tick.{
  Payload, is_trigger, Skip, gate, token_guard, pending_approval, should_skip_tick,
}

-- How `build_agent_executor` ends.
pub data Built : Type 0 where
  built no_llm : Built
  build_fails : Text → Built

-- How the agent's turn ends: with its last reply, cancelled, or with an exception.
pub data Turn : Type 0 where
  ends : Option Text → Turn
  is_cancelled : Turn
  raises : Text → Turn

pub record Parts : Type 0 where
  pub max_ticks : ℕ
  pub work_order_max_ticks : ℕ
  -- worker_health_service.run_health_tick, and its result printed
  pub run_health_tick : World → Text × World
  pub agent_exists : Option ℕ → Bool
  pub maybe_compress_context : ℕ → World → World
  pub build_agent_executor : ℕ → World → Built
  -- The prompt is made of the payload, the popped messages and the run state.
  pub drive : ℕ → Payload → List PendingMessage → RunState → World → Turn × World
  pub maybe_finalize_after_builder_tick : ℕ → World → World
  pub maybe_cap_work_order : ℕ → (run_count max_ticks : ℕ) → World → World

-- The dictionaries that `run_once` returns, and the errors that it raises.
pub data Ticked : Type 0 where
  tick_in_progress : Ticked
  health_scan : Text → Ticked
  skipped : (status : String) (reason : Text) → Ticked
  token_guard_auto_stop : (ticks : ℕ) → Ticked
  pending_approval_exists : (pending_count : ℕ) → Ticked
  no_llm_configured : (run_count : ℕ) → Ticked
  build_failed : (error : Text) (run_count : ℕ) → Ticked
  ran : (ok : Bool) (run_count : ℕ) (final_text error : Option Text) (cancelled : Bool) → Ticked
  no_such_mission no_such_supervisor : Ticked
  not_running : (runtime_status : String) → Ticked

abbrev pub counted : RunState → RunState
counted rs = record rs { run_count = rs.run_count + 1 }

-- run_count += 1, the step and the heartbeat.
abbrev pub count_tick : ℕ → Option Text → World → World
count_tick pid step w =
    edit_run_state pid
      (λ rs. record (counted rs) {
        current_step = if is_some step then step else rs.current_step;
        last_heartbeat_at = some w.clock;
      })
      w

-- The step and the heartbeat.
abbrev pub set_step : ℕ → Text → World → World
set_step pid step w =
    edit_run_state pid
      (λ rs. record rs { current_step = some step; last_heartbeat_at = some w.clock }) w

abbrev pub set_error : ℕ → Text → World → World
set_error pid message w =
    edit_run_state pid (λ rs. record rs { last_error = some message; current_step = none }) w

abbrev err_msg_of : Turn → Option Text
err_msg_of (ends final_text) = none
err_msg_of is_cancelled = some (codes "cancelled_by_user_chat")
err_msg_of (raises e) = some (codes "invoke: " ++ e)

abbrev final_text_of : Turn → Option Text
final_text_of (ends final_text) = final_text
final_text_of _ = none

-- "cancelled" in err_msg
abbrev says_cancelled : Option Text → Bool
says_cancelled none = false
says_cancelled (some err_msg) = contains (codes "cancelled") err_msg

abbrev pub settle : Option Text → ℕ → RunState → RunState
settle none now rs = record rs {
  last_heartbeat_at = some now;
  last_error = none;
  current_step = some (codes "completed run_count=" ++ str rs.run_count);
}
settle (some err_msg) now rs = record rs {
  last_heartbeat_at = some now;
  last_error = some err_msg;
  current_step =
      some (if contains (codes "cancelled") err_msg then codes "cancelled" else codes "error");
}

abbrev pub token_reason : (ticks max : ℕ) → Text
token_reason ticks max = codes "token_guard: ticks=" ++ (str ticks ++ (codes ">=" ++ str max))

abbrev pub phase_done : Text
phase_done = codes "阶段完成"

abbrev pub no_supervisor : Option ℕ → Text
no_supervisor none = codes "supervisor_agent_id=None 不存在"
no_supervisor (some agent) = codes "supervisor_agent_id=" ++ (str agent ++ codes " 不存在")

-- `task` is the task that runs the tick, asyncio.current_task().
module _ (parts : Parts) (pid task : ℕ) (p : Payload) where
  open parts use {
    max_ticks, work_order_max_ticks, run_health_tick, agent_exists, maybe_compress_context,
    build_agent_executor, drive, maybe_finalize_after_builder_tick, maybe_cap_work_order,
  }

  -- PAUSE_IDLE where the policy says so.
  unfoldable pub pause_idle_after : Option Text → World → World
  pause_idle_after err_msg w =
      if should_pause_idle_after_tick err_msg (lifecycle pid w) (count_pending pid w)
      then (apply pid pause_idle (some phase_done) false w).1
      else w

  -- From the end of the turn to the end of the tick.
  unfoldable pub close : Option Text → World → World
  unfolding pause_idle_after
  close err_msg w =
      let settled = edit_run_state pid (settle err_msg w.clock) w in
      if is_some err_msg
      then pause_idle_after err_msg settled
      else maybe_cap_work_order pid (run_state pid settled).run_count work_order_max_ticks
          (pause_idle_after err_msg (maybe_finalize_after_builder_tick pid settled))

  abbrev pub turn_result : Turn × World → Ticked × World
  turn_result (turn, w) =
      let err_msg = err_msg_of turn in
      (
        ran (not (is_some err_msg) || says_cancelled err_msg) (run_state pid w).run_count
            (final_text_of turn) err_msg (says_cancelled err_msg),
        close err_msg (unregister_task pid w),
      )

  -- The tick of a supervisor that is there, from the registration of its task.
  abbrev pub with_executor : List PendingMessage → RunState → World → Built → Ticked × World
  with_executor messages rs w built = turn_result (drive pid p messages rs w)
  with_executor messages rs w no_llm =
      (no_llm_configured (run_state pid w).run_count, set_error pid (codes "no_llm_configured") w)
  with_executor messages rs w (build_fails e) =
      (build_failed e (run_state pid w).run_count, set_error pid (codes "build_executor: " ++ e) w)

  unfoldable pub supervise : List PendingMessage → RunState → World → Ticked × World
  unfolding close
  supervise messages rs w =
      let registered = get_cancel_event pid (register_task pid (task, false) w) in
      let w' = maybe_compress_context pid (set_step pid (codes "supervisor invoking") registered) in
      with_executor messages rs w' (build_agent_executor pid w')

  -- A tick that no guard stops.
  unfoldable pub tick : Mission → World → Ticked × World
  unfolding supervise
  tick m w =
      let loading = count_tick pid (some (codes "loading supervisor")) w in
      let (messages, popped) = pop_pending_messages pid loading in
      if agent_exists m.supervisor_agent_id
      then supervise messages (run_state pid popped) popped
      else (no_such_supervisor, set_error pid (no_supervisor m.supervisor_agent_id) popped)

  unfoldable pub guarded : Mission → World → Option Skip → Ticked × World
  unfolding tick clip_step
  guarded m w none = tick m w
  guarded m w (some (gate status reason)) = (
    skipped status (or_text m.paused_reason reason),
    count_tick pid
        (some
          (clip_step (codes "skip: " ++ (codes status ++ (codes " (" ++ (reason ++ codes ")"))))))
        w,
  )
  guarded m w (some (token_guard max ticks)) = (
    token_guard_auto_stop ticks,
    set_step pid (codes "auto-stop: dev.max_daemon_ticks=" ++ (str max ++ codes " reached"))
        (apply pid stop_action (some (token_reason ticks max)) true w).1,
  )
  guarded m w (some (pending_approval pending)) =
      (pending_approval_exists pending, count_tick pid none w)

  abbrev scan : World → Ticked × World
  scan w =
      let (res, w') = run_health_tick w in
      (health_scan res, count_tick pid (some (clip_step (codes "health_scan: " ++ res))) w')

  abbrev pub body_row : World → Option Mission → Ticked × World
  body_row w none = (no_such_mission, w)
  body_row w (some m) =
      if is_trigger p.trigger "worker_health_scan"
      then scan w
      else if not (str_eq m.runtime_status "running")
      then (not_running m.runtime_status, w)
      else guarded m w (should_skip_tick max_ticks pid p m w)

  unfoldable pub run_once_body : World → Ticked × World
  unfolding guarded
  run_once_body w = body_row w (get pid w.missions)

  abbrev released : Ticked × World → Ticked × World
  released (res, w) = (res, record w { ticking = discard pid w.ticking })

  unfoldable pub run_once : World → Ticked × World
  unfolding run_once_body
  run_once w =
      if member pid w.ticking
      then (tick_in_progress, w)
      else released (run_once_body (record w { ticking = w.ticking ++ (pid ∷ []) }))
