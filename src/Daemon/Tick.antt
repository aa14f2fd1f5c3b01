-- ===== src/Daemon/Tick.antt =====
-- The guards of a tick in backend/app/services/mission_daemon.py: `_is_auto_tick` and
-- `_should_skip_tick`.
pub mod Run
pub mod Guard
use colony_agents.Prelude.{
  ℕ, String, Text, codes, Bool, true, false, not, ◌&&◌, ◌||◌, Option, none, some, List, length,
  select, str_eq, ◌==◌, ltb, leb, if◌then◌else◌, or_text, starts_with, text_eq,
}
use colony_agents.World.{World, Mission, RunState, PendingApproval}
use colony_agents.Daemon.State.{run_state, edit_run_state}

-- The payload of a tick: its trigger, and the message that it brings.
pub record Payload : Type 0 where
  pub trigger : Option Text
  pub message : Option Text

unfoldable pub is_auto_tick : Option Text → Bool
is_auto_tick none = false
is_auto_tick (some trigger) =
    starts_with trigger (codes "cron")
    || starts_with trigger (codes "interval")
    || starts_with trigger (codes "event")
    || text_eq trigger (codes "initial_activation")

abbrev pub is_trigger : Option Text → String → Bool
is_trigger none s = false
is_trigger (some trigger) s = text_eq trigger (codes s)

-- The reasons of `_should_skip_tick` with their details.
pub data Skip : Type 0 where
  gate : String → Text → Skip
  token_guard : (max_ticks ticks : ℕ) → Skip
  pending_approval : ℕ → Skip

abbrev is_pending_of : ℕ → PendingApproval → Bool
is_pending_of pid a = (a.mission_id == pid) && str_eq a.status "pending"

unfoldable pub pending_count : ℕ → World → ℕ
pending_count pid w = length (select (is_pending_of pid) w.approvals)

abbrev pub approval_skip : Payload → ℕ → Option Skip
approval_skip p pending =
    if is_auto_tick p.trigger && not (is_trigger p.trigger "initial_activation") && ltb 0 pending
    then some (pending_approval pending)
    else none

-- `max_ticks` is the setting dev.max_daemon_ticks, and 0 where it cannot be read. The row of the
-- run state is created where the guard reads it.
unfoldable pub should_skip_tick : ℕ → ℕ → Payload → Mission → World → Option Skip
unfolding is_auto_tick pending_count
should_skip_tick max_ticks pid p m w =
    if str_eq m.lifecycle_status "paused_waiting_capability"
    then some
        (gate "paused_waiting_capability" (or_text m.paused_reason (codes "waiting capability")))
    else if str_eq m.lifecycle_status "paused_clarification"
    then some (gate "paused_clarification" (or_text m.paused_reason (codes "pending_approval")))
    else if str_eq m.lifecycle_status "stopped"
    then some (gate "stopped" (codes "stopped"))
    else if ltb 0 max_ticks && leb max_ticks (run_state pid w).run_count
    then some (token_guard max_ticks (run_state pid w).run_count)
    else approval_skip p (pending_count pid w)
