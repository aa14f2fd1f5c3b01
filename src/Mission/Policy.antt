-- ===== src/Mission/Policy.antt =====
-- backend/app/domain/tick_policy.py: the rules at the boundary of a tick.
use colony_agents.Prelude.{
  ℕ, Text, String, Bool, true, false, not, ◌&&◌, Option, none, List, [], ◌∷◌, ◌≡◌, refl, arith,
  str_eq, any, is_some, ltb, leb, if◌then◌else◌,
}
use colony_agents.Mission.Lifecycle.{Lifecycle, stopped, running, value, is_alive}

unfoldable pub should_trigger_now : Bool → String → Bool
should_trigger_now is_running runtime_status = not is_running && str_eq runtime_status "running"

abbrev pub paused_for_human : List String
paused_for_human = "paused_clarification" ∷ "paused_waiting_capability" ∷ []

abbrev pub no_drain : List String
no_drain = "paused_clarification" ∷ "paused_waiting_capability" ∷ "stopped" ∷ "error" ∷ []

-- lifecycle_status in _NO_DRAIN
abbrev pub is_in : String → List String → Bool
is_in s = any (λ t. str_eq t s)

unfoldable pub should_drain_after_tick : ℕ → String → Bool
should_drain_after_tick pending_count lifecycle_status =
    if is_in lifecycle_status no_drain then false else ltb 0 pending_count

unfoldable pub should_pause_idle_after_tick : Option Text → String → ℕ → Bool
should_pause_idle_after_tick err_msg lifecycle_status external_pending =
    if is_some err_msg
    then false
    else if not (str_eq lifecycle_status "running")
    then false
    else leb external_pending 0

unfoldable pub should_run_on_schedule : String → Bool
should_run_on_schedule lifecycle_status = not (is_in lifecycle_status no_drain)

-- Seconds are counted in whole units here.
unfoldable pub tick_wallclock_exceeded : ℕ → ℕ → Bool
tick_wallclock_exceeded elapsed_s cap_s = ltb 0 cap_s && leb cap_s elapsed_s

-- After a tick without an error, a running mission either drains its queue or goes idle, and never
-- both; a mission in no state but `running` never goes idle.
pub drain_xor_idle :
    (l : Lifecycle) (pending : ℕ)
    → should_pause_idle_after_tick none (value l) pending ≡ (
        if str_eq (value l) "running"
        then not (should_drain_after_tick pending (value l))
        else false)
unfolding should_pause_idle_after_tick should_drain_after_tick
drain_xor_idle running pending = ground arith
drain_xor_idle _ pending = refl

-- The scheduler runs the live missions but those that wait for a human, and, of the dead ones, one
-- that is `stopping`.
pub schedule_gate :
    (l : Lifecycle)
    → should_run_on_schedule (value l) ≡ (
        if str_eq (value l) "stopping"
        then true
        else is_alive l && not (is_in (value l) paused_for_human))
unfolding should_run_on_schedule is_alive
schedule_gate stopped = refl
schedule_gate _ = refl
