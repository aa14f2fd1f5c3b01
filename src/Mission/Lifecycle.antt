-- ===== src/Mission/Lifecycle.antt =====
-- backend/app/domain/lifecycle.py: the state machine of a mission, as a table and two queries.
pub mod Graph
use colony_agents.Prelude.{
  Bool, true, false, Option, none, some, String, List, [], ◌∷◌, str_eq, ◌≡◌, refl, find, is_some,
}

pub data Lifecycle : Type 0 where
  stopped starting running paused_waiting_capability : Lifecycle
  paused_clarification paused_idle stopping error : Lifecycle

pub data LifecycleAction : Type 0 where
  start stop pause_for_capability pause_for_clarification pause_idle : LifecycleAction
  resume resolve_clarification restart exception : LifecycleAction

-- Lifecycle(...).value
abbrev pub value : Lifecycle → String
value stopped = "stopped"
value starting = "starting"
value running = "running"
value paused_waiting_capability = "paused_waiting_capability"
value paused_clarification = "paused_clarification"
value paused_idle = "paused_idle"
value stopping = "stopping"
value error = "error"

abbrev pub members : List Lifecycle
members =
    stopped ∷ starting ∷ running ∷ paused_waiting_capability ∷ paused_clarification ∷ paused_idle
    ∷ stopping ∷ error ∷ []

-- The enum's call, `Lifecycle(raw)`: `none` is its ValueError.
unfoldable pub from_value : String → Option Lifecycle
from_value raw = find (λ l. str_eq (value l) raw) members

-- `_TRANSITIONS[current].get(action)`
unfoldable pub transition_target : Lifecycle → LifecycleAction → Option Lifecycle
transition_target stopped start = some running
transition_target stopped restart = some running
transition_target starting start = some running
transition_target starting stop = some stopped
transition_target starting exception = some error
transition_target running stop = some stopped
transition_target running pause_for_capability = some paused_waiting_capability
transition_target running pause_for_clarification = some paused_clarification
transition_target running pause_idle = some paused_idle
transition_target running exception = some error
transition_target running restart = some running
transition_target paused_idle start = some running
transition_target paused_idle resume = some running
transition_target paused_idle stop = some stopped
transition_target paused_waiting_capability resume = some running
transition_target paused_waiting_capability stop = some stopped
transition_target paused_clarification resolve_clarification = some running
transition_target paused_clarification stop = some stopped
transition_target stopping stop = some stopped
transition_target error restart = some running
transition_target error stop = some stopped
transition_target _ _ = none

-- What `transition` returns, or the InvalidLifecycleTransition that it raises.
pub data Outcome : Type 0 where
  moved : Lifecycle → Outcome
  invalid_transition : Lifecycle → LifecycleAction → Outcome

abbrev outcome_of : Lifecycle → LifecycleAction → Option Lifecycle → Outcome
outcome_of current action none = invalid_transition current action
outcome_of current action (some target) = moved target

unfoldable pub transition : Lifecycle → LifecycleAction → Outcome
unfolding transition_target
transition current action = outcome_of current action (transition_target current action)

unfoldable pub is_alive : Lifecycle → Bool
is_alive starting = true
is_alive running = true
is_alive paused_waiting_capability = true
is_alive paused_clarification = true
is_alive paused_idle = true
is_alive _ = false

unfoldable pub can_trigger_tick : Lifecycle → Bool
can_trigger_tick running = true
can_trigger_tick _ = false

-- A stored value is read back as the state that wrote it.
pub from_value-value : (l : Lifecycle) → from_value (value l) ≡ some l
unfolding from_value
from_value-value stopped = refl
from_value-value starting = refl
from_value-value running = refl
from_value-value paused_waiting_capability = refl
from_value-value paused_clarification = refl
from_value-value paused_idle = refl
from_value-value stopping = refl
from_value-value error = refl
