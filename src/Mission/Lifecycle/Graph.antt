-- ===== src/Mission/Lifecycle/Graph.antt =====
-- Which states a mission can reach through `transition` of backend/app/domain/lifecycle.py.
use colony_agents.Prelude.{◌≡◌, refl, ◌≢◌, ◌↔◌, arith}
use colony_agents.Mission.Lifecycle.{
  Lifecycle, stopped, starting, running, paused_waiting_capability, paused_clarification,
  paused_idle, stopping, error, LifecycleAction, start, pause_for_capability,
  pause_for_clarification, pause_idle, exception, transition, moved,
}

pub data Reach (s : Lifecycle) : Lifecycle → Type 0 where
  here : Reach s s
  next : {t u : Lifecycle} (a : LifecycleAction) → Reach s t → transition t a ≡ moved u → Reach s u

-- The states that no accepted action leads to.
pub record IsSettled (l : Lifecycle) : Type 0 where
  pub not_starting : l ≢ starting
  pub not_stopping : l ≢ stopping

transition-IsSettled :
    (t : Lifecycle) (a : LifecycleAction) {u : Lifecycle} → transition t a ≡ moved u → IsSettled u
unfolding transition
transition-IsSettled t a h = ground arith

Reach-IsSettled : {s l : Lifecycle} → IsSettled s → Reach s l → IsSettled l
Reach-IsSettled h here = h
Reach-IsSettled h (next {t = t} a r e) = transition-IsSettled t a e

stopped-IsSettled : IsSettled stopped
stopped-IsSettled = ground arith

-- One accepted action from a stopped mission.
to_running : Reach stopped running
unfolding transition
to_running = next start here refl

settled_reachable : (l : Lifecycle) → IsSettled l → Reach stopped l
unfolding transition
settled_reachable stopped h = here
settled_reachable starting h = absurd (h.not_starting refl)
settled_reachable running h = to_running
settled_reachable paused_waiting_capability h = next pause_for_capability to_running refl
settled_reachable paused_clarification h = next pause_for_clarification to_running refl
settled_reachable paused_idle h = next pause_idle to_running refl
settled_reachable stopping h = absurd (h.not_stopping refl)
settled_reachable error h = next exception to_running refl

-- Starting from a stopped mission, the accepted actions lead to a state exactly when it is neither
-- `starting` nor `stopping`.
pub Reach-iff_IsSettled : (l : Lifecycle) → Reach stopped l ↔ IsSettled l
Reach-iff_IsSettled l = (Reach-IsSettled stopped-IsSettled, settled_reachable l)
