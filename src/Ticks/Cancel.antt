-- ===== src/Ticks/Cancel.antt =====
-- What a cancel signal of backend/app/services/tick_lifecycle.py reaches.
use colony_agents.Prelude.{
  ℕ, ◌-◌, ◌≤◌, Bool, true, false, some, none, List, [], ◌∷◌, ◌++◌, length, length-drop, ◌≡◌, refl,
  ◌≢◌, arith, or_else, ==_iff, ◌∙◌, Option,
}
use colony_agents.Prelude.Table.{Table, get, get-put_self, get-put_ne}
use colony_agents.World.{World}
use colony_agents.Ticks.{
  with_event, cleared, register_task, signal, is_set, is_running, cancel_current_tick, Wait,
  wait_for, cancel_task, is_task, self_signal, no_running_tick, remember, burst_history,
}

pub length-remember : (now : ℕ) (history : List ℕ) → length (remember now history) ≤ burst_history
unfolding remember
length-remember now history =
    omega (arith, length-drop (length (history ++ (now ∷ [])) - 20) (history ++ (now ∷ [])))

get-cleared_self :
    (pid : ℕ) (events : Table Bool) → or_else (get pid (cleared pid events)) false ≡ false
unfolding cleared
get-cleared_self pid events = ground (arith, get-put_self pid false events)

get-with_event_ne :
    (j pid : ℕ) (events : Table Bool) → j ≢ pid → get j (with_event pid events) ≡ get j events
unfolding with_event
get-with_event_ne j pid events h = ground (arith, get-put_ne j pid false events h)

get-cleared_ne :
    (j pid : ℕ) (events : Table Bool) → j ≢ pid → get j (cleared pid events) ≡ get j events
unfolding cleared
get-cleared_ne j pid events h = ground (arith, get-put_ne j pid false events h)

module _ (pid : ℕ) (w : World) where
  pub register_clears : (task : ℕ × Bool) → is_set pid (register_task pid task w) ≡ false
  unfolding register_task
  register_clears task = get-cleared_self pid (with_event pid w.cancel_events)

  pub register_others :
      (task : ℕ × Bool) (j : ℕ) → j ≢ pid → is_set j (register_task pid task w) ≡ is_set j w
  unfolding register_task
  register_others task j h = rw (
    get-cleared_ne j pid (with_event pid w.cancel_events) h,
    get-with_event_ne j pid w.cancel_events h,
  )

  pub signal_sets : is_set pid (signal pid w) ≡ true
  unfolding signal
  signal_sets = rw get-put_self

  pub signal_others : (j : ℕ) → j ≢ pid → is_set j (signal pid w) ≡ is_set j w
  unfolding signal
  signal_others j h = rw (
    get-put_ne j pid true (with_event pid w.cancel_events) h,
    get-with_event_ne j pid w.cancel_events h,
  )

registered :
    (pid : ℕ) (task : ℕ × Bool) (w : World)
    → get pid (register_task pid task w).running_ticks ≡ some task
unfolding register_task
registered pid task w = get-put_self pid task w.running_ticks

cancel_self :
    (pid task : ℕ) (wait : Wait) (w : World)
    → get pid w.running_ticks ≡ some (task, false)
    → cancel_current_tick pid (some task) wait w ≡ (self_signal, signal pid w)
unfolding cancel_current_tick
cancel_self pid task wait w e = rw (e, (==_iff task task).1 refl)

pub cancel_idle :
    (pid : ℕ) (current : Option ℕ) (wait : Wait) (w : World)
    → is_running pid w ≡ false
    → cancel_current_tick pid current wait w ≡ (no_running_tick, w)
unfolding cancel_current_tick is_running
cancel_idle pid current wait w h = ground arith

-- What holds before a cancel, and is kept by the signal and by the other tasks, holds after it.
module _ (P : World → Type 0) (pid : ℕ) (current : Option ℕ) (wait : Wait)
    (keeps_signal : (v : World) → P v → P (signal pid v))
    (keeps_others : (v : World) → P v → P (wait.others v)) where
  wait_keeps : (own : Bool) (w : World) → P w → P (wait_for pid own wait w).1
  wait_keeps true w h = keeps_signal w h
  wait_keeps false w h = keeps_others (signal pid w) (keeps_signal w h)

  task_keeps : (w : World) (t : Option (ℕ × Bool)) → P w → P (cancel_task pid current wait w t).1
  task_keeps w none h = h
  task_keeps w (some (task, true)) h = h
  task_keeps w (some (task, false)) h = wait_keeps (is_task current task) w h

  pub cancel_keeps : (w : World) → P w → P (cancel_current_tick pid current wait w).1
  unfolding cancel_current_tick
  cancel_keeps w h = task_keeps w (get pid w.running_ticks) h

-- A tick that registers itself starts with a clear event, even where a cancel of an earlier tick
-- set it; a cancel that this tick makes of its own mission returns at once, sets this mission's event, and
-- leaves every other mission's event alone.
pub self_cancel :
    (pid task j : ℕ) (wait : Wait) (w : World)
    → j ≢ pid
    → let registered = register_task pid (task, false) w in
      let after = cancel_current_tick pid (some task) wait registered in
      (is_running pid registered ≡ true)
      × (is_set pid registered ≡ false)
      × (after.0 ≡ self_signal)
      × (is_set pid after.1 ≡ true)
      × (is_set j after.1 ≡ is_set j w)
unfolding is_running
self_cancel pid task j wait w h =
    let t : ℕ × Bool = (task, false) in
    let r = register_task pid t w in
    rw (cancel_self pid task wait r (registered pid t w), registered pid t w)
      (
        refl,
        register_clears pid w t,
        refl,
        signal_sets pid r,
        signal_others pid r j h ∙ register_others pid w t j h,
      )
