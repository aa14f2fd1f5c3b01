-- ===== src/Ticks.antt =====
-- backend/app/services/tick_lifecycle.py: which mission's tick runs in this process, and how it is
-- told to stop. A task is a number and a flag, whether it is done.
pub mod Cancel
use colony_agents.Prelude.{
  ℕ, ◌+◌, ◌-◌, Text, Bool, true, false, not, Option, none, some, List, [], ◌∷◌, ◌++◌, length, drop,
  select, leb, ◌==◌, if◌then◌else◌, or_else,
}
use colony_agents.Prelude.Table.{Table, get, put, remove}
use colony_agents.World.{World}

abbrev pub burst_history : ℕ
burst_history = 20

-- The mission's event, created where there is none.
unfoldable pub with_event : ℕ → Table Bool → Table Bool
with_event pid events = elim (get pid events) [ none ↦ put pid false events | some e ↦ events ]

unfoldable pub get_cancel_event : ℕ → World → World
unfolding with_event
get_cancel_event pid w = record w { cancel_events = with_event pid w.cancel_events }

-- get_cancel_event(pid).is_set()
abbrev pub is_set : ℕ → World → Bool
is_set pid w = or_else (get pid w.cancel_events) false

-- if ev.is_set(): ev.clear()
unfoldable pub cleared : ℕ → Table Bool → Table Bool
cleared pid events = if or_else (get pid events) false then put pid false events else events

unfoldable pub register_task : ℕ → ℕ × Bool → World → World
unfolding with_event cleared
register_task pid task w = record w {
  running_ticks = put pid task w.running_ticks;
  cancel_events = cleared pid (with_event pid w.cancel_events);
}

unfoldable pub unregister_task : ℕ → World → World
unregister_task pid w = record w { running_ticks = remove pid w.running_ticks }

abbrev pub runs : Option (ℕ × Bool) → Bool
runs none = false
runs (some (task, done)) = not done

unfoldable pub is_running : ℕ → World → Bool
is_running pid w = runs (get pid w.running_ticks)

-- How the wait for the cancelled task ends, with what the other tasks of the process do meanwhile.
pub data Waited : Type 0 where
  finishes : Waited
  times_out : (task_done : Bool) → Waited
  is_cancelled : Waited
  raises : Text → Waited

pub record Wait : Type 0 where
  pub others : World → World
  pub ends : Waited

-- The dictionary that `cancel_current_tick` returns.
pub data Cancelled : Type 0 where
  no_running_tick self_signal cooperative already_cancelled : Cancelled
  forced : (task_done : Bool) → Cancelled
  failed : Text → Cancelled

abbrev pub stage_of : Waited → Cancelled
stage_of finishes = cooperative
stage_of (times_out task_done) = forced task_done
stage_of is_cancelled = already_cancelled
stage_of (raises e) = failed e

-- A deque with room for `burst_history` times: the oldest falls out.
unfoldable pub remember : ℕ → List ℕ → List ℕ
remember now history = let h = history ++ (now ∷ []) in drop (length h - burst_history) h

-- The entry in the history, and ev.set().
unfoldable pub signal : ℕ → World → World
unfolding with_event remember
signal pid w = record w {
  cancel_history =
      put pid (remember w.clock (or_else (get pid w.cancel_history) [])) w.cancel_history;
  cancel_events = put pid true (with_event pid w.cancel_events);
}

abbrev wait_for : ℕ → Bool → Wait → World → Cancelled × World
wait_for pid true wait w = (self_signal, signal pid w)
wait_for pid false wait w = (stage_of wait.ends, wait.others (signal pid w))

abbrev is_task : Option ℕ → ℕ → Bool
is_task none task = false
is_task (some t) task = t == task

abbrev cancel_task : ℕ → Option ℕ → Wait → World → Option (ℕ × Bool) → Cancelled × World
cancel_task pid current wait w none = (no_running_tick, w)
cancel_task pid current wait w (some (task, true)) = (no_running_tick, w)
cancel_task pid current wait w (some (task, false)) = wait_for pid (is_task current task) wait w

-- `current` is the task that makes the call, asyncio.current_task().
unfoldable pub cancel_current_tick : ℕ → Option ℕ → Wait → World → Cancelled × World
unfolding signal
cancel_current_tick pid current wait w = cancel_task pid current wait w (get pid w.running_ticks)

-- sum(1 for t in history if now - t <= window)
unfoldable pub cancel_burst_count : ℕ → ℕ → World → ℕ
cancel_burst_count pid window_seconds w =
    length (select (λ t. leb (w.clock - t) window_seconds) (or_else (get pid w.cancel_history) []))
