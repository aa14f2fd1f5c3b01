-- ===== src/Compress/Lock.antt =====
-- `schedule_compression_if_needed` of backend/app/services/compression_service.py, which takes a flag in
-- the database for a compression of a thread, and gives up after three failures in a row. The state is
-- that of one thread in one process. A call, and the task that it starts, is cut into what happens
-- between two awaits, and the calls are counted by how far they are. The work of the task is that of
-- `maybe_compress_context`, which the tick of a mission and the call of a worker also run at once,
-- without the flag.
pub mod Steps
use colony_agents.Prelude.{
  ℕ, zero, suc, ◌+◌, ◌-◌, Text, Bool, true, false, not, ◌&&◌, Option, none, some, or_else,
  take as take_first, ltb, leb, if◌then◌else◌,
}

-- The thread's row of `thread_compression_state`, but for its watermark.
pub record State : Type 0 where
  pub compression_in_progress : Bool
  pub compression_disabled : Bool
  pub consecutive_failures : ℕ
  pub last_compression_error : Option Text

-- The row, whether the thread is in _COMPRESSION_IN_PROGRESS_LOCAL, and how many calls are past the
-- test of that set, have seen to the row, and have set the flag; how many tasks are at work, have left
-- the set, and have yet to be called back.
pub record Guard : Type 0 where
  pub state : Option State
  pub local : Bool
  pub entered : ℕ
  pub ready : ℕ
  pub taken : ℕ
  pub tasks : ℕ
  pub ending : ℕ
  pub ended : ℕ

-- The row that `_ensure_compression_state_row` inserts.
abbrev pub new_state : State
new_state = record {
  compression_in_progress = false;
  compression_disabled = false;
  consecutive_failures = 0;
  last_compression_error = none;
}

-- The test of the process's own set.
unfoldable pub enter : Guard → Bool × Guard
enter g = if g.local then (false, g) else (true, record g { entered = g.entered + 1 })

-- `_ensure_compression_state_row`
unfoldable pub ensure_state_row : Guard → Guard
ensure_state_row g = record g {
  state = some (or_else g.state new_state);
  entered = g.entered - 1;
  ready = g.ready + 1;
}

-- The row's columns as the update asks for them.
unfoldable pub can_take : State → Bool
can_take s = not s.compression_in_progress && not s.compression_disabled

abbrev pub take_row : Option State → Guard → Bool × Guard
take_row none g = (false, record g { ready = g.ready - 1 })
take_row (some s) g =
    if can_take s
    then (
      true,
      record g {
        state = some (record s { compression_in_progress = true });
        ready = g.ready - 1;
        taken = g.taken + 1;
      },
    )
    else (false, record g { ready = g.ready - 1 })

-- UPDATE … SET compression_in_progress = true WHERE it is false AND compression_disabled is false
unfoldable pub take : Guard → Bool × Guard
unfolding can_take
take g = take_row g.state g

-- The process's set, and the task, behind the session of the update.
unfoldable pub start_task : Guard → Guard
start_task g = record g { local = true; taken = g.taken - 1; tasks = g.tasks + 1 }

-- The task's work is over, and the thread is no longer in the set.
unfoldable pub leave : Guard → Guard
leave g = record g { local = false; tasks = g.tasks - 1; ending = g.ending + 1 }

-- The row after a task that raised an error, or none.
unfoldable pub reported : Option Text → State → State
reported none s = record s {
  compression_in_progress = false;
  consecutive_failures = 0;
  last_compression_error = none;
}
reported (some error) s = record s {
  compression_in_progress = false;
  compression_disabled =
      if leb 3 (s.consecutive_failures + 1) then true else s.compression_disabled;
  consecutive_failures = s.consecutive_failures + 1;
  last_compression_error = some (take_first 1000 error);
}

abbrev pub report_row : Option Text → Option State → Option State
report_row error none = none
report_row error (some s) = some (reported error s)

-- The task's second session: the row says how the work ended.
unfoldable pub report : Option Text → Guard → Guard
unfolding reported
report error g = record g {
  state = report_row error g.state;
  ending = g.ending - 1;
  ended = g.ended + 1;
}

-- That session raises, which is only logged.
unfoldable pub report_fails : Guard → Guard
report_fails g = record g { ending = g.ending - 1; ended = g.ended + 1 }

-- `add_done_callback`: once more out of the set.
unfoldable pub call_back : Guard → Guard
call_back g = record g { local = false; ended = g.ended - 1 }

-- The process starts anew: its set, its calls and its tasks are gone, and the row stays.
unfoldable pub restart : Guard → Guard
restart g = record {
  state = g.state;
  local = false;
  entered = 0;
  ready = 0;
  taken = 0;
  tasks = 0;
  ending = 0;
  ended = 0;
}
