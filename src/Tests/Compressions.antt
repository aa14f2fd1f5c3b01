-- ===== src/Tests/Compressions.antt =====
-- A thread of five messages, of which three are kept, and the lock of its compressions.
use colony_agents.Prelude.{
  ℕ, ◌+◌, ◌-◌, ◌≤◌, ◌<◌, Text, codes, true, false, none, some, Option, List, [], ◌∷◌, ◌≡◌, refl,
  arith, length, drop, str,
}
use colony_agents.Prelude.Table.{member}
use colony_agents.Compress.{
  Row, Memory, Thread, resolve_compression_config, maybe_compress_context, should_compress,
  estimate_dialogue_tokens, pick_compressible, uncompressed, count_from, fallback_summarize,
  summary_lines, shortened, meta_hint, wrap_segment,
}
use colony_agents.Compress.Settles.{compress_settles}
use colony_agents.Compress.Lock.{
  Guard, enter, ensure_state_row, take, start_task, leave, restart, can_take,
}
use colony_agents.Compress.Lock.Steps.{
  Reach, here, then_step, enters, ensures, takes, starts, leaves, fresh, one_compression,
  restart_blocks,
}

abbrev row : ℕ → Row
row id = record {
  id = id;
  role = "user";
  content = codes "hello";
  has_meta = false;
  meta_keys = [];
  created_at = id;
  is_compressed = false;
}

abbrev five : Thread
five = record {
  messages = row 1 ∷ row 2 ∷ row 3 ∷ row 4 ∷ row 5 ∷ [];
  memory = none;
  compressed_up_to_at = none;
}

-- The model fails.
abbrev silent : List Row → Option Text
silent ms = none

abbrev settled : Option Memory × Thread
settled = maybe_compress_context silent str 20 3 100 true five

fallback_runs : fallback_summarize (row 1 ∷ []) ≡ codes "## 压缩记忆（降级摘要）\n\n- [user] hello"
unfolding fallback_summarize summary_lines shortened meta_hint
fallback_runs = refl

counts_markers : count_from (codes "##") 0 (codes "## a ### b") ≡ 2
unfolding count_from
counts_markers = refl

-- A keep of zero, which the configuration does not let through, keeps everything.
keeps_all : pick_compressible {A = ℕ} (1 ∷ 2 ∷ []) 0 ≡ []
unfolding pick_compressible
keeps_all = refl

default_config :
    resolve_compression_config
      (record { threshold_tokens = 30000; keep_recent = 20 })
      none
      (record { threshold_tokens = some 10; keep_recent = some 500 })
    ≡ record { threshold_tokens = 1000; keep_recent = 100 }
unfolding resolve_compression_config
default_config = refl

abbrev first_segment : Memory
first_segment = record {
  memory_md = wrap_segment silent str (row 1 ∷ row 2 ∷ []) 1 false;
  compressed_message_count = 2;
  last_compressed_at = some 100;
}

was_compressed : settled.0 ≡ some first_segment
unfolding maybe_compress_context should_compress estimate_dialogue_tokens pick_compressible
was_compressed = refl

compress_settles_example :
    (uncompressed settled.1.messages
      ≡ drop (length (uncompressed five.messages) - 3) (uncompressed five.messages))
    × (length (uncompressed settled.1.messages) ≡ 3)
    × (maybe_compress_context silent str 1 3 200 true settled.1 ≡ (none, settled.1))
unfolding member
compress_settles_example =
    compress_settles silent str 20 3 100 true five first_segment 1 200 true
      (refl, (refl, (refl, (refl, (refl, tt))))) was_compressed

-- A call that sets the flag and starts its task.
abbrev entered : Guard
entered = (enter fresh).1

abbrev ready : Guard
ready = ensure_state_row entered

abbrev taken : Guard
taken = (take ready).1

abbrev working : Guard
working = start_task taken

takes_runs : (take ready).0 ≡ true
unfolding restart enter ensure_state_row take can_take
takes_runs = refl

working-Reach : Reach fresh working
unfolding restart enter ensure_state_row take can_take
working-Reach =
    then_step
      (then_step (then_step (then_step here (enters fresh)) (ensures entered (omega arith)))
        (takes ready (omega arith)))
      (starts taken (omega arith))

-- The task leaves the set, and a second call is past the test of it before the row is cleared: it is the
-- row that holds it back.
abbrev again : Guard
again = ensure_state_row (enter (leave working)).1

again_runs : (take again).0 ≡ false
unfolding restart enter ensure_state_row take can_take start_task leave
again_runs = refl

again-Reach : Reach fresh (take again).1
unfolding restart enter ensure_state_row take can_take start_task leave
again-Reach =
    then_step
      (then_step
        (then_step (then_step working-Reach (leaves working (omega arith)))
          (enters (leave working)))
        (ensures (enter (leave working)).1 (omega arith)))
      (takes again (omega arith))

one_compression_example : (take again).1.taken + (take again).1.tasks + (take again).1.ending ≤ 1
one_compression_example = one_compression (take again).1 again-Reach

runs : 0 < working.tasks
unfolding start_task
runs = omega arith

abbrev later : Guard
later = (enter (restart working)).1

restart_blocks_example : ((take later).0 ≡ false) × (later.tasks ≡ 0)
restart_blocks_example =
    restart_blocks working later working-Reach runs (then_step here (enters (restart working)))
