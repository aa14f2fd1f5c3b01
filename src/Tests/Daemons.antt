-- ===== src/Tests/Daemons.antt =====
-- The daemon and its ticks on the sample world.
use colony_agents.Prelude.{arith, ◌+◌, Text, codes, true, false, none, some, ◌≡◌, refl}
use colony_agents.Prelude.Table.{get, member}
use colony_agents.World.{lifecycle}
use colony_agents.Daemon.State.{run_state}
use colony_agents.Daemon.Control.{stop, reconcile_on_boot, new_process}
use colony_agents.Daemon.Control.Boot.{boot_undoes_stop}
use colony_agents.Daemon.Tick.{Payload}
use colony_agents.Daemon.Tick.Run.{Parts, tick_in_progress, skipped, built, ends, run_once}
use colony_agents.Daemon.Tick.Guard.{ticking_in, run_once_serial, gated_tick}
use colony_agents.Schedule.{Schedule}
use colony_agents.Tests.Samples.{sample, runner, gated}

abbrev parts : Parts
parts = record {
  max_ticks = 0;
  work_order_max_ticks = 30;
  run_health_tick = λ w. (codes "ok", w);
  agent_exists = λ agent. true;
  maybe_compress_context = λ pid w. w;
  build_agent_executor = λ pid w. built;
  drive = λ pid p messages rs w. (ends (some (codes "done")), w);
  maybe_finalize_after_builder_tick = λ pid w. w;
  maybe_cap_work_order = λ pid run_count max w. w;
}

abbrev by_cron : Payload
by_cron = record { trigger = some (codes "cron"); message = none }

boot_undoes_stop_example :
    (member 1 (stop 1 sample).daemons ≡ false)
    × (lifecycle 1 (stop 1 sample) ≡ "running")
    × (member 1 (reconcile_on_boot (new_process (stop 1 sample))).daemons ≡ true)
unfolding get
boot_undoes_stop_example = boot_undoes_stop 1 sample runner refl refl

run_once_serial_example :
    (run_once parts 1 100 by_cron (ticking_in parts 1 100 by_cron sample)
      ≡ (tick_in_progress, ticking_in parts 1 100 by_cron sample))
    × (member 1 (run_once parts 1 100 by_cron sample).1.ticking ≡ member 1 sample.ticking)
run_once_serial_example = run_once_serial parts 1 100 by_cron sample

gated_tick_example :
    let (res, w') = run_once parts 2 100 by_cron sample in
    ((reason : Text) × (res ≡ skipped "paused_clarification" reason))
    × ((run_state 2 w').run_count ≡ (run_state 2 sample).run_count + 1)
    × (get 1 w'.run_states ≡ get 1 sample.run_states)
    × (w' ≡ record sample { run_states = w'.run_states })
unfolding get member
gated_tick_example =
    gated_tick parts 2 100 by_cron gated sample 1 refl refl refl refl refl (ground arith)

-- A schedule of the mission that waits for a human.
abbrev daily : Schedule
daily = record {
  mission_id = 2;
  kind = "cron";
  expr = codes "0 7 * * *";
  payload_template = record { trigger = none; message = none };
  enabled = true;
  last_fired_at = none;
  last_error = none;
  fire_count = 0;
}
