-- ===== src/Tests/Rates.antt =====
-- Rates of a worker's callers, with hundredths in place of floating-point numbers: n stands for
-- (n - 1000) / 100.
use colony_agents.Prelude.{
  ℕ, ◌+◌, ◌-◌, ◌*◌, ◌/◌, ◌≤◌, codes, All, true, false, none, List, [], ◌∷◌, ltb, ◌≡◌, refl, arith,
  length,
}
use colony_agents.Prelude.Float.{Floats}
use colony_agents.Prelude.Table.{get}
use colony_agents.Optimize.Compat.{CallerStat, before_of}
use colony_agents.Optimize.Decide.{
  WorkerHealthInput, WorkerHealthThresholds, scan_worker_health, detect_regression,
  decide_optimization_action, run_optimization_cycle, propose,
}
use colony_agents.Optimize.Worst.{IsOrder, IsWorstFirst, scan-IsWorstFirst}
use colony_agents.SelfTune.Evaluate.{stats, keep, revert, evaluated, agent_protocol_evaluate}
use colony_agents.SelfTune.Samples.{unsampled_revert, unsampled_keep}
use colony_agents.Tests.Tunes.{tuned_once, soulless}

abbrev hundredths : Floats
hundredths = record {
  Float = ℕ;
  ratio = λ a b. 1000 + a * 100 / b;
  minus = λ x y. (x + 1000) - y;
  less = ltb;
  nought = 1000;
  tenth = 1010;
  minus_tenth = 990;
}

abbrev good : CallerStat
good = record { super_agent_id = codes "3f2a"; action = codes "fetch"; total = 10; completed = 9 }

abbrev bad : CallerStat
bad = record { super_agent_id = codes "3f2a"; action = codes "fetch"; total = 5; completed = 1 }

abbrev rare : CallerStat
rare = record { super_agent_id = codes "3f2a"; action = codes "fetch"; total = 4; completed = 0 }

unsampled_revert_example :
    agent_protocol_evaluate hundredths 5 1 (stats (good ∷ []) (bad ∷ [])) tuned_once
    ≡ evaluated (record { recommendation = revert; samples = 2; note_never_reverts = true })
unfolding before_of get
unsampled_revert_example =
    unsampled_revert hundredths 5 1 (good ∷ []) [] [] bad good soulless tuned_once refl
      (omega arith) refl (omega arith) (omega arith) refl

unsampled_keep_example :
    agent_protocol_evaluate hundredths 5 1 (stats (good ∷ []) (rare ∷ [])) tuned_once
    ≡ evaluated (record { recommendation = keep; samples = 2; note_never_reverts = true })
unfolding get
unsampled_keep_example =
    unsampled_keep hundredths 5 1 (good ∷ []) (rare ∷ []) soulless tuned_once refl (omega arith)
      (omega arith, tt)

hundredths-IsOrder : IsOrder hundredths
unfolding IsOrder
hundredths-IsOrder = (λ x y h. ground (arith, h), λ x y z h h'. ground (arith, h, h'))

abbrev worker : (total completed repeated : ℕ) → WorkerHealthInput
worker total completed repeated = record {
  worker_id = codes "w";
  name = codes "fetcher";
  capability = none;
  total = total;
  completed = completed;
  failed = total - completed;
  top_repeated_error_cnt = repeated;
  top_error_msg = none;
}

abbrev thresholds : WorkerHealthThresholds hundredths
thresholds = record { success_rate_floor = 1075; repeated_error_floor = 5; min_samples = 10 }

abbrev inputs : List WorkerHealthInput
inputs = worker 10 7 0 ∷ worker 9 0 9 ∷ worker 20 19 1 ∷ worker 10 2 0 ∷ []

scan_runs : length (scan_worker_health hundredths inputs thresholds) ≡ 2
unfolding scan_worker_health detect_regression
scan_runs = refl

scan-IsWorstFirst_example :
    IsWorstFirst hundredths (scan_worker_health hundredths inputs thresholds)
    × All (λ c. 10 ≤ c.total) (scan_worker_health hundredths inputs thresholds)
scan-IsWorstFirst_example = scan-IsWorstFirst hundredths hundredths-IsOrder inputs thresholds

cycle_runs :
    run_optimization_cycle hundredths (record {
      has_pending_change = false;
      samples_since_apply = 0;
      eval_threshold = 5;
      current_pass_rate = 1050;
      baseline_pass_rate = 1090;
      tolerance = 1010;
      regression = true;
      quota_remaining = 1;
    })
    ≡ (propose, propose ∷ [])
unfolding run_optimization_cycle decide_optimization_action
cycle_runs = refl
