-- ===== src/Optimize/Decide.antt =====
-- backend/app/domain/optimization/decide.py and health_scan.py: what is done about a worker whose rates
-- fall. The texts of the reasons are left out.
use colony_agents.Prelude.{
  ℕ, Text, Bool, false, ◌&&◌, ◌||◌, Option, none, some, List, [], ◌∷◌, or_else, ltb, leb,
  if◌then◌else◌,
}
use colony_agents.Prelude.Float.{Floats}

pub data OptAction : Type 0 where
  nothing propose wait keep revert : OptAction

pub record WorkerHealthInput : Type 0 where
  pub worker_id : Text
  pub name : Text
  pub capability : Option Text
  pub total : ℕ
  pub completed : ℕ
  pub failed : ℕ
  pub top_repeated_error_cnt : ℕ
  pub top_error_msg : Option Text

module _ (F : Floats) where
  pub record OptState : Type 0 where
    pub has_pending_change : Bool
    pub samples_since_apply : ℕ
    pub eval_threshold : ℕ
    pub current_pass_rate : F.Float
    pub baseline_pass_rate : F.Float
    pub tolerance : F.Float
    pub regression : Bool
    pub quota_remaining : ℕ

  -- x >= y is tested as the negation of x < y, since no rate is a NaN.
  unfoldable pub decide_optimization_action : OptState → OptAction
  decide_optimization_action s =
      if s.has_pending_change
      then if ltb s.samples_since_apply s.eval_threshold
        then wait
        else if F.less s.current_pass_rate (F.minus s.baseline_pass_rate s.tolerance)
        then revert
        else keep
      else if s.regression && ltb 0 s.quota_remaining
      then propose
      else nothing

  pub record RegressionMetrics : Type 0 where
    pub pass_rate : Option F.Float
    pub pass_rate_floor : F.Float
    pub success_rate : Option F.Float
    pub success_rate_floor : F.Float
    pub top_repeated_error : ℕ
    pub repeated_error_floor : ℕ
    pub sample_count : ℕ
    pub min_samples : ℕ

  abbrev below : Option F.Float → F.Float → Bool
  below none floor = false
  below (some rate) floor = F.less rate floor

  unfoldable pub detect_regression : RegressionMetrics → Bool
  detect_regression m =
      if ltb m.sample_count m.min_samples
      then false
      else below m.pass_rate m.pass_rate_floor
        || below m.success_rate m.success_rate_floor
        || leb m.repeated_error_floor m.top_repeated_error

  pub record WorkerHealthThresholds : Type 0 where
    pub success_rate_floor : F.Float
    pub repeated_error_floor : ℕ
    pub min_samples : ℕ

  pub record WorkerHealthCandidate : Type 0 where
    pub worker_id : Text
    pub name : Text
    pub capability : Option Text
    pub success_rate : F.Float
    pub total : ℕ
    pub top_error_msg : Option Text

  abbrev rate_of : WorkerHealthInput → Option F.Float
  rate_of w = if ltb 0 w.total then some (F.ratio w.completed w.total) else none

  abbrev metrics_of : WorkerHealthThresholds → WorkerHealthInput → RegressionMetrics
  metrics_of t w = record {
    pass_rate = none;
    pass_rate_floor = F.nought;
    success_rate = rate_of w;
    success_rate_floor = t.success_rate_floor;
    top_repeated_error = w.top_repeated_error_cnt;
    repeated_error_floor = t.repeated_error_floor;
    sample_count = w.total;
    min_samples = t.min_samples;
  }

  abbrev pub is_candidate : WorkerHealthThresholds → WorkerHealthInput → Bool
  is_candidate t w = detect_regression (metrics_of t w)

  abbrev pub candidate : WorkerHealthInput → WorkerHealthCandidate
  candidate w = record {
    worker_id = w.worker_id;
    name = w.name;
    capability = w.capability;
    success_rate = or_else (rate_of w) F.nought;
    total = w.total;
    top_error_msg = w.top_error_msg;
  }

  abbrev pub insert_by_rate :
      WorkerHealthCandidate → List WorkerHealthCandidate → List WorkerHealthCandidate
  insert_by_rate c [] = c ∷ []
  insert_by_rate c (d ∷ cs) =
      let later = d ∷ insert_by_rate c cs in
      if F.less d.success_rate c.success_rate then later else c ∷ d ∷ cs

  -- candidates.sort(key=…): those of one rate keep their order.
  abbrev pub sort_by_rate : List WorkerHealthCandidate → List WorkerHealthCandidate
  sort_by_rate [] = []
  sort_by_rate (c ∷ cs) = insert_by_rate c (sort_by_rate cs)

  abbrev pub candidates :
      WorkerHealthThresholds → List WorkerHealthInput → List WorkerHealthCandidate
  candidates t [] = []
  candidates t (w ∷ inputs) =
      let rest = candidates t inputs in if is_candidate t w then candidate w ∷ rest else rest

  unfoldable pub scan_worker_health :
      List WorkerHealthInput → WorkerHealthThresholds → List WorkerHealthCandidate
  unfolding detect_regression
  scan_worker_health inputs t = sort_by_rate (candidates t inputs)

  -- The calls of `actions`, and what is returned.
  abbrev pub calls_for : OptAction → List OptAction
  calls_for propose = propose ∷ []
  calls_for keep = keep ∷ []
  calls_for revert = revert ∷ []
  calls_for wait = []
  calls_for nothing = []

  unfoldable pub run_optimization_cycle : OptState → OptAction × List OptAction
  unfolding decide_optimization_action
  run_optimization_cycle s = let act = decide_optimization_action s in (act, calls_for act)
