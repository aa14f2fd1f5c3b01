-- ===== src/SelfTune/Evaluate.antt =====
-- `agent_protocol_evaluate` of backend/app/skills_builtin/builder/self_tune_skills.py: whether a version
-- of a protocol is to be kept. What the two queries of the log return is given, or that they raise.
use colony_agents.Prelude.{
  ℕ, Bool, true, ◌&&◌, Option, none, some, List, not, ltb, leb, ◌==◌, if◌then◌else◌,
}
use colony_agents.Prelude.Float.{Floats}
use colony_agents.Optimize.Compat.{CallerStat, check_cross_caller_compat}
use colony_agents.SelfTune.{
  Measured, Version, Shop, Refusal, no_such_version, quality_gate_pass_rate, rows_of, version_row,
}

pub data Recommendation : Type 0 where
  keep revert : Recommendation

-- What is known of the callers' rates, from before the version and since it.
pub data CallerStats : Type 0 where
  stats_failed : CallerStats
  stats : (before after : List CallerStat) → CallerStats

pub record Evaluation : Type 0 where
  pub recommendation : Recommendation
  pub samples : ℕ
  pub note_never_reverts : Bool

pub data Evaluated : Type 0 where
  not_evaluated : Refusal → Evaluated
  evaluated : Evaluation → Evaluated

module _ (F : Floats) where
  abbrev pub pass_rate : Measured → F.Float
  pass_rate m = if m.samples == 0 then F.nought else F.ratio m.passes m.samples

  -- float(baseline.get("pass_rate") or 0.0)
  abbrev pub base_rate : Option Measured → F.Float
  base_rate none = F.nought
  base_rate (some m) = pass_rate m

  abbrev pub gate : CallerStats → Bool
  gate stats_failed = true
  gate (stats before after) = (check_cross_caller_compat F before after F.tenth 5).compatible

  abbrev pub recommended : Measured → Option Measured → CallerStats → Recommendation
  recommended current baseline callers =
      if not (gate callers)
      then revert
      else if leb 5 current.samples
          && F.less (F.minus (pass_rate current) (base_rate baseline)) F.minus_tenth
      then revert
      else keep

  abbrev pub evaluate_row : Measured → CallerStats → Option Version → Evaluated
  evaluate_row current callers none = not_evaluated no_such_version
  evaluate_row current callers (some row) = evaluated (record {
    recommendation = recommended current row.metrics_baseline callers;
    samples = current.samples;
    note_never_reverts = ltb current.samples 5;
  })

  unfoldable pub agent_protocol_evaluate : (aid since_version : ℕ) → CallerStats → Shop → Evaluated
  agent_protocol_evaluate aid since_version callers s =
      evaluate_row (quality_gate_pass_rate s.verdicts) callers
        (version_row since_version (rows_of aid s))
