-- ===== src/Optimize/Compat.antt =====
-- backend/app/domain/optimization/compat_gate.py: the rates of a worker's callers before and after a
-- change of its protocol.
use colony_agents.Prelude.{
  ℕ, Text, codes, Bool, true, false, ◌&&◌, ◌||◌, not, Option, none, some, List, [], ◌∷◌, ◌++◌, take,
  is_nil, text_eq, ltb, if◌then◌else◌,
}
use colony_agents.Prelude.Float.{Floats}

pub record CallerStat : Type 0 where
  pub super_agent_id : Text
  pub action : Text
  pub total : ℕ
  pub completed : ℕ

pub record CompatVerdict : Type 0 where
  pub compatible : Bool
  pub regressed_callers : List Text

abbrev pub same_caller : (a b : CallerStat) → Bool
same_caller a b = text_eq a.super_agent_id b.super_agent_id && text_eq a.action b.action

abbrev later : Option CallerStat → Bool → CallerStat → Option CallerStat
later (some c) same b = some c
later none true b = some b
later none false b = none

-- before_map.get(key): of two entries with one key the later stands.
unfoldable pub before_of : CallerStat → List CallerStat → Option CallerStat
before_of a [] = none
before_of a (b ∷ before) = later (before_of a before) (same_caller b a) b

abbrev label : CallerStat → Text
label a = take 8 a.super_agent_id ++ (codes ":" ++ a.action)

module _ (F : Floats) where
  abbrev pub success_rate : CallerStat → Option F.Float
  success_rate s = if ltb 0 s.total then some (F.ratio s.completed s.total) else none

  abbrev pub fell : F.Float → (before after : Option F.Float) → Bool
  fell tolerance none a = false
  fell tolerance (some b) none = false
  fell tolerance (some b) (some a) = F.less a (F.minus b tolerance)

  abbrev pub regressed_from : F.Float → ℕ → CallerStat → Option CallerStat → Bool
  regressed_from tolerance min_samples a none = false
  regressed_from tolerance min_samples a (some b) =
      not (ltb a.total min_samples || ltb b.total min_samples)
      && fell tolerance (success_rate b) (success_rate a)

  unfoldable pub regressed : F.Float → ℕ → (before after : List CallerStat) → List Text
  regressed tolerance min_samples before [] = []
  regressed tolerance min_samples before (a ∷ after) =
      let rest = regressed tolerance min_samples before after in
      if regressed_from tolerance min_samples a (before_of a before) then label a ∷ rest else rest

  -- The reason's text is left out.
  unfoldable pub check_cross_caller_compat :
      (before after : List CallerStat) → (tolerance : F.Float) → (min_samples : ℕ) → CompatVerdict
  unfolding regressed
  check_cross_caller_compat before after tolerance min_samples =
      let callers = regressed tolerance min_samples before after in
      record { compatible = is_nil callers; regressed_callers = callers }
