-- ===== src/SelfTune/Samples.antt =====
-- When `agent_protocol_evaluate` of backend/app/skills_builtin/builder/self_tune_skills.py recommends a
-- revert, by the number of samples.
use colony_agents.Prelude.{
  ℕ, true, false, Option, none, some, List, [], ◌∷◌, ◌++◌, All, length, is_nil, ltb, leb, ◌≡◌, ◌≤◌,
  ◌<◌, refl, arith, ap, ◌∙◌, inl, inr, Bool-cases,
}
use colony_agents.Prelude.Float.{Floats}
use colony_agents.Optimize.Compat.{
  CallerStat, before_of, regressed_from, regressed, check_cross_caller_compat,
}
use colony_agents.SelfTune.{Version, Shop, rows_of, version_row, quality_gate_pass_rate}
use colony_agents.SelfTune.Evaluate.{
  stats, keep, revert, evaluated, evaluate_row, agent_protocol_evaluate,
}

module _ (F : Floats) where
  one-regressed :
      (tolerance : F.Float) (min_samples : ℕ) (before xs ys : List CallerStat) (a b : CallerStat)
      → before_of a before ≡ some b
      → regressed_from F tolerance min_samples a (some b) ≡ true
      → is_nil (regressed F tolerance min_samples before (xs ++ (a ∷ ys))) ≡ false
  unfolding regressed
  one-regressed tolerance min_samples before [] ys a b known fell_here =
      let here : regressed_from F tolerance min_samples a (before_of a before) ≡ true =
        ap (regressed_from F tolerance min_samples a) known ∙ fell_here in
      rw here refl
  one-regressed tolerance min_samples before (x ∷ xs) ys a b known fell_here =
      let rest = one-regressed tolerance min_samples before xs ys a b known fell_here in
      elim (Bool-cases (regressed_from F tolerance min_samples x (before_of x before))) [
        | inl e ↦ rw e refl
        | inr e ↦ rw e rest
      ]

  few-regressed_from :
      (tolerance : F.Float) (min_samples : ℕ) (a : CallerStat) (row : Option CallerStat)
      → a.total < min_samples
      → regressed_from F tolerance min_samples a row ≡ false
  few-regressed_from tolerance min_samples a none few = refl
  few-regressed_from tolerance min_samples a (some b) few =
      let short : ltb a.total min_samples ≡ true = ground arith in rw short refl

  none-regressed :
      (tolerance : F.Float) (min_samples : ℕ) (before after : List CallerStat)
      → All (λ (a : CallerStat). a.total < min_samples) after
      → regressed F tolerance min_samples before after ≡ []
  unfolding regressed
  none-regressed tolerance min_samples before [] few = refl
  none-regressed tolerance min_samples before (a ∷ after) few =
      let here = few-regressed_from tolerance min_samples a (before_of a before) few.0 in
      rw here (none-regressed tolerance min_samples before after few.1)

  -- Where one caller has at least five calls before the version and since it, and its rate fell by more
  -- than the tolerance, a revert is recommended, though the answer's note says that with fewer than five
  -- samples of the mission's quality gate none ever is.
  pub unsampled_revert :
      (aid since_version : ℕ) (before xs ys : List CallerStat) (a b : CallerStat) (row : Version)
      (s : Shop)
      → version_row since_version (rows_of aid s) ≡ some row
      → length s.verdicts < 5
      → before_of a before ≡ some b
      → 5 ≤ a.total
      → 5 ≤ b.total
      → F.less (F.ratio a.completed a.total) (F.minus (F.ratio b.completed b.total) F.tenth) ≡ true
      → agent_protocol_evaluate F aid since_version (stats before (xs ++ (a ∷ ys))) s
        ≡ evaluated (record {
          recommendation = revert;
          samples = length s.verdicts;
          note_never_reverts = true;
        })
  unfolding agent_protocol_evaluate check_cross_caller_compat quality_gate_pass_rate
  unsampled_revert aid since_version before xs ys a b row s there few known many many' fell_by =
      let counted : ltb a.total 5 ≡ false = ground arith in
      let counted' : ltb b.total 5 ≡ false = ground arith in
      let positive : ltb 0 a.total ≡ true = ground arith in
      let positive' : ltb 0 b.total ≡ true = ground arith in
      let here : regressed_from F F.tenth 5 a (some b) ≡ true =
        rw (counted, counted', positive, positive', fell_by) refl in
      let unsafe = one-regressed F.tenth 5 before xs ys a b known here in
      let noted : ltb (length s.verdicts) 5 ≡ true = ground arith in
      ap (evaluate_row F (quality_gate_pass_rate s.verdicts) (stats before (xs ++ (a ∷ ys)))) there
      ∙ rw (unsafe, noted) refl

  -- With fewer than five samples of the quality gate, and no caller with five calls since the version,
  -- the version is kept, whatever the rates are.
  pub unsampled_keep :
      (aid since_version : ℕ) (before after : List CallerStat) (row : Version) (s : Shop)
      → version_row since_version (rows_of aid s) ≡ some row
      → length s.verdicts < 5
      → All (λ (a : CallerStat). a.total < 5) after
      → agent_protocol_evaluate F aid since_version (stats before after) s
        ≡ evaluated (record {
          recommendation = keep;
          samples = length s.verdicts;
          note_never_reverts = true;
        })
  unfolding agent_protocol_evaluate check_cross_caller_compat quality_gate_pass_rate
  unsampled_keep aid since_version before after row s there few calls =
      let safe = ap (λ cs. is_nil cs) (none-regressed F.tenth 5 before after calls) in
      let noted : ltb (length s.verdicts) 5 ≡ true = ground arith in
      let short : leb 5 (length s.verdicts) ≡ false = ground arith in
      ap (evaluate_row F (quality_gate_pass_rate s.verdicts) (stats before after)) there
      ∙ rw (safe, noted, short) refl
