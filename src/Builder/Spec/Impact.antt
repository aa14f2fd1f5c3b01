-- ===== src/Builder/Spec/Impact.antt =====
-- The two tests of a changed contract against each other.
use colony_agents.Prelude.{
  String, Option, none, some, List, [], ◌∷◌, ◌++◌, ◌≡◌, refl, ap, subst, arith, str_eq, eq_iff,
  Bool-cases, Option-cases, inl, inr,
}
use colony_agents.Prelude.Dict.{Dict, get}
use colony_agents.Builder.Spec.{
  Action, Contract, Consumer, action_break_reasons, broken_action, labelled, broken_actions,
  breaking, analyze_worker_change_impact, violation, violations, check_backward_compat, actions_of,
}

labelled_nil :
    {A : Type 0} (name : String) (xs : List A) (rest : List (String × List A))
    → labelled name xs ++ rest ≡ []
    → (xs ≡ []) × (rest ≡ [])
labelled_nil name [] rest h = (refl, h)
labelled_nil name (x ∷ xs) rest h = absurd (ground (arith, h))

-- No violation at all means none of each action.
violation_nil :
    (new : Dict Action) (rows : Dict Action) (name : String) (old : Action)
    → violations [] new rows ≡ []
    → get name rows ≡ some old
    → violation [] name old (get name new) ≡ []
unfolding violations get
violation_nil new [] name old h e = absurd (ground (arith, e))
violation_nil new ((k, v) ∷ rows) name old h e =
    let (here, rest) = labelled_nil k (violation [] k v (get k new)) (violations [] new rows) h in
    elim (Bool-cases (str_eq k name)) [
      | inl same ↦
          let key : k ≡ name = (eq_iff k name).0 same in
          let row : v ≡ old = ground (arith, e, same) in
          subst (λ n. violation [] n old (get n new) ≡ []) key
            (subst (λ o. violation [] k o (get k new) ≡ []) row here)
      | inr other ↦ violation_nil new rows name old rest (ground (arith, e, other))
    ]

reasons_nil :
    (name : String) (old : Action) (new : Option Action)
    → violation [] name old new ≡ []
    → action_break_reasons old new ≡ []
unfolding action_break_reasons
reasons_nil name old none h = absurd (ground (arith, h))
reasons_nil name old (some new) h = h

module _ (old new : Dict Action) (fine : violations [] new old ≡ []) where
  broken_action_nil : (name : String) → broken_action name new (get name old) ≡ []
  broken_action_nil name = elim (Option-cases (get name old)) [
    | inl e ↦ rw e refl
    | inr (spec, e) ↦ rw e (
        ap (labelled name)
          (reasons_nil name spec (get name new) (violation_nil new old name spec fine e)))
  ]

  broken_actions_nil : (names : List String) → broken_actions old new names ≡ []
  unfolding broken_actions
  broken_actions_nil [] = refl
  broken_actions_nil (name ∷ names) = rw (broken_action_nil name) (broken_actions_nil names)

  breaking_nil : (consumers : List Consumer) → breaking old new consumers ≡ []
  unfolding breaking
  breaking_nil [] = refl
  breaking_nil (c ∷ cs) = rw (broken_actions_nil c.used_actions, breaking) (breaking_nil cs)

-- A new contract without deprecated actions that the test of backward compatibility passes breaks no
-- consumer, whatever actions its consumers use.
pub compatible_is_safe :
    (old new : Contract) (consumers : List Consumer)
    → new.deprecated_actions ≡ []
    → check_backward_compat old new ≡ []
    → analyze_worker_change_impact old new consumers ≡ []
unfolding check_backward_compat analyze_worker_change_impact
compatible_is_safe old new consumers none_deprecated h =
    breaking_nil (actions_of old) (actions_of new)
      (subst (λ d. violations d (actions_of new) (actions_of old) ≡ []) none_deprecated h) consumers
