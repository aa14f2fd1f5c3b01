-- ===== src/Tests/Contracts.antt =====
-- A contract that gains an optional field, for a super that uses its action.
use colony_agents.Prelude.{codes, some, List, [], ◌∷◌, ◌≡◌, refl}
use colony_agents.Prelude.Dict.{get, put}
use colony_agents.Builder.Spec.{
  Contract, Consumer, analyze_worker_change_impact, check_backward_compat, violations, by_name,
  spec_reasons, required_fields, minus,
}
use colony_agents.Builder.Spec.Impact.{compatible_is_safe}

abbrev before : Contract
before = record {
  advertises =
      record {
        action = "write";
        input_schema = ("topic", some (codes "str")) ∷ [];
        output_schema = "text" ∷ [];
      }
      ∷ [];
  deprecated_actions = [];
}

abbrev after : Contract
after = record {
  advertises =
      record {
        action = "write";
        input_schema = ("topic", some (codes "str")) ∷ ("tone", some (codes "str?")) ∷ [];
        output_schema = "text" ∷ "title" ∷ [];
      }
      ∷ [];
  deprecated_actions = [];
}

abbrev consumers : List Consumer
consumers = record { super_slug = "shop"; used_actions = "write" ∷ "read" ∷ [] } ∷ []

compatible_is_safe_example : analyze_worker_change_impact before after consumers ≡ []
unfolding check_backward_compat violations by_name spec_reasons required_fields minus get put
compatible_is_safe_example = compatible_is_safe before after consumers refl refl
