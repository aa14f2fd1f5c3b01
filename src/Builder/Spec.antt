-- ===== src/Builder/Spec.antt =====
-- backend/app/domain/builder/spec_validation.py: what a changed contract of a worker breaks. A
-- contract's entries that are no dictionaries are skipped by the code and are not modelled; a set of
-- names is a list, and a message is a value with the names that it says.
pub mod Impact
use colony_agents.Prelude.{
  String, Text, codes, Bool, true, false, not, ◌&&◌, ◌||◌, Option, none, some, List, [], ◌∷◌, ◌++◌,
  any, select, is_nil, last?, str_eq, ◌==◌, if◌then◌else◌,
}
use colony_agents.Prelude.Dict.{Dict, get, put}

-- An action of a contract: a schema is by field, with `none` for a type that is no string.
pub record Action : Type 0 where
  pub action : String
  pub input_schema : Dict (Option Text)
  pub output_schema : List String

pub record Contract : Type 0 where
  pub advertises : List Action
  pub deprecated_actions : List String

abbrev ends_optional : Text → Bool
ends_optional t = elim (last? t) [ none ↦ false | some c ↦ c == b'?' ]

abbrev is_required : Option Text → Bool
is_required none = false
is_required (some t) = not (ends_optional t)

unfoldable pub required_fields : Dict (Option Text) → List String
required_fields [] = []
required_fields ((k, v) ∷ schema) =
    let rest = required_fields schema in if is_required v then k ∷ rest else rest

abbrev pub is_in : String → List String → Bool
is_in s names = any (λ t. str_eq t s) names

-- a - b of two sets
unfoldable pub minus : List String → List String → List String
minus a b = select (λ s. not (is_in s b)) a

-- {a.get("action"): a for a in advertises}: the last of a name counts.
unfoldable pub by_name : Dict Action → List Action → Dict Action
by_name d [] = d
by_name d (a ∷ actions) = by_name (put a.action a d) actions

abbrev pub actions_of : Contract → Dict Action
actions_of c = by_name [] c.advertises

pub data Reason : Type 0 where
  removed : Reason
  added_required removed_output : List String → Reason

abbrev named : (List String → Reason) → List String → List Reason
named say [] = []
named say (f ∷ fs) = say (f ∷ fs) ∷ []

-- What a new form of an action breaks for a caller of the old one.
unfoldable pub spec_reasons : Action → Action → List Reason
unfolding required_fields minus
spec_reasons old new =
    named added_required
      (minus (required_fields new.input_schema) (required_fields old.input_schema))
    ++ named removed_output (minus old.output_schema new.output_schema)

-- `_action_break_reasons`, for an action of the old contract.
unfoldable pub action_break_reasons : Action → Option Action → List Reason
unfolding spec_reasons
action_break_reasons old none = removed ∷ []
action_break_reasons old (some new) = spec_reasons old new

-- What was found, under its name, if there is anything.
abbrev pub labelled {ℓ} : {A : Type ℓ} → String → List A → List (String × List A)
labelled name [] = []
labelled name (x ∷ xs) = (name, x ∷ xs) ∷ []

pub record Consumer : Type 0 where
  pub super_slug : String
  pub used_actions : List String

-- The broken actions of one consumer, with their reasons.
abbrev pub broken_action : String → Dict Action → Option Action → List (String × List Reason)
broken_action name new none = []
broken_action name new (some old) = labelled name (action_break_reasons old (get name new))

unfoldable pub broken_actions :
    Dict Action → Dict Action → List String → List (String × List Reason)
unfolding action_break_reasons
broken_actions old new [] = []
broken_actions old new (name ∷ names) =
    broken_action name new (get name old) ++ broken_actions old new names

-- The `breaking` of `analyze_worker_change_impact`.
unfoldable pub breaking :
    Dict Action → Dict Action → List Consumer → List (String × List (String × List Reason))
unfolding broken_actions
breaking old new [] = []
breaking old new (c ∷ cs) =
    labelled c.super_slug (broken_actions old new c.used_actions) ++ breaking old new cs

unfoldable pub analyze_worker_change_impact :
    Contract → Contract → List Consumer → List (String × List (String × List Reason))
unfolding breaking by_name
analyze_worker_change_impact old new consumers =
    breaking (actions_of old) (actions_of new) consumers

-- The violations that one action of the old contract makes.
abbrev pub violation : List String → String → Action → Option Action → List Reason
violation deprecated name old none = if is_in name deprecated then [] else removed ∷ []
violation deprecated name old (some new) = spec_reasons old new

unfoldable pub violations : List String → Dict Action → Dict Action → List (String × List Reason)
unfolding spec_reasons
violations deprecated new [] = []
violations deprecated new ((name, old) ∷ rows) =
    labelled name (violation deprecated name old (get name new)) ++ violations deprecated new rows

-- The `violations` of `check_backward_compat`; the contract is compatible where there is none.
unfoldable pub check_backward_compat : Contract → Contract → List (String × List Reason)
unfolding violations by_name
check_backward_compat old new = violations new.deprecated_actions (actions_of new) (actions_of old)

-- `missing_skills`, but for the sorting.
unfoldable pub missing_skills : List String → List String → List String
unfolding minus
missing_skills requested found = minus requested found
