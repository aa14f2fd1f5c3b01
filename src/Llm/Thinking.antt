-- ===== src/Llm/Thinking.antt =====
-- backend/app/domain/llm/provider_router.py and backend/app/domain/llm/thinking_policy.py: the route
-- of a model, and the arguments that set how much it thinks.
pub mod Families
use colony_agents.Prelude.{
  ℕ, max, String, Text, codes, Bool, true, false, not, ◌&&◌, ◌||◌, Option, none, some, List, [],
  ◌∷◌, ◌++◌, any, str_eq, text_eq, starts_with, contains, lower, if◌then◌else◌,
}

-- provider_type in _OPENAI_COMPAT_TYPES
unfoldable pub is_compat : String → Bool
is_compat provider_type =
    any (λ t. str_eq t provider_type) ("custom" ∷ "dashscope" ∷ "volcengine" ∷ "aliyun" ∷ [])

unfoldable pub resolve_route : String → Text → Text
unfolding is_compat
resolve_route provider_type model_id =
    if str_eq provider_type "custom"
    then (if starts_with (lower model_id) (codes "claude")
        then model_id
        else codes "openai/" ++ model_id)
    else if is_compat provider_type
    then codes "openai/" ++ model_id
    else codes provider_type ++ (codes "/" ++ model_id)

unfoldable pub should_stream : String → Text → Bool
should_stream provider_type model_id =
    not (str_eq provider_type "custom" && contains (codes "gemini") (lower model_id))

pub data Level : Type 0 where
  off low medium high : Level

-- A level that is not known is `off`.
unfoldable pub level_of : Text → Level
level_of level =
    if text_eq (lower level) (codes "low")
    then low
    else if text_eq (lower level) (codes "medium")
    then medium
    else if text_eq (lower level) (codes "high")
    then high
    else off

abbrev pub thinking_on : Level → Bool
thinking_on off = false
thinking_on _ = true

unfoldable pub gemini_budget : Level → ℕ
gemini_budget off = 0
gemini_budget low = 512
gemini_budget medium = 2048
gemini_budget high = 8192

-- The budget of a level that thinks.
abbrev claude_budget : Level → ℕ
claude_budget off = 0
claude_budget low = 2000
claude_budget medium = 8000
claude_budget high = 16000

unfoldable pub reasoning_effort_of : Level → String
reasoning_effort_of off = "low"
reasoning_effort_of low = "low"
reasoning_effort_of medium = "medium"
reasoning_effort_of high = "high"

-- A "thinking" dictionary: its type, and its budget where it has one.
pub data Thinking : Type 0 where
  enabled disabled : Thinking
  enabled_for : (budget_tokens : ℕ) → Thinking

-- The dictionary `extra_body`, by its keys.
pub record ExtraBody : Type 0 where
  pub stream : Option Bool
  pub thinking_budget : Option ℕ
  pub reasoning_effort : Option String
  pub thinking : Option Thinking
  pub enable_thinking : Option Bool

abbrev pub no_extra : ExtraBody
no_extra = record {
  stream = none;
  thinking_budget = none;
  reasoning_effort = none;
  thinking = none;
  enable_thinking = none;
}

-- The dictionary `model_kwargs`, by its keys.
pub record ModelKwargs : Type 0 where
  pub thinking : Option Thinking
  pub reasoning_effort : Option String
  pub extra_body : Option ExtraBody

abbrev pub in_extra : ExtraBody → ModelKwargs
in_extra e = record { thinking = none; reasoning_effort = none; extra_body = some e }

abbrev pub is_claude : Text → Bool
is_claude mid = starts_with mid (codes "claude")

abbrev pub is_gemini : Text → Bool
is_gemini mid = starts_with mid (codes "gemini") || contains (codes "gemini") mid

abbrev pub is_gemini_pro : Text → Bool
is_gemini_pro mid = is_gemini mid && contains (codes "pro") mid

abbrev pub is_doubao : Text → Bool
is_doubao mid = starts_with mid (codes "doubao") || contains (codes "doubao") mid

abbrev pub is_qwen3 : Text → Bool
is_qwen3 mid =
    starts_with mid (codes "qwen3")
    || starts_with mid (codes "qwen-plus")
    || contains (codes "qwen3") mid

abbrev pub is_deepseek : Text → Bool
is_deepseek mid = contains (codes "deepseek") mid

unfoldable pub claude_kwargs : Level → ModelKwargs
claude_kwargs lvl = record {
  thinking = some (if thinking_on lvl then enabled_for (claude_budget lvl) else disabled);
  reasoning_effort = none;
  extra_body = some (record no_extra { stream = some true });
}

unfoldable pub budget_of : Level → Text → ℕ
unfolding gemini_budget
budget_of lvl mid = if is_gemini_pro mid then max 128 (gemini_budget lvl) else gemini_budget lvl

abbrev pub on_or_off : Level → Thinking
on_or_off lvl = if thinking_on lvl then enabled else disabled

unfoldable pub proxied : Level → Text → ExtraBody
unfolding reasoning_effort_of
proxied lvl mid =
    if is_doubao mid
    then record no_extra { thinking = some (on_or_off lvl) }
    else if is_qwen3 mid
    then record no_extra { reasoning_effort = some "low"; enable_thinking = some false }
    else record no_extra { reasoning_effort = some (reasoning_effort_of lvl) }

unfoldable pub fallback : Level → String → Text → Text → ModelKwargs
unfolding proxied is_compat
fallback lvl provider_type mid route =
    if starts_with route (codes "openai/") && is_compat provider_type
    then in_extra (proxied lvl mid)
    else record {
      thinking = none;
      reasoning_effort = some (reasoning_effort_of lvl);
      extra_body = none;
    }

-- `mid` is the model's name in lower case.
unfoldable pub kwargs_for : Level → String → Text → Text → ModelKwargs
unfolding claude_kwargs budget_of fallback
kwargs_for lvl provider_type mid route =
    if str_eq provider_type "anthropic" || is_claude mid
    then claude_kwargs lvl
    else if str_eq provider_type "gemini"
    then in_extra (record no_extra { thinking_budget = some (budget_of lvl mid) })
    else if is_gemini mid
    then in_extra (record no_extra {
      thinking_budget = some (budget_of lvl mid);
      reasoning_effort = some (reasoning_effort_of lvl);
    })
    else if is_deepseek mid
    then in_extra (record no_extra { thinking = some (on_or_off lvl) })
    else fallback lvl provider_type mid route

unfoldable pub compute_thinking_model_kwargs :
    (level : Text) → String → (model_id route : Text) → ModelKwargs
unfolding level_of kwargs_for
compute_thinking_model_kwargs level provider_type model_id route =
    kwargs_for (level_of level) provider_type (lower model_id) route
