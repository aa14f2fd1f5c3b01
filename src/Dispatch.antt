-- ===== src/Dispatch.antt =====
-- backend/app/domain/dispatch and the call of a worker by a super in
-- backend/app/skills_builtin/super/super_dispatch_skills.py. The reader of JSON is a parameter; of a
-- JSON object the code's own keys are kept.
pub mod Invoke
use colony_agents.Prelude.{
  ℕ, ◌+◌, String, Text, codes, Bool, true, false, not, ◌&&◌, ◌||◌, Option, none, some, is_some,
  List, [], ◌∷◌, ◌++◌, find, length, is_nil, leb, ltb, str, str_eq, strip, or_else, if◌then◌else◌,
}
use mathlib.Core.List.{reverse}

-- The keys of an envelope that the code reads.
pub record Envelope : Type 0 where
  pub status : Option String
  pub error_msg : Option Text
  pub text : Option Text
  pub artifact_url : Option Text

-- A refused call.
abbrev pub refused : String → Text → Envelope
refused status error_msg = record {
  status = some status;
  error_msg = some error_msg;
  text = none;
  artifact_url = none;
}

-- The refusals of `precheck_invocation`.
pub data Refusal : Type 0 where
  too_deep too_many_rounds no_super : Refusal

unfoldable pub precheck_invocation :
    (call_stack : List Text) (clarification_round : ℕ) (super_id : Option ℕ)
    (max_nesting max_clarification_rounds : ℕ)
    → Option Refusal
precheck_invocation call_stack clarification_round super_id max_nesting max_rounds =
    if leb max_nesting (length call_stack)
    then some too_deep
    else if leb max_rounds clarification_round
    then some too_many_rounds
    else if is_some super_id
    then none
    else some no_super

-- The texts, but for the call stack that the first one prints.
abbrev pub refusal_text : ℕ → ℕ → Refusal → Text
refusal_text max_nesting max_rounds too_deep =
    codes "❌ invoke_worker 嵌套深度超 " ++ (str max_nesting ++ codes "（V17）；当前栈=")
refusal_text max_nesting max_rounds too_many_rounds =
    codes "❌ clarification 循环超 "
    ++ (str max_rounds ++ codes " 轮（V37）；请改用 request_approval 让 user 介入")
refusal_text max_nesting max_rounds no_super = codes "❌ ctx.extra.agent_id（super）缺失"

-- The counts under the two names that a provider gives them.
pub record Usage : Type 0 where
  pub input_tokens : Option ℕ
  pub prompt_tokens : Option ℕ
  pub output_tokens : Option ℕ
  pub completion_tokens : Option ℕ

-- A message of the worker's run: a content that is no text is none.
pub record Msg : Type 0 where
  pub type : Option String
  pub role : Option String
  pub content : Option Text
  pub usage_metadata : Option Usage
  pub token_usage : Option Usage

-- a or b or 0
abbrev count_of : Option ℕ → Option ℕ → ℕ
count_of none none = 0
count_of none (some b) = b
count_of (some a) none = a
count_of (some a) (some b) = if ltb 0 a then a else b

abbrev of_metadata : Option Usage → ℕ × ℕ
of_metadata none = (0, 0)
of_metadata (some u) =
    (count_of u.input_tokens u.prompt_tokens, count_of u.output_tokens u.completion_tokens)

abbrev of_response : Option Usage → ℕ × ℕ
of_response none = (0, 0)
of_response (some u) =
    (count_of u.prompt_tokens u.input_tokens, count_of u.completion_tokens u.output_tokens)

-- `_msg_usage`
unfoldable pub msg_usage : Msg → ℕ × ℕ
msg_usage m =
    let (ti, to) = of_metadata m.usage_metadata in
    if ltb 0 ti || ltb 0 to then (ti, to) else of_response m.token_usage

unfoldable pub sum_message_usage : List Msg → ℕ × ℕ
sum_message_usage [] = (0, 0)
sum_message_usage (m ∷ ms) =
    let (a, b) = msg_usage m in let (ti, to) = sum_message_usage ms in (a + ti, b + to)

-- getattr(m, "type", None) or getattr(m, "role", None)
abbrev pub role_of : Msg → String
role_of m = elim m.type [
  | none ↦ or_else m.role ""
  | some t ↦ if str_eq t "" then or_else m.role "" else t
]

module _ (loads : Text → Option Envelope) where
  abbrev is_result : Envelope → Bool
  is_result e = elim e.status [
    | none ↦ false
    | some s ↦ str_eq s "completed" || str_eq s "needs_clarification"
  ]

  abbrev of_content : Option Envelope → Option Envelope
  of_content none = none
  of_content (some e) = if is_result e then some e else none

  -- The envelope that a message holds.
  unfoldable pub envelope_in : Msg → Option Envelope
  envelope_in m = elim m.content [
    | none ↦ none
    | some t ↦ if str_eq (role_of m) "tool" then of_content (loads t) else none
  ]

  abbrev or_next : Option Envelope → Option Envelope → Option Envelope
  or_next none rest = rest
  or_next (some e) rest = some e

  unfoldable pub first_envelope : List Msg → Option Envelope
  first_envelope [] = none
  first_envelope (m ∷ ms) = or_next (envelope_in m) (first_envelope ms)

  -- The newest one.
  unfoldable pub extract_return_result_envelope : List Msg → Option Envelope
  extract_return_result_envelope ms = first_envelope (reverse ms)

-- The newest text of the model that is not blank.
abbrev is_said : Msg → Bool
is_said m =
    (str_eq (role_of m) "ai" || str_eq (role_of m) "assistant")
    && elim m.content [ none ↦ false | some t ↦ not (is_nil (strip t)) ]

abbrev text_of : Option Msg → Text
text_of none = codes "（worker 无文本输出）"
text_of (some m) = elim m.content [ none ↦ [] | some t ↦ strip t ]

unfoldable pub fallback_envelope : List Msg → Envelope
fallback_envelope ms = record {
  status = some "completed";
  error_msg = none;
  text = some (text_of (find is_said (reverse ms)));
  artifact_url = none;
}
