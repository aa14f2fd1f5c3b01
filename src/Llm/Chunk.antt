-- ===== src/Llm/Chunk.antt =====
-- The chunks of a streamed answer, and what backend/app/services/resilient_llm.py reads from them.
use colony_agents.Prelude.{
  ℕ, String, Text, codes, Bool, false, ◌&&◌, ◌||◌, Option, none, some, List, [], ◌∷◌, ◌++◌, str_eq,
  leb, ltb, if◌then◌else◌, any, text_eq, contains_any, lower,
}
use colony_agents.Prelude.Dict.{Dict, get}

-- An item of a list content: a string, or a dictionary by its type and its text.
pub data Part : Type 0 where
  str_part : Text → Part
  dict_part : (type : String) (text : Text) → Part

-- The content of a message: a string, a list, or None.
pub data Content : Type 0 where
  str : Text → Content
  parts : List Part → Content
  nothing : Content

pub record Usage : Type 0 where
  pub output_tokens : Option ℕ
  pub completion_tokens : Option ℕ

-- A ChatGenerationChunk with its message. The dictionaries hold the values that are strings; the
-- flags are the truth of the fields of those names.
pub record Chunk : Type 0 where
  pub content : Content
  pub generation_info : Dict Text
  pub response_metadata : Dict Text
  pub additional_kwargs : Dict Text
  pub usage_metadata : Option Usage
  pub response_usage : Option Usage
  pub tool_call_chunks : Bool
  pub tool_calls : Bool
  pub kwargs_tool_calls : Bool
  pub kwargs_function_call : Bool

abbrev truthy : Option Text → Option Text
truthy none = none
truthy (some []) = none
truthy (some (c ∷ s)) = some (c ∷ s)

abbrev or_next : Option Text → Option Text → Option Text
or_next (some fr) rest = some fr
or_next none rest = rest

-- for key in ("finish_reason", "stop_reason"): …
abbrev reason_in : Dict Text → Option Text
reason_in d = or_next (truthy (get "finish_reason" d)) (truthy (get "stop_reason" d))

unfoldable pub extract_finish_reason : Chunk → Option Text
extract_finish_reason c =
    or_next (reason_in c.generation_info)
      (or_next (reason_in c.response_metadata) (reason_in c.additional_kwargs))

abbrev length_stop_tokens : List Text
length_stop_tokens =
    codes "length"
    ∷ codes "max_tokens"
    ∷ codes "max_output_tokens"
    ∷ codes "max_tokens_exceeded"
    ∷ []

unfoldable pub is_length_stop : Option Text → Bool
is_length_stop none = false
is_length_stop (some []) = false
is_length_stop (some (c ∷ s)) = any (λ t. text_eq t (lower (c ∷ s))) length_stop_tokens

abbrev count : Option ℕ → ℕ
count none = 0
count (some n) = n

-- int(out_tokens or 0), where out_tokens is output_tokens or completion_tokens
abbrev tokens_of : Option Usage → ℕ
tokens_of none = 0
tokens_of (some u) = elim u.output_tokens [
  | none ↦ count u.completion_tokens
  | some n ↦ if ltb 0 n then n else count u.completion_tokens
]

abbrev usage_of : Option Usage → Option Usage → Option Usage
usage_of none other = other
usage_of (some u) other = some u

abbrev reaches : Option Usage → ℕ → Bool
reaches none max = false
reaches (some u) max = leb max (tokens_of (some u))

unfoldable pub chunk_usage_hit_limit : Option ℕ → Chunk → Bool
chunk_usage_hit_limit none c = false
chunk_usage_hit_limit (some max) c =
    ltb 0 max && reaches (usage_of c.usage_metadata c.response_usage) max

unfoldable pub chunk_has_tool_call : Chunk → Bool
chunk_has_tool_call c =
    c.tool_call_chunks || c.tool_calls || c.kwargs_tool_calls || c.kwargs_function_call

abbrev pub part_text : Part → Text
part_text (str_part s) = s
part_text (dict_part type s) = if str_eq type "text" then s else []

unfoldable pub parts_text : List Part → Text
parts_text [] = []
parts_text (p ∷ ps) = part_text p ++ parts_text ps

unfoldable pub content_text : Content → Text
unfolding parts_text
content_text (str s) = s
content_text (parts ps) = parts_text ps
content_text nothing = []

-- `_chunk_text`
unfoldable pub chunk_text : Chunk → Text
unfolding content_text
chunk_text c = content_text c.content

abbrev pub retryable_markers : List Text
retryable_markers =
    codes "500"
    ∷ codes "502"
    ∷ codes "503"
    ∷ codes "504"
    ∷ codes "internal server error"
    ∷ codes "internal_server_error"
    ∷ codes "internalservererror"
    ∷ codes "bad gateway"
    ∷ codes "badgateway"
    ∷ codes "service unavailable"
    ∷ codes "gateway timeout"
    ∷ codes "apitimeouterror"
    ∷ codes "apiconnectionerror"
    ∷ codes "timed out"
    ∷ codes "timeout"
    ∷ codes "connection reset"
    ∷ codes "connection aborted"
    ∷ codes "remotedisconnected"
    ∷ codes "incompleteread"
    ∷ []

-- An exception is the name of its type and its message.
pub record Exc : Type 0 where
  pub type_name : Text
  pub message : Text

unfoldable pub is_retryable_exc : Exc → Bool
is_retryable_exc e =
    contains_any retryable_markers (lower (e.type_name ++ (codes " " ++ e.message)))
