-- ===== src/Llm/Errors.antt =====
-- backend/app/services/llm_error_classifier.py: what a failed call of a model is called, whether it
-- is tried again, and the id of the request that its text holds. The classes are those of the
-- libraries litellm and httpx: an exception says of which it is an instance, and a class that the
-- installed litellm lacks has none. The texts for the user are left out, one for each code.
pub mod Classes
use colony_agents.Prelude.{
  ℕ, Text, codes, String, Bool, true, false, ◌&&◌, ◌||◌, Option, none, some, List, [], ◌∷◌, lower,
  contains, is_space, ◌++◌, ◌==◌, if◌then◌else◌,
}

pub data ErrorClass : Type 0 where
  bad_gateway service_unavailable gateway_timeout rate_limit internal_server : ErrorClass
  authentication not_found bad_request context_window_exceeded : ErrorClass
  connect_error read_error remote_protocol_error timeout_exception : ErrorClass

-- An exception: its type's name, `str(exc)`, and `isinstance`.
pub record Failure : Type 0 where
  pub type_name : Text
  pub message : Text
  pub is_instance : ErrorClass → Bool

pub data Code : Type 0 where
  bad_gateway service_unavailable gateway_timeout rate_limit internal_server_error : Code
  connection_error timeout auth_error bad_request context_window llm_error : Code

-- The tuple that is returned, but for the text.
pub record Verdict : Type 0 where
  pub retriable : Bool
  pub code : Code
  pub request_id : Option Text

-- What is left of a text behind a prefix.
unfoldable pub after_prefix : Text → Text → Option Text
after_prefix [] s = some s
after_prefix (d ∷ k) [] = none
after_prefix (d ∷ k) (c ∷ s) = if d == c then after_prefix k s else none

unfoldable pub skip_spaces : Text → Text
skip_spaces [] = []
skip_spaces (c ∷ s) = let rest = skip_spaces s in if is_space c then rest else c ∷ s

abbrev quote : ℕ
quote = 0x22

-- The text up to the next quote, where there is one.
unfoldable pub up_to_quote : Text → Option Text
up_to_quote [] = none
up_to_quote (c ∷ s) = elim (up_to_quote s) [
  | none ↦ if c == quote then some [] else none
  | some t ↦ (if c == quote then some [] else some (c ∷ t))
]

abbrev and_then : Option Text → (Text → Option Text) → Option Text
and_then none f = none
and_then (some s) f = f s

abbrev not_empty : Text → Option Text
not_empty [] = none
not_empty (c ∷ s) = some (c ∷ s)

-- "request_id"\s*:\s*"([^"]+)" at the start of the text
unfoldable pub id_at : Text → Option Text
id_at s = and_then (after_prefix (quote ∷ (codes "request_id" ++ (quote ∷ []))) s) λ a.
    and_then (after_prefix (codes ":") (skip_spaces a)) λ b.
      and_then (after_prefix (quote ∷ []) (skip_spaces b)) λ c. and_then (up_to_quote c) not_empty

-- The first place where it stands.
unfoldable pub request_id_of : Text → Option Text
request_id_of [] = none
request_id_of (c ∷ s) = elim (id_at (c ∷ s)) [ none ↦ request_id_of s | some found ↦ some found ]

-- "500" in text and ("internal" in text.lower() or "status" in text.lower())
unfoldable pub says_internal : Text → Bool
says_internal s =
    contains (codes "500") s
    && (contains (codes "internal") (lower s) || contains (codes "status") (lower s))

unfoldable pub verdict_of : Failure → Bool × Code
verdict_of e =
    if e.is_instance bad_gateway
    then (true, bad_gateway)
    else if e.is_instance service_unavailable
    then (true, service_unavailable)
    else if e.is_instance gateway_timeout
    then (true, gateway_timeout)
    else if e.is_instance rate_limit
    then (true, rate_limit)
    else if e.is_instance internal_server
    then (true, internal_server_error)
    else if says_internal e.message
    then (true, internal_server_error)
    else if e.is_instance connect_error
        || (e.is_instance read_error || e.is_instance remote_protocol_error)
    then (true, connection_error)
    else if e.is_instance timeout_exception
    then (true, timeout)
    else if e.is_instance authentication
    then (false, auth_error)
    else if e.is_instance not_found || e.is_instance bad_request
    then (false, bad_request)
    else if e.is_instance context_window_exceeded
    then (false, context_window)
    else (false, llm_error)

unfoldable pub classify_llm_error : Failure → Verdict
classify_llm_error e =
    let (retriable, code) = verdict_of e in
    record { retriable = retriable; code = code; request_id = request_id_of e.message }
