-- ===== src/Llm/Errors/Classes.antt =====
-- Which errors backend/app/services/llm_error_classifier.py tells apart, and where it differs from
-- `_is_retryable_exc` of backend/app/services/resilient_llm.py.
use colony_agents.Prelude.{codes, true, false, ◌++◌, lower, contains_any, ◌≡◌, ◌≢◌, arith}
use colony_agents.Llm.Chunk.{Exc, is_retryable_exc, retryable_markers}
use colony_agents.Llm.Errors.{
  Failure, rate_limit, bad_request, context_window_exceeded, context_window, classify_llm_error,
  verdict_of,
}

-- Where litellm's class of the errors of a context that is too long is a subclass of that of the bad
-- requests, no error is ever classified as a context that is too long.
pub context_window_hidden :
    (e : Failure)
    → (e.is_instance context_window_exceeded ≡ true → e.is_instance bad_request ≡ true)
    → (classify_llm_error e).code ≢ context_window
unfolding classify_llm_error verdict_of
context_window_hidden e sub = λ h. ground (arith, h, sub)

abbrev pub exc_of : Failure → Exc
exc_of e = record { type_name = e.type_name; message = e.message }

-- A rate limit whose name and text hold none of the markers of the chat model is to be tried again
-- by the classification, and is not tried again by the chat model.
pub rate_limit_not_retried :
    (e : Failure)
    → e.is_instance rate_limit ≡ true
    → contains_any retryable_markers (lower (e.type_name ++ (codes " " ++ e.message))) ≡ false
    → ((classify_llm_error e).retriable ≡ true) × (is_retryable_exc (exc_of e) ≡ false)
unfolding classify_llm_error verdict_of is_retryable_exc
rate_limit_not_retried e h none_said = (ground (arith, h), none_said)
