-- ===== src/Llm/Retry.antt =====
-- `_astream_once` of backend/app/services/resilient_llm.py: the retries of one call of the provider.
-- The provider is a function from the attempt's number to what it does.
pub mod Once
use colony_agents.Prelude.{
  ℕ, zero, suc, ◌+◌, Text, codes, str, ◌++◌, Bool, true, false, Option, none, some, List, [], ◌∷◌,
  if◌then◌else◌,
}
use colony_agents.Llm.Chunk.{Chunk, Exc, is_retryable_exc}

-- What the provider's stream does: no chunk within the budget, an end without a chunk, an exception
-- before the first chunk, or chunks, and then its end or an exception.
pub data Attempt : Type 0 where
  times_out empty : Attempt
  fails : Exc → Attempt
  streams : Chunk → List Chunk → Option Exc → Attempt

-- What the consumer sees: the chunks, how the stream ends, and the number of attempts made.
pub record Streamed : Type 0 where
  pub chunks : List Chunk
  pub raised : Option Exc
  pub attempts : ℕ

-- The message leaves out the budget's seconds.
abbrev pub timeout_exc : ℕ → Exc
timeout_exc n = record {
  type_name = codes "TimeoutError";
  message = codes "First token budget exceeded on attempt " ++ str n;
}

-- The attempt `n`, where `again` is what follows an exception that is retried.
abbrev pub on_attempt : ℕ → (Exc → Streamed) → Attempt → Streamed
on_attempt n again times_out = again (timeout_exc n)
on_attempt n again empty = record { chunks = []; raised = none; attempts = n }
on_attempt n again (fails e) =
    if is_retryable_exc e then again e else record { chunks = []; raised = some e; attempts = n }
on_attempt n again (streams c cs e) = record { chunks = c ∷ cs; raised = e; attempts = n }

abbrev pub exhausted : ℕ → Exc → Streamed
exhausted n e = record { chunks = []; raised = some e; attempts = n }

-- From attempt `n` on, with `left` attempts after it.
unfoldable pub attempts_from : (ℕ → Attempt) → ℕ → ℕ → Streamed
attempts_from provider zero n = on_attempt n (exhausted n) (provider n)
attempts_from provider (suc left) n =
    on_attempt n (λ e. attempts_from provider left (n + 1)) (provider n)

unfoldable pub astream_once : ℕ → (ℕ → Attempt) → Streamed
unfolding attempts_from
astream_once max_retries provider = attempts_from provider max_retries 1
