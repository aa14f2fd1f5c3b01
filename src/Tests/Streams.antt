-- ===== src/Tests/Streams.antt =====
-- The chat model with providers that do what the tests say.
use colony_agents.Prelude.{
  ℕ, Text, codes, false, none, [], ◌∷◌, ◌++◌, ◌≡◌, refl, ◌==◌, if◌then◌else◌,
}
use colony_agents.Prelude.Dict.{get}
use colony_agents.Llm.Chunk.{
  str_part, dict_part, Content, str, parts, Chunk, chunk_text, extract_finish_reason,
  is_length_stop, chunk_usage_hit_limit, chunk_has_tool_call,
}
use colony_agents.Llm.Retry.{Attempt, times_out, streams, attempts_from, astream_once}
use colony_agents.Llm.Retry.Once.{IsShown, astream_once-IsShown}
use colony_agents.Llm.Stream.{Provider, then_answer, is_final, stops_at_length, rounds}
use colony_agents.Llm.Stream.Rounds.{texts, cut_round}

abbrev chunk : Text → Text → Chunk
chunk body finish_reason = record {
  content = str body;
  generation_info = ("finish_reason", finish_reason) ∷ [];
  response_metadata = [];
  additional_kwargs = [];
  usage_metadata = none;
  response_usage = none;
  tool_call_chunks = false;
  tool_calls = false;
  kwargs_tool_calls = false;
  kwargs_function_call = false;
}

abbrev plain : Chunk
plain = chunk (codes "once upon ") []

abbrev stopped : Chunk
stopped = chunk (codes "a time") (codes "stop")

abbrev cut : Chunk
cut = chunk (codes "a ti") (codes "length")

-- The first attempt waits too long.
abbrev slow_start : Chunk → ℕ → Attempt
slow_start c n = if n == 1 then times_out else streams plain (c ∷ []) none

abbrev provider : Chunk → Provider
provider c messages = slow_start c

astream_once-IsShown_example :
    IsShown (slow_start stopped) 1 4 (astream_once 3 (slow_start stopped))
astream_once-IsShown_example = astream_once-IsShown (slow_start stopped) 3

cut_round_example :
    rounds 3 none (provider cut) (str (codes "continue")) 1 []
    ≡ then_answer (plain ∷ []) (
        rounds 3 none
          (provider cut)
          (str (codes "continue"))
          0
          (str (texts (plain ∷ []) ++ chunk_text cut) ∷ str (codes "continue") ∷ []))
unfolding astream_once attempts_from is_final stops_at_length extract_finish_reason get
    is_length_stop chunk_usage_hit_limit chunk_has_tool_call
cut_round_example =
    cut_round 3 none (provider cut) (str (codes "continue")) [] (plain ∷ []) cut refl refl refl 0
      refl refl refl

abbrev thoughtful : Content
thoughtful = parts (dict_part "thinking" (codes "hm") ∷ str_part (codes "yes") ∷ [])
