-- ===== src/Llm/Stream.antt =====
-- `_astream` of backend/app/services/resilient_llm.py: an answer that the token limit cut is
-- continued, with what was written so far sent back to the provider. The provider is a function from
-- the messages and the attempt's number. A consumer that stops reading is not modelled.
pub mod Rounds
use colony_agents.Prelude.{
  ℕ, zero, suc, ◌+◌, Text, codes, Bool, true, false, ◌&&◌, ◌||◌, Option, none, some, is_some, not,
  List, [], ◌∷◌, ◌++◌, if◌then◌else◌,
}
use colony_agents.Llm.Chunk.{
  Chunk, Content, str, Exc, chunk_text, chunk_has_tool_call, extract_finish_reason, is_length_stop,
  chunk_usage_hit_limit,
}
use colony_agents.Llm.Content.{sanitize_messages}
use colony_agents.Llm.Retry.{Attempt, Streamed, astream_once}

abbrev pub max_continuations : ℕ
max_continuations = 3

-- The content of a message; who speaks is left out.
abbrev pub Messages : Type 0
Messages = List Content

abbrev pub Provider : Type 0
Provider = Messages → ℕ → Attempt

-- The variables of one round of the loop, and the chunks that it has yielded.
pub record Segment : Type 0 where
  pub yielded : List Chunk
  pub text : Text
  pub has_tool_call : Bool
  pub pending_final_chunk : Option Chunk
  pub length_stop_detected : Bool

abbrev pub new_segment : Segment
new_segment = record {
  yielded = [];
  text = [];
  has_tool_call = false;
  pending_final_chunk = none;
  length_stop_detected = false;
}

-- fr is not None or usage_hit
unfoldable pub is_final : Option ℕ → Chunk → Bool
is_final max_tokens c = is_some (extract_finish_reason c) || chunk_usage_hit_limit max_tokens c

unfoldable pub stops_at_length : Option ℕ → Chunk → Bool
stops_at_length max_tokens c =
    is_length_stop (extract_finish_reason c) || chunk_usage_hit_limit max_tokens c

-- The body of the loop over the chunks.
unfoldable pub read_chunk : Option ℕ → Chunk → Segment → Segment
read_chunk max_tokens c s = record {
  yielded = if is_final max_tokens c then s.yielded else s.yielded ++ (c ∷ []);
  text = s.text ++ chunk_text c;
  has_tool_call = s.has_tool_call || chunk_has_tool_call c;
  pending_final_chunk = if is_final max_tokens c then some c else s.pending_final_chunk;
  length_stop_detected =
      s.length_stop_detected || (is_final max_tokens c && stops_at_length max_tokens c);
}

unfoldable pub read_chunks : Option ℕ → List Chunk → Segment → Segment
unfolding read_chunk
read_chunks max_tokens [] s = s
read_chunks max_tokens (c ∷ cs) s = read_chunks max_tokens cs (read_chunk max_tokens c s)

-- How the whole stream ends.
pub data Ending : Type 0 where
  returns : Ending
  raises : Exc → Ending
  cut_in_tool_call : Ending

pub record Answer : Type 0 where
  pub chunks : List Chunk
  pub ending : Ending
  pub calls : ℕ

unfoldable pub flushed : Segment → List Chunk
flushed s = elim s.pending_final_chunk [ none ↦ s.yielded | some c ↦ s.yielded ++ (c ∷ []) ]

-- AIMessage(content=produced_text) and HumanMessage(content=_CONTINUE_PROMPT)
unfoldable pub continued : Content → Messages → Segment → Messages
continued prompt messages s = messages ++ (str s.text ∷ prompt ∷ [])

-- The chunks of a round before those of the rounds after it.
unfoldable pub then_answer : List Chunk → Answer → Answer
then_answer cs a = record { chunks = cs ++ a.chunks; ending = a.ending; calls = a.calls + 1 }

abbrev once : List Chunk → Ending → Answer
once cs e = record { chunks = cs; ending = e; calls = 1 }

-- The decision at the end of a round; `more` is the next one, where one is left.
unfoldable pub after_segment : Segment → Option Exc → Option Answer → Answer
unfolding flushed then_answer
after_segment s (some e) more = once s.yielded (raises e)
after_segment s none more =
    if not s.length_stop_detected
    then once (flushed s) returns
    else if s.has_tool_call
    then once s.yielded cut_in_tool_call
    else elim more [ none ↦ once (flushed s) returns | some a ↦ then_answer s.yielded a ]

module _ (max_retries : ℕ) (max_tokens : Option ℕ) (provider : Provider) (prompt : Content) where
  unfoldable pub round : Messages → Segment × Option Exc
  unfolding read_chunks
  round messages =
      let s = astream_once max_retries (provider messages) in
      (read_chunks max_tokens s.chunks new_segment, s.raised)

  -- The rounds, with `left` of them after the next one.
  unfoldable pub rounds : ℕ → Messages → Answer
  unfolding round after_segment continued
  rounds zero messages = let (s, e) = round messages in after_segment s e none
  rounds (suc left) messages =
      let (s, e) = round messages in
      after_segment s e (some (rounds left (continued prompt messages s)))

  unfoldable pub astream : Messages → Answer
  unfolding rounds
  astream messages = rounds max_continuations (sanitize_messages messages)
