-- ===== src/Llm/Stream/Rounds.antt =====
-- What of an answer reaches the consumer of `_astream`.
use colony_agents.Prelude.{
  ℕ, zero, suc, ◌+◌, ◌≤◌, Text, Bool, true, false, ◌||◌, ◌&&◌, Option, none, some, List, [], ◌∷◌,
  ◌++◌, ◌≡◌, refl, ap, ◌∙◌, arith, Bool-cases, inl, inr, sym, subst, any, all, not,
}
use mathlib.Core.List.{append-nil, append_assoc}
use colony_agents.Llm.Chunk.{Chunk, Content, str, Exc, chunk_text, chunk_has_tool_call}
use colony_agents.Llm.Content.{sanitize_messages}
use colony_agents.Llm.Retry.{astream_once}
use colony_agents.Llm.Stream.{
  Messages, Provider, Segment, new_segment, is_final, stops_at_length, read_chunk, read_chunks,
  returns, Answer, flushed, then_answer, after_segment, round, rounds, astream, continued,
  max_continuations,
}

unfoldable pub texts : List Chunk → Text
texts [] = []
texts (c ∷ cs) = chunk_text c ++ texts cs

after_segment-calls :
    (s : Segment) (e : Option Exc) (a : Answer) (left : ℕ)
    → a.calls ≤ left
    → (after_segment s e (some a)).calls ≤ left + 1
unfolding after_segment then_answer
after_segment-calls s (some e) a left h = omega arith
after_segment-calls s none a left h = ground arith

after_segment_last : (s : Segment) (e : Option Exc) → (after_segment s e none).calls ≡ 1
unfolding after_segment
after_segment_last s (some e) = refl
after_segment_last s none = ground arith

-- The rounds that a call makes.
module _ (max_retries : ℕ) (max_tokens : Option ℕ) (provider : Provider) (prompt : Content) where
  rounds-calls :
      (left : ℕ) (messages : Messages)
      → (rounds max_retries max_tokens provider prompt left messages).calls ≤ left + 1
  unfolding rounds
  rounds-calls zero messages = omega (
    arith,
    after_segment_last (round max_retries max_tokens provider prompt messages).0
        (round max_retries max_tokens provider prompt messages).1,
  )
  rounds-calls (suc left) messages =
      let (s, e) = round max_retries max_tokens provider prompt messages in
      subst (λ n. (rounds max_retries max_tokens provider prompt (suc left) messages).calls ≤ n)
        (omega arith)
        (after_segment-calls s e
          (rounds max_retries max_tokens provider prompt left (continued prompt messages s))
          (left + 1) (rounds-calls left (continued prompt messages s)))

  -- One answer takes at most four calls of the provider's stream: the first and three more that
  -- continue it.
  pub astream-calls :
      (messages : Messages) → (astream max_retries max_tokens provider prompt messages).calls ≤ 4
  unfolding astream
  astream-calls messages = rounds-calls max_continuations (sanitize_messages messages)

-- The segment `t` is `s` with `cs` read, all passed on.
record IsThrough (cs : List Chunk) (s t : Segment) : Type 0 where
  yielded : t.yielded ≡ s.yielded ++ cs
  text : t.text ≡ s.text ++ texts cs
  tool : t.has_tool_call ≡ s.has_tool_call || any chunk_has_tool_call cs
  pending : t.pending_final_chunk ≡ s.pending_final_chunk
  cut : t.length_stop_detected ≡ s.length_stop_detected

or_assoc : (a b c : Bool) → (a || b) || c ≡ a || (b || c)
or_assoc a b c = ground arith

or_false : (a : Bool) → a ≡ a || false
or_false a = ground arith

module _ (max_tokens : Option ℕ) where
  -- None of the chunks has a reason to finish, or says that the limit is reached.
  abbrev pub are_plain : List Chunk → Bool
  are_plain cs = all (λ c. not (is_final max_tokens c)) cs

  read_plain :
      (cs : List Chunk) (s : Segment)
      → are_plain cs ≡ true
      → IsThrough cs s (read_chunks max_tokens cs s)
  unfolding read_chunks read_chunk texts
  read_plain [] s h = record {
    yielded = sym (append-nil s.yielded);
    text = sym (append-nil s.text);
    tool = or_false s.has_tool_call;
    pending = refl;
    cut = refl;
  }
  read_plain (c ∷ cs) s h = elim (Bool-cases (is_final max_tokens c)) [
    | inl f ↦ absurd (ground (arith, h, f))
    | inr e ↦
        let t = read_plain cs (read_chunk max_tokens c s) (ground (arith, h, e)) in
        record {
          yielded = t.yielded ∙ rw e (append_assoc s.yielded (c ∷ []) cs);
          text = t.text ∙ append_assoc s.text (chunk_text c) (texts cs);
          tool =
              t.tool
              ∙ or_assoc s.has_tool_call (chunk_has_tool_call c) (any chunk_has_tool_call cs);
          pending = t.pending ∙ rw e refl;
          cut = t.cut ∙ rw e (sym (or_false s.length_stop_detected));
        }
  ]

  read_append :
      (cs ds : List Chunk) (s : Segment)
      → read_chunks max_tokens (cs ++ ds) s
        ≡ read_chunks max_tokens ds (read_chunks max_tokens cs s)
  unfolding read_chunks
  read_append [] ds s = refl
  read_append (c ∷ cs) ds s = read_append cs ds (read_chunk max_tokens c s)

-- A round whose provider shows the plain chunks `cs` and then `c`, and ends without an exception.
module _ (max_retries : ℕ) (max_tokens : Option ℕ) (provider : Provider) (prompt : Content)
    (messages : Messages) (cs : List Chunk) (c : Chunk) (plain : are_plain max_tokens cs ≡ true)
    (shows : (astream_once max_retries (provider messages)).chunks ≡ cs ++ (c ∷ []))
    (ended : (astream_once max_retries (provider messages)).raised ≡ none) where
  abbrev before_last : Segment
  before_last = read_chunks max_tokens cs new_segment

  -- The last segment's fields.
  last_segment : IsThrough cs new_segment before_last
  last_segment = read_plain max_tokens cs new_segment plain

  ends_here :
      (more : Option Answer)
      → (is_final max_tokens c && stops_at_length max_tokens c) ≡ false
      → after_segment (read_chunk max_tokens c before_last) none more
        ≡ record { chunks = cs ++ (c ∷ []); ending = returns; calls = 1 }
  unfolding after_segment flushed read_chunk
  ends_here more h = elim (Bool-cases (is_final max_tokens c)) [
    | inl f ↦ rw (last_segment.cut, h, f, last_segment.yielded) refl
    | inr f ↦ rw (last_segment.cut, h, f, last_segment.pending, last_segment.yielded) refl
  ]

  goes_on :
      (a : Answer)
      → (is_final max_tokens c && stops_at_length max_tokens c) ≡ true
      → any chunk_has_tool_call cs ≡ false
      → chunk_has_tool_call c ≡ false
      → after_segment (read_chunk max_tokens c before_last) none (some a) ≡ then_answer cs a
  unfolding after_segment read_chunk
  goes_on a h no_tool no_tool_last = elim (Bool-cases (is_final max_tokens c)) [
    | inl f ↦
        rw (last_segment.cut, h, f, last_segment.tool, no_tool, no_tool_last, last_segment.yielded)
          refl
    | inr f ↦ absurd (ground (arith, h, f))
  ]

  -- A round whose last chunk is not stopped at the length limit: every chunk is passed on, in the
  -- provider's order, the answer ends there, and it took one call.
  pub whole_round :
      (left : ℕ)
      → (is_final max_tokens c && stops_at_length max_tokens c) ≡ false
      → rounds max_retries max_tokens provider prompt left messages
        ≡ record { chunks = cs ++ (c ∷ []); ending = returns; calls = 1 }
  unfolding rounds after_segment flushed read_chunk
  whole_round zero h =
      rw (shows, ended, read_append max_tokens cs (c ∷ []) new_segment) (ends_here none h)
  whole_round (suc left) h =
      rw (shows, ended, read_append max_tokens cs (c ∷ []) new_segment)
        (ends_here
          (some (
            rounds max_retries max_tokens provider prompt left
              (continued prompt messages (read_chunk max_tokens c before_last))))
          h)

  -- A round whose last chunk is stopped at the length limit, with no tool call in it and a further
  -- round left: the consumer gets `cs`, without the last chunk, and then the chunks of the further
  -- round, while the message sent back to the provider holds the text of `cs` and of the last chunk.
  pub cut_round :
      (left : ℕ)
      → (is_final max_tokens c && stops_at_length max_tokens c) ≡ true
      → any chunk_has_tool_call cs ≡ false
      → chunk_has_tool_call c ≡ false
      → rounds max_retries max_tokens provider prompt (suc left) messages
        ≡ then_answer cs (
            rounds max_retries max_tokens provider prompt left
              (messages ++ (str (texts cs ++ chunk_text c) ∷ prompt ∷ [])))
  unfolding rounds after_segment read_chunk continued
  cut_round left h no_tool no_tool_last =
      rw (shows, ended, read_append max_tokens cs (c ∷ []) new_segment)
        (goes_on _ h no_tool no_tool_last
          ∙ ap
              (λ t. then_answer cs (
                rounds max_retries max_tokens provider prompt left
                  (messages ++ (str (t ++ chunk_text c) ∷ prompt ∷ []))))
              last_segment.text)
