-- ===== src/Compress.antt =====
-- backend/app/services/compression_service.py and backend/app/domain/compression/policy.py and
-- summarizer.py: the old messages of one thread go into a summary. The rows are those of the thread,
-- in the order of `created_at`, and the memory is that of the one agent that is compressed for. The
-- model that summarizes and the printing of a time are parameters; the token ratio of the
-- configuration, which nothing reads, is left out.
pub mod Settles
pub mod Lock
use colony_agents.Prelude.{
  ℕ, zero, suc, ◌+◌, ◌-◌, max, min, Text, codes, String, Bool, true, false, not, ◌&&◌, ◌||◌, Option,
  none, some, List, [], ◌∷◌, ◌++◌, map, select, any, length, take, drop, last?, is_nil, starts_with,
  strip, str, str_eq, join, or_else, ltb, leb, ◌==◌, if◌then◌else◌,
}
use colony_agents.Prelude.Table.{member}

-- A row of `messages`: of its meta, whether there is one, and the keys that hold something.
pub record Row : Type 0 where
  pub id : ℕ
  pub role : String
  pub content : Text
  pub has_meta : Bool
  pub meta_keys : List String
  pub created_at : ℕ
  pub is_compressed : Bool

-- A row of `thread_agent_memories`.
pub record Memory : Type 0 where
  pub memory_md : Text
  pub compressed_message_count : ℕ
  pub last_compressed_at : Option ℕ

pub record Thread : Type 0 where
  pub messages : List Row
  pub memory : Option Memory
  pub compressed_up_to_at : Option ℕ

unfoldable pub should_compress : (total_tokens threshold_tokens : ℕ) → Bool
should_compress total_tokens threshold_tokens = leb threshold_tokens total_tokens

-- msgs[:-keep_recent] of a longer list; the slice up to minus zero is empty.
unfoldable pub pick_compressible {ℓ} : {A : Type ℓ} → List A → ℕ → List A
pick_compressible msgs keep_recent =
    if ltb keep_recent (length msgs)
    then if keep_recent == 0 then [] else take (length msgs - keep_recent) msgs
    else []

abbrev is_dialogue : Row → Bool
is_dialogue m = any (λ r. str_eq r m.role) ("user" ∷ "assistant" ∷ [])

unfoldable pub estimate_dialogue_tokens : List Row → ℕ
estimate_dialogue_tokens [] = 0
estimate_dialogue_tokens (m ∷ ms) =
    (if is_dialogue m then length m.content else 0) + estimate_dialogue_tokens ms

-- The settings of one level: what is not set is left to the next one.
pub record Settings : Type 0 where
  pub threshold_tokens : Option ℕ
  pub keep_recent : Option ℕ

-- Of a mission: its column `context_compression_threshold` and its `compression_config`.
pub record ProjectSettings : Type 0 where
  pub context_compression_threshold : ℕ
  pub compression_config : Settings

pub record Config : Type 0 where
  pub threshold_tokens : ℕ
  pub keep_recent : ℕ

abbrev over : Settings → Config → Config
over s c = record {
  threshold_tokens = or_else s.threshold_tokens c.threshold_tokens;
  keep_recent = or_else s.keep_recent c.keep_recent;
}

abbrev of_project : Option ProjectSettings → Config → Config
of_project none c = c
of_project (some p) c = over p.compression_config (record c {
  threshold_tokens =
      if p.context_compression_threshold == 0
      then c.threshold_tokens
      else p.context_compression_threshold;
})

-- `resolve_compression_config`, by the platform's settings.
unfoldable pub resolve_compression_config : Config → Option ProjectSettings → Settings → Config
resolve_compression_config platform project thread =
    let c = over thread (of_project project platform) in
    record {
      threshold_tokens = max 1000 c.threshold_tokens;
      keep_recent = max 3 (min 100 c.keep_recent);
    }

-- k.count(…): the places of a text that do not overlap; so many characters are skipped first.
unfoldable pub count_from : Text → ℕ → Text → ℕ
count_from k skip [] = 0
count_from k (suc skip) (c ∷ s) = count_from k skip s
count_from k zero (c ∷ s) =
    let found = 1 + count_from k (length k - 1) s in
    let rest = count_from k zero s in if starts_with (c ∷ s) k then found else rest

abbrev marker : Text
marker = codes "## 压缩段 #"

-- `fallback_summarize`
abbrev hinted : List String
hinted = "tool_calls" ∷ "tool_call" ∷ "approval" ∷ "form" ∷ "artifacts" ∷ "artifact" ∷ []

unfoldable pub meta_hint : Row → Text
meta_hint m =
    let keys = select (λ k. any (λ j. str_eq j k) m.meta_keys) hinted in
    if is_nil keys then [] else codes "  · meta: " ++ join (codes ",") (map codes keys)

unfoldable pub shortened : Text → Text
shortened body =
    if ltb 600 (length body)
    then take 300 body ++ (codes " … " ++ drop (length body - 300) body)
    else body

unfoldable pub summary_lines : List Row → List Text
summary_lines [] = []
summary_lines (m ∷ ms) =
    let rest = summary_lines ms in
    let line =
      codes "- ["
      ++ (codes m.role ++ (codes "] " ++ (shortened (strip m.content) ++ meta_hint m))) in
    if not (is_nil m.content) || m.has_meta then line ∷ rest else rest

unfoldable pub fallback_summarize : List Row → Text
fallback_summarize ms = codes "## 压缩记忆（降级摘要）\n\n" ++ join (codes "\n") (summary_lines ms)

-- UPDATE messages SET is_compressed = true WHERE id IN :ids
unfoldable pub mark : List ℕ → List Row → List Row
mark ids [] = []
mark ids (m ∷ ms) = (if member m.id ids then record m { is_compressed = true } else m) ∷ mark ids ms

abbrev pub uncompressed : List Row → List Row
uncompressed = select (λ (m : Row). not m.is_compressed)

module _ (model : List Row → Option Text) (print_time : ℕ → Text) where
  abbrev said : Text → List Row → Text
  said [] ms = fallback_summarize ms
  said (c ∷ s) ms = c ∷ s

  -- `_llm_summarize`: the model's text, or the other summary where it fails or says nothing.
  unfoldable pub llm_summarize : List Row → Text
  llm_summarize [] = []
  llm_summarize (m ∷ ms) = elim (model (m ∷ ms)) [
    | none ↦ fallback_summarize (m ∷ ms)
    | some t ↦ said (strip t) (m ∷ ms)
  ]

  abbrev time_of : Option Row → Text
  time_of none = codes "?"
  time_of (some m) = print_time m.created_at

  abbrev first? : List Row → Option Row
  first? [] = none
  first? (m ∷ ms) = some m

  -- `_wrap_segment`
  unfoldable pub wrap_segment : List Row → ℕ → Bool → Text
  wrap_segment ms seq_no leading_separator =
      (if leading_separator then codes "\n\n---\n" else [])
      ++ (marker
          ++ (str seq_no
              ++ (codes "（"
                  ++ (time_of (first? ms)
                      ++ (codes " ~ "
                          ++ (time_of (last? ms)
                              ++ (codes "，"
                                  ++ (str (length ms)
                                      ++ (codes " 条消息）\n<!-- 该段为独立摘要，覆盖上述时间窗口的对话，不引用其他段落 -->\n\n"
                                          ++ (strip (llm_summarize ms)
                                              ++ (codes "\n\n<!-- end 压缩段 #"
                                                  ++ (str seq_no ++ codes " -->"))))))))))))

  abbrev remembered : List Row → ℕ → Option Memory → Memory
  remembered ms now none = record {
    memory_md = wrap_segment ms 1 false;
    compressed_message_count = length ms;
    last_compressed_at = some now;
  }
  remembered ms now (some old) = record {
    memory_md = old.memory_md ++ wrap_segment ms (count_from marker 0 old.memory_md + 1) true;
    compressed_message_count = old.compressed_message_count + length ms;
    last_compressed_at = some now;
  }

  abbrev watermark : Option Row → Option ℕ → Option ℕ
  watermark none old = old
  watermark (some m) old = some m.created_at

  -- The transaction; where it fails, it is rolled back.
  abbrev pub store : List Row → ℕ → Bool → Thread → Option Memory × Thread
  store ms now false t = (none, t)
  store ms now true t =
      let memory = remembered ms now t.memory in
      (
        some memory,
        record {
          messages = mark (map (λ (m : Row). m.id) ms) t.messages;
          memory = some memory;
          compressed_up_to_at = watermark (last? ms) t.compressed_up_to_at;
        },
      )

  -- `maybe_compress_context`, with the threshold and the number of messages to keep.
  unfoldable pub maybe_compress_context :
      (threshold_tokens keep_recent now : ℕ) (commits : Bool) → Thread → Option Memory × Thread
  unfolding mark
  maybe_compress_context threshold_tokens keep_recent now commits t =
      let msgs = uncompressed t.messages in
      let old = pick_compressible msgs keep_recent in
      if is_nil msgs
      then (none, t)
      else if not (should_compress (estimate_dialogue_tokens msgs) threshold_tokens)
      then (none, t)
      else if is_nil old
      then (none, t)
      else store old now commits t
