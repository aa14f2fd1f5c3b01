-- ===== src/Llm/Content.antt =====
-- `_sanitize_message_content` of backend/app/services/resilient_llm.py: what is dropped from a
-- message before it is sent again.
use colony_agents.Prelude.{
  Bool, true, false, List, [], ◌∷◌, ◌++◌, ◌≡◌, refl, ap, ◌∙◌, any, all, str_eq, eq_iff, String,
  if◌then◌else◌, Bool-cases, inl, inr,
}
use colony_agents.Llm.Chunk.{
  Part, str_part, dict_part, Content, str, parts, nothing, parts_text, content_text,
}

abbrev drop_content_types : List String
drop_content_types = "thinking" ∷ "reasoning" ∷ "redacted_thinking" ∷ "reasoning_content" ∷ []

abbrev pub is_dropped : String → Bool
is_dropped type = any (λ t. str_eq type t) drop_content_types

unfoldable pub kept : List Part → List Part
kept [] = []
kept (str_part s ∷ ps) = dict_part "text" s ∷ kept ps
kept (dict_part type s ∷ ps) =
    let rest = kept ps in if is_dropped type then rest else dict_part type s ∷ rest

abbrev is_text : Part → Bool
is_text (str_part s) = false
is_text (dict_part type s) = str_eq type "text"

abbrev all_text : List Part → Bool
all_text = all is_text

abbrev pub collapsed : List Part → Content
collapsed [] = str []
collapsed (p ∷ ps) = if all_text (p ∷ ps) then str (parts_text (p ∷ ps)) else parts (p ∷ ps)

unfoldable pub sanitize_message_content : Content → Content
unfolding kept parts_text
sanitize_message_content (str s) = str s
sanitize_message_content nothing = nothing
sanitize_message_content (parts ps) = collapsed (kept ps)

-- `_sanitize_messages`: the messages with their contents changed.
unfoldable pub sanitize_messages : List Content → List Content
unfolding sanitize_message_content
sanitize_messages [] = []
sanitize_messages (c ∷ cs) = sanitize_message_content c ∷ sanitize_messages cs

text_type : (t : String) → str_eq t "text" ≡ true → is_dropped t ≡ false
text_type t h = ap is_dropped ((eq_iff t "text").0 h)

parts_text-kept : (ps : List Part) → parts_text (kept ps) ≡ parts_text ps
unfolding kept parts_text
parts_text-kept [] = refl
parts_text-kept (str_part s ∷ ps) = ap (λ t. s ++ t) (parts_text-kept ps)
parts_text-kept (dict_part type s ∷ ps) = elim (Bool-cases (str_eq type "text")) [
  | inl e ↦ rw (e, text_type type e) (rw e (ap (λ t. s ++ t) (parts_text-kept ps)))
  | inr e ↦ elim (Bool-cases (is_dropped type)) [
    | inl d ↦ rw (e, d) (parts_text-kept ps)
    | inr d ↦ rw (e, d) (rw e (parts_text-kept ps))
  ]
]

kept_idem : (ps : List Part) → kept (kept ps) ≡ kept ps
unfolding kept
kept_idem [] = refl
kept_idem (str_part s ∷ ps) = ap (λ t. dict_part "text" s ∷ t) (kept_idem ps)
kept_idem (dict_part type s ∷ ps) = elim (Bool-cases (is_dropped type)) [
  | inl d ↦ rw d (kept_idem ps)
  | inr d ↦ rw d (rw d (ap (λ t. dict_part type s ∷ t) (kept_idem ps)))
]

collapsed-text : (ps : List Part) → content_text (collapsed ps) ≡ parts_text ps
unfolding content_text parts_text
collapsed-text [] = refl
collapsed-text (p ∷ ps) = elim (Bool-cases (all_text (p ∷ ps))) [
  | inl e ↦ rw e refl
  | inr e ↦ rw e refl
]

collapsed_again :
    (ps : List Part) → kept ps ≡ ps → sanitize_message_content (collapsed ps) ≡ collapsed ps
unfolding sanitize_message_content
collapsed_again [] h = refl
collapsed_again (p ∷ ps) h = elim (Bool-cases (all_text (p ∷ ps))) [
  | inl e ↦ rw e refl
  | inr e ↦ rw e (rw h (rw e refl))
]

-- The clean content of a message says the same text as the content did, and is clean: cleaning it
-- again changes nothing.
pub sanitize_message_content_lem :
    (c : Content)
    → (content_text (sanitize_message_content c) ≡ content_text c)
      × (sanitize_message_content (sanitize_message_content c) ≡ sanitize_message_content c)
unfolding sanitize_message_content content_text
sanitize_message_content_lem (str s) = (refl, refl)
sanitize_message_content_lem nothing = (refl, refl)
sanitize_message_content_lem (parts ps) =
    (collapsed-text (kept ps) ∙ parts_text-kept ps, collapsed_again (kept ps) (kept_idem ps))
