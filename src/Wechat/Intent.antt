-- ===== src/Wechat/Intent.antt =====
-- backend/app/domain/wechat/intent_parser.py: what a reviewer's reply decides where no model reads
-- it. A reply's text is a value with what it says. Letters of a word are those of ASCII, the
-- underscore and the Chinese characters.
pub mod Picks
pub mod Negated
use colony_agents.Prelude.{
  ℕ, zero, suc, ◌+◌, ◌-◌, String, Text, codes, Bool, true, false, not, ◌&&◌, ◌||◌, Option, none,
  some, is_some, List, [], ◌∷◌, ◌++◌, any, all, find, select, length, take, drop, last?, is_nil,
  lower, strip, starts_with, contains, contains_any, text_eq, is_space, is_digit, leb, ltb, ◌==◌,
  if◌then◌else◌,
}
use colony_agents.World.{PendingApproval}

-- [^一-鿿 a-zA-Z]+ is dropped.
abbrev is_core : ℕ → Bool
is_core c =
    (leb 0x4e00 c && leb c 0x9fff)
    || (c == b' ')
    || (leb b'a' c && leb c b'z')
    || (leb b'A' c && leb c b'Z')

unfoldable pub core_of : Text → Text
core_of option = strip (select is_core option)

-- [，,、:：/\s]
abbrev is_separator : ℕ → Bool
is_separator c = any (λ d. d == c) (codes "，,、:：/") || is_space c

unfoldable pub before_separator : Text → Text
before_separator [] = []
before_separator (c ∷ s) = let rest = before_separator s in if is_separator c then [] else c ∷ rest

-- re.split(…, option.strip(), 1)[0].strip()
unfoldable pub head_of : Text → Text
head_of option = strip (before_separator (strip option))

abbrev positive_lower : List Text
positive_lower =
    codes "ok"
    ∷ codes "好"
    ∷ codes "行"
    ∷ codes "可以"
    ∷ codes "yes"
    ∷ codes "确认"
    ∷ codes "确定"
    ∷ codes "是的"
    ∷ []

abbrev positive_text : List Text
positive_text = codes "通过" ∷ codes "同意" ∷ codes "发布" ∷ codes "✓" ∷ codes "✅" ∷ []

abbrev negative_lower : List Text
negative_lower = codes "no" ∷ codes "不行" ∷ codes "不要" ∷ codes "取消" ∷ []

abbrev negative_text : List Text
negative_text = codes "驳回" ∷ codes "拒" ∷ codes "✗" ∷ codes "❌" ∷ []

abbrev pub positive_marks : List Text
positive_marks = codes "通" ∷ codes "同" ∷ codes "发" ∷ codes "✓" ∷ codes "✅" ∷ []

abbrev pub negative_marks : List Text
negative_marks = codes "驳" ∷ codes "拒" ∷ codes "✗" ∷ codes "❌" ∷ codes "不" ∷ []

abbrev pub first : List Text → Option Text
first [] = none
first (o ∷ os) = some o

abbrev pub or_pick : Option Text → Option Text → Option Text
or_pick (some o) rest = some o
or_pick none rest = rest

-- An option that the text holds.
unfoldable pub by_option : List Text → Text → Option Text
by_option opts text = find (λ o. not (is_nil o) && contains o text) opts

-- One whose letters the text holds.
unfoldable pub by_core : List Text → Text → Option Text
by_core opts text = find (λ o. not (is_nil (core_of o)) && contains (core_of o) text) opts

-- One that the text, of two characters or more, begins or heads.
unfoldable pub by_head : List Text → Text → Option Text
by_head opts text =
    if leb 2 (length text)
    then find (λ o. not (is_nil (head_of o)) && (text_eq (head_of o) text || starts_with o text))
        opts
    else none

unfoldable pub is_positive : Text → Text → Bool
is_positive text low = contains_any positive_lower low || contains_any positive_text text

unfoldable pub is_negative : Text → Text → Bool
is_negative text low = contains_any negative_lower low || contains_any negative_text text

-- By what the words say: the first option with such a mark, or the first, or the last.
unfoldable pub by_words : List Text → Text → Text → Option Text
by_words opts text low =
    if is_positive text low && not (is_negative text low)
    then or_pick (find (contains_any positive_marks) opts) (first opts)
    else if is_negative text low && not (is_positive text low)
    then or_pick (find (contains_any negative_marks) opts) (last? opts)
    else none

-- `_pick_for_pending`
unfoldable pub pick_for_pending : PendingApproval → Text → Text → Option Text
pick_for_pending p text low = or_pick (by_option p.options text) (
    or_pick (by_core p.options text)
      (or_pick (by_head p.options text) (by_words p.options text low)))

-- A picked option that is empty counts as none.
abbrev pub given : Option Text → Option Text
given none = none
given (some []) = none
given (some (c ∷ o)) = some (c ∷ o)

abbrev is_hex : ℕ → Bool
is_hex c = (leb b'a' c && leb c b'f') || is_digit c

abbrev is_word : ℕ → Bool
is_word c =
    (leb b'a' c && leb c b'z')
    || (leb b'A' c && leb c b'Z')
    || is_digit c
    || (c == b'_')
    || (leb 0x4e00 c && leb c 0x9fff)

-- The words of a text, from the left: the longest runs of letters.
abbrev add_to : ℕ → List Text → List Text
add_to c [] = (c ∷ []) ∷ []
add_to c (w ∷ ws) = (c ∷ w) ∷ ws

abbrev with_word : Text → List Text → List Text
with_word [] ws = ws
with_word (c ∷ w) ws = (c ∷ w) ∷ ws

-- The first word of the rest, and the words after it.
unfoldable pub word_split : Text → Text × List Text
word_split [] = ([], [])
word_split (c ∷ s) =
    let (w, ws) = word_split s in if is_word c then (c ∷ w, ws) else ([], with_word w ws)

-- re.search(r"\b([a-f0-9]{8})\b", low)
unfoldable pub short_code : Text → Option Text
short_code low =
    let (w, ws) = word_split low in find (λ v. (length v == 8) && all is_hex v) (with_word w ws)

pub data Reply : Type 0 where
  recorded : (option : Text) (request_id : String) → Reply
  candidates_are : (request_id : String) (options : List Text) → Reply
  several : List PendingApproval → Reply
  answer_one_of : (title : Text) (options : List Text) → Reply
  not_matched : (count : ℕ) → Reply

pub data Intent : Type 0 where
  decide_approval : (request_id : String) (option : Text) → Reply → Intent
  unclear : Reply → Intent

abbrev pub decides : PendingApproval → Text → Intent
decides p o = decide_approval p.request_id o (recorded o p.request_id)

-- Every card with the option that the text picks of it.
unfoldable pub direct_hits : List PendingApproval → Text → Text → List (PendingApproval × Text)
direct_hits [] text low = []
direct_hits (p ∷ ps) text low =
    let rest = direct_hits ps text low in
    elim (given (pick_for_pending p text low)) [ none ↦ rest | some o ↦ (p, o) ∷ rest ]

abbrev title_of : PendingApproval → Text
title_of p = if is_nil p.title then codes p.request_id else p.title

-- One card alone is tried once more, and then asked for again.
abbrev pub no_hit : List PendingApproval → Text → Text → Intent
no_hit (p ∷ []) text low = elim (given (pick_for_pending p text low)) [
  | some o ↦ decides p o
  | none ↦ unclear (answer_one_of (title_of p) p.options)
]
no_hit ps text low = unclear (not_matched (length ps))

abbrev pub by_hits : List PendingApproval → Text → Text → List (PendingApproval × Text) → Intent
by_hits ps text low [] = no_hit ps text low
by_hits ps text low ((p, o) ∷ []) = decides p o
by_hits ps text low (h ∷ i ∷ hs) = unclear (several (take 5 (map_cards (h ∷ i ∷ hs))))
  where
    map_cards : List (PendingApproval × Text) → List PendingApproval
    map_cards [] = []
    map_cards ((p, o) ∷ rest) = p ∷ map_cards rest

abbrev pub named : List PendingApproval → Option Text → Option PendingApproval
named ps none = none
named ps (some code) = find (λ (p : PendingApproval). text_eq (codes p.request_id) code) ps

abbrev pub of_named : PendingApproval → Option Text → Intent
of_named p none = unclear (candidates_are p.request_id p.options)
of_named p (some o) = decides p o

-- `fallback_classify`, where the text is None or a text.
unfoldable pub fallback_classify : Text → List PendingApproval → Intent
fallback_classify user_text ps =
    let text = strip user_text in
    let low = lower text in
    elim (named ps (short_code low)) [
      | some p ↦ of_named p (given (pick_for_pending p text low))
      | none ↦ by_hits ps text low (direct_hits ps text low)
    ]
