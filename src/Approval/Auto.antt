-- ===== src/Approval/Auto.antt =====
-- backend/app/domain/auto_approve.py: whether a card is decided without a human, and how.
use colony_agents.Prelude.{
  ℕ, ◌+◌, ◌-◌, Text, codes, Bool, true, false, not, ◌&&◌, none, some, List, [], ◌∷◌, ltb,
  if◌then◌else◌, contains_any, lower, ◌≡◌, refl, arith, Bool-cases, inl, inr, find, find_holds,
  or_else, sym, ◌∙◌, Option-cases,
}

abbrev affirm : List Text
affirm =
    codes "就这么干"
    ∷ codes "同意"
    ∷ codes "确认"
    ∷ codes "批准"
    ∷ codes "通过"
    ∷ codes "继续"
    ∷ codes "执行"
    ∷ codes "发布"
    ∷ codes "开始"
    ∷ codes "好的"
    ∷ codes "可以"
    ∷ codes "是"
    ∷ codes "确定"
    ∷ codes "用这个"
    ∷ codes "就这样"
    ∷ codes "马上"
    ∷ codes "立即"
    ∷ codes "现在"
    ∷ codes "approve"
    ∷ codes "yes"
    ∷ codes "ok"
    ∷ codes "go"
    ∷ codes "proceed"
    ∷ codes "confirm"
    ∷ []

abbrev negative : List Text
negative =
    codes "取消"
    ∷ codes "拒绝"
    ∷ codes "放弃"
    ∷ codes "暂不"
    ∷ codes "先不"
    ∷ codes "不要"
    ∷ codes "稍后"
    ∷ codes "等我"
    ∷ codes "保留"
    ∷ codes "先别"
    ∷ codes "驳回"
    ∷ codes "撤销"
    ∷ codes "中止"
    ∷ codes "停止"
    ∷ codes "不发"
    ∷ codes "再想想"
    ∷ codes "我要调整"
    ∷ codes "我自己说"
    ∷ codes "cancel"
    ∷ codes "no"
    ∷ codes "reject"
    ∷ codes "skip"
    ∷ codes "stop"
    ∷ codes "abort"
    ∷ codes "later"
    ∷ []

unfoldable pub resolve_auto_approve : (must_human ctx_force_auto project_auto_approve : Bool) → Bool
resolve_auto_approve must_human ctx_force_auto project_auto_approve =
    if must_human then false else if ctx_force_auto then true else project_auto_approve

unfoldable pub is_affirm : Text → Bool
is_affirm option = contains_any affirm (lower option)

unfoldable pub is_negative : Text → Bool
is_negative option = contains_any negative (lower option)

-- The score is `score` less 3: two up for an affirmative word, three down for a negative one.
abbrev pub zero_score : ℕ
zero_score = 3

unfoldable pub score : Text → ℕ
score option =
    (if is_affirm option then zero_score + 2 else zero_score)
    - (if is_negative option then 3 else 0)

-- The first option of the highest score, of `best` and those after it.
unfoldable pub best_of : Text → List Text → Text
best_of best [] = best
best_of best (o ∷ os) = best_of (if ltb (score best) (score o) then o else best) os

unfoldable pub pick_auto_option : List Text → Text
unfolding best_of
pick_auto_option [] = codes "同意"
pick_auto_option (o ∷ os) =
    let best = best_of o os in if ltb zero_score (score best) then best else o

-- An option with an affirmative word and no negative one.
unfoldable pub is_clear : Text → Bool
is_clear o = is_affirm o && not (is_negative o)

is_clear_lem : (o : Text) → is_clear o ≡ ltb zero_score (score o)
unfolding is_clear score
is_clear_lem o = ground arith

not_above : (o p : Text) → is_clear o ≡ true → ltb (score o) (score p) ≡ false
unfolding is_clear score
not_above o p h = ground arith

stays_best : (o : Text) (os : List Text) → is_clear o ≡ true → best_of o os ≡ o
unfolding best_of
stays_best o [] h = refl
stays_best o (p ∷ os) h = rw (not_above o p h) (stays_best o os h)

either :
    (b p : Text) (t : Bool)
    → is_clear b ≡ false
    → is_clear p ≡ false
    → is_clear (if t then p else b) ≡ false
either b p true h k = k
either b p false h k = h

below : (b p : Text) → is_clear b ≡ false → is_clear p ≡ true → ltb (score b) (score p) ≡ true
unfolding is_clear score
below b p h k = ground arith

best_none :
    (b : Text) (os : List Text)
    → is_clear b ≡ false
    → find is_clear os ≡ none
    → is_clear (best_of b os) ≡ false
unfolding best_of
best_none b [] h e = h
best_none b (p ∷ os) h e = elim (Bool-cases (is_clear p)) [
  | inl c ↦ absurd (ground (arith, e, c))
  | inr c ↦
      best_none (if ltb (score b) (score p) then p else b) os
        (either b p (ltb (score b) (score p)) h c) (ground (arith, e, c))
]

best_some :
    (b : Text) (os : List Text) (c : Text)
    → is_clear b ≡ false
    → find is_clear os ≡ some c
    → best_of b os ≡ c
unfolding best_of
best_some b [] c h e = absurd (ground (arith, e))
best_some b (p ∷ os) c h e = elim (Bool-cases (is_clear p)) [
  | inl k ↦ rw (below b p h k) (stays_best p os k ∙ ground (arith, e, k))
  | inr k ↦
      best_some (if ltb (score b) (score p) then p else b) os c
        (either b p (ltb (score b) (score p)) h k) (ground (arith, e, k))
]

-- The option that is picked, of a list that is not empty: the first that has an affirmative word
-- and no negative one, wherever it stands, and the first option where there is none. So an option
-- with a negative word is picked only if it comes first and no option is clear.
pub pick_auto_option_lem :
    (o : Text) (os : List Text) → pick_auto_option (o ∷ os) ≡ or_else (find is_clear (o ∷ os)) o
unfolding pick_auto_option
pick_auto_option_lem o os = elim (Bool-cases (is_clear o)) [
  | inl c ↦ rw (stays_best o os c, sym (is_clear_lem o), c) refl
  | inr c ↦ elim (Option-cases (find is_clear os)) [
    | inl e ↦ rw (sym (is_clear_lem (best_of o os)), best_none o os c e, c, e) refl
    | inr (d, e) ↦
        rw (best_some o os d c e, sym (is_clear_lem d), find_holds is_clear os d e, c, e) refl
  ]
]
