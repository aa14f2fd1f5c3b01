-- ===== src/Optimize/Slugs.antt =====
-- The slug prefix of a work order, of backend/app/services/worker_optimization_service.py, holds no
-- backslash, so that its LIKE pattern finds every slug that begins with it.
use colony_agents.Prelude.{
  ℕ, Text, codes, Bool, true, false, some, [], ◌∷◌, ◌++◌, ◌==◌, or_text, ◌≡◌, refl, arith, inl, inr,
  Bool-cases,
}
use mathlib.Core.List.{append_assoc}
use colony_agents.Prelude.Like.{IsPlain, like, like-prefix}
use colony_agents.Optimize.{
  dashed, strip_dashes_left, strip_dashes_right, safe_name, wo_slug_prefix, is_slug_char,
  all_dashes,
}

slug_char_plain : (c : ℕ) → is_slug_char c ≡ true → (c == 0x5c) ≡ false
slug_char_plain c h = ground arith

dashed-IsPlain : (in_run : Bool) (s : Text) → IsPlain (dashed in_run s)
unfolding dashed
dashed-IsPlain in_run [] = tt
dashed-IsPlain true (c ∷ s) = elim (Bool-cases (is_slug_char c)) [
  | inl e ↦ rw e (slug_char_plain c e, dashed-IsPlain false s)
  | inr e ↦ rw e (dashed-IsPlain true s)
]
dashed-IsPlain false (c ∷ s) = elim (Bool-cases (is_slug_char c)) [
  | inl e ↦ rw e (slug_char_plain c e, dashed-IsPlain false s)
  | inr e ↦ rw e (refl, dashed-IsPlain true s)
]

strip_dashes_left-IsPlain : (s : Text) → IsPlain s → IsPlain (strip_dashes_left s)
unfolding strip_dashes_left
strip_dashes_left-IsPlain [] h = tt
strip_dashes_left-IsPlain (c ∷ s) (h, hs) = elim (Bool-cases (c == b'-')) [
  | inl e ↦ rw e (strip_dashes_left-IsPlain s hs)
  | inr e ↦ rw e (h, hs)
]

strip_dashes_right-IsPlain : (s : Text) → IsPlain s → IsPlain (strip_dashes_right s)
unfolding strip_dashes_right
strip_dashes_right-IsPlain [] h = tt
strip_dashes_right-IsPlain (c ∷ s) (h, hs) = elim (Bool-cases (all_dashes (c ∷ s))) [
  | inl e ↦ rw e tt
  | inr e ↦ rw e (h, strip_dashes_right-IsPlain s hs)
]

or_text-IsPlain : (s d : Text) → IsPlain s → IsPlain d → IsPlain (or_text (some s) d)
or_text-IsPlain [] d h hd = hd
or_text-IsPlain (c ∷ s) d h hd = h

safe_name-IsPlain : (capability : Text) → IsPlain (safe_name capability)
unfolding safe_name
safe_name-IsPlain capability =
    or_text-IsPlain _ (codes "unknown")
      (strip_dashes_right-IsPlain _ (strip_dashes_left-IsPlain _ (dashed-IsPlain false _)))
      (refl, (refl, (refl, (refl, (refl, (refl, (refl, tt)))))))

append-IsPlain : (s t : Text) → IsPlain s → IsPlain t → IsPlain (s ++ t)
append-IsPlain [] t h k = k
append-IsPlain (c ∷ s) t (h, hs) k = (h, append-IsPlain s t hs k)

-- A work order's slug is like the pattern that is looked for.
pub order_slug_like :
    (capability tag : Text)
    → like
        (wo_slug_prefix capability ++ codes "-%")
        (wo_slug_prefix capability ++ (codes "-" ++ tag))
      ≡ true
unfolding wo_slug_prefix
order_slug_like capability tag =
    let found = like-prefix (wo_slug_prefix capability ++ codes "-") tag (
      append-IsPlain (wo_slug_prefix capability) (codes "-")
        (refl, (refl, (refl, safe_name-IsPlain capability))) (refl, tt)) in
    rw
      (
        append_assoc (wo_slug_prefix capability) (codes "-") (b'%' ∷ []),
        append_assoc (wo_slug_prefix capability) (codes "-") tag,
      )
      at found
