-- ===== src/Wechat/Intent/Negated.antt =====
-- A reply that holds an option's words, of backend/app/domain/wechat/intent_parser.py.
use colony_agents.Prelude.{
  ℕ, Text, true, none, some, List, [], ◌∷◌, ◌++◌, strip, lower, contains, starts_with, ◌≡◌, refl,
  arith,
}
use colony_agents.World.{PendingApproval}
use colony_agents.Wechat.Intent.{
  decides, by_option, pick_for_pending, direct_hits, short_code, fallback_classify,
}
use colony_agents.Wechat.Intent.Picks.{picked, direct_hits_cons}

starts_with-append : (o post : Text) → starts_with (o ++ post) o ≡ true
starts_with-append [] [] = refl
starts_with-append [] (c ∷ post) = refl
starts_with-append (c ∷ o) post = ground (arith, starts_with-append o post)

contains-append : (pre o post : Text) → contains o (pre ++ (o ++ post)) ≡ true
contains-append [] [] [] = refl
contains-append [] [] (c ∷ post) = refl
contains-append [] (c ∷ o) post = ground (arith, starts_with-append (c ∷ o) post)
contains-append (d ∷ pre) o post = ground (arith, contains-append pre o post)

module _ (p : PendingApproval) (c : ℕ) (option pre post : Text) (others : List Text)
    (offers : p.options ≡ (c ∷ option) ∷ others) where
  held_pick : (low : Text) → picked (pre ++ ((c ∷ option) ++ post)) low p ≡ some (c ∷ option)
  unfolding pick_for_pending by_option
  held_pick low = rw (offers, contains-append pre (c ∷ option) post) refl

  one_hit :
      (text low : Text)
      → text ≡ pre ++ ((c ∷ option) ++ post)
      → direct_hits (p ∷ []) text low ≡ (p, c ∷ option) ∷ []
  unfolding direct_hits
  one_hit text low said =
      rw (said, direct_hits_cons (pre ++ ((c ∷ option) ++ post)) low p [], held_pick low) refl

  -- Where one card alone waits and the reply names no id, a reply that holds the card's first option
  -- decides for it, whatever words stand before and after it, such as one that negates it.
  pub held_option_decides :
      (user_text : Text)
      → strip user_text ≡ pre ++ ((c ∷ option) ++ post)
      → short_code (lower (strip user_text)) ≡ none
      → fallback_classify user_text (p ∷ []) ≡ decides p (c ∷ option)
  unfolding fallback_classify
  held_option_decides user_text said no_id =
      rw (fallback_classify, no_id, one_hit (strip user_text) (lower (strip user_text)) said) refl
