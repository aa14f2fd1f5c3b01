-- ===== src/Wechat/Inbound/Lost.antt =====
-- The message that waits for the user's choice, of backend/app/services/wechat_router.py.
use colony_agents.Prelude.{
  ℕ, ◌-◌, String, Text, Bool, true, false, Option, some, List, ◌∷◌, length, get_elem?, leb, ◌≡◌,
  ◌≤◌, ◌<◌, eq_refl, refl, arith, ap, ◌∙◌,
}
use colony_agents.Prelude.Dict.{get-put}
use colony_agents.Wechat.Router.{
  Candidate, Hints, menu_choice, menu_invalid, route, ask, decide_route, Cache, sticky_for,
  pending_text_for, stash_for_menu, by_menu, with_choice, entry,
}
use colony_agents.Wechat.Inbound.{Inbound, asked, routed, decided, parse_menu_choice, route_inbound}

decide-choice :
    (c : Candidate) (cs : List Candidate) (h : Hints) (n : ℕ)
    → h.menu_choice ≡ some n
    → decide_route (c ∷ cs) h ≡ by_menu (c ∷ cs) n
unfolding decide_route
decide-choice c cs h n e = ap (with_choice (c ∷ cs) h) e

by_menu_invalid : (cs : List Candidate) (n : ℕ) → length cs < n → by_menu cs n ≡ ask menu_invalid
by_menu_invalid cs n h =
    let over : leb n (length cs) ≡ false = ground arith in
    let one : leb 1 n ≡ true = ground arith in rw (one, over) refl

by_menu_valid :
    (cs : List Candidate) (n : ℕ) (c : Candidate)
    → 1 ≤ n
    → n ≤ length cs
    → get_elem? cs (n - 1) ≡ some c
    → by_menu cs n ≡ route c menu_choice
by_menu_valid cs n c low high at =
    let one : leb 1 n ≡ true = ground arith in
    let under : leb n (length cs) ≡ true = ground arith in rw (one, under, at) refl

pending-stash :
    (cache : Cache) (uid : String) (x : ℕ) (t : Text)
    → pending_text_for (stash_for_menu cache uid (x ∷ t)) uid ≡ some (x ∷ t)
unfolding pending_text_for stash_for_menu
pending-stash cache uid x t =
    rw
      (
        get-put uid uid (record (entry cache uid) { pending_text = some (x ∷ t) }) cache,
        eq_refl uid,
        pending_text_for,
        entry,
      )
      refl

module _ (available : String → Bool) (c : Candidate) (cs : List Candidate) (uid : String)
    (pick : Option String) (force : Bool) where
  abbrev pub answered : Text → Cache → Inbound × Cache
  answered text = route_inbound available (c ∷ cs) uid text pick force

  abbrev hints : Text → Cache → Hints
  hints text cache = record {
    cached_session_id = sticky_for cache uid;
    menu_choice = parse_menu_choice text;
    llm_pick_slug = pick;
    force_reroute = force;
  }

  wrong_number :
      (text : Text) (cache : Cache) (n : ℕ)
      → parse_menu_choice text ≡ some n
      → length (c ∷ cs) < n
      → answered text cache ≡ (asked menu_invalid, stash_for_menu cache uid text)
  unfolding route_inbound
  wrong_number text cache n read over =
      ap (decided available uid text cache)
        (decide-choice c cs (hints text cache) n read ∙ by_menu_invalid (c ∷ cs) n over)

  right_number :
      (text : Text) (cache : Cache) (n : ℕ) (d : Candidate) (stashed : Text)
      → parse_menu_choice text ≡ some n
      → 1 ≤ n
      → n ≤ length (c ∷ cs)
      → get_elem? (c ∷ cs) (n - 1) ≡ some d
      → available d.session_id ≡ true
      → pending_text_for cache uid ≡ some stashed
      → (answered text cache).0 ≡ routed d stashed
  unfolding route_inbound
  right_number text cache n d stashed read low high at there kept =
      ap (λ r. (decided available uid text cache r).0)
        (decide-choice c cs (hints text cache) n read ∙ by_menu_valid (c ∷ cs) n d low high at)
      ∙ rw (there, kept) refl

  -- While a message waits for the user's choice, a right number sends it to the super of that number;
  -- but after a number that the menu does not have, which is asked again, the right number sends the
  -- wrong number's text to that super instead.
  pub wrong_number_sent :
      (x : ℕ) (wrong' right waiting : Text) (cache : Cache) (n m : ℕ) (d : Candidate)
      → parse_menu_choice (x ∷ wrong') ≡ some n
      → length (c ∷ cs) < n
      → parse_menu_choice right ≡ some m
      → 1 ≤ m
      → m ≤ length (c ∷ cs)
      → get_elem? (c ∷ cs) (m - 1) ≡ some d
      → available d.session_id ≡ true
      → pending_text_for cache uid ≡ some waiting
      → ((answered right cache).0 ≡ routed d waiting)
        × ((answered (x ∷ wrong') cache).0 ≡ asked menu_invalid)
        × ((answered right (answered (x ∷ wrong') cache).1).0 ≡ routed d (x ∷ wrong'))
  wrong_number_sent x wrong' right waiting cache n m d read over read' low high at there kept =
      let wrong = wrong_number (x ∷ wrong') cache n read over in
      (
        right_number right cache m d waiting read' low high at there kept,
        ap (λ (r : Inbound × Cache). r.0) wrong,
        ap (λ (r : Inbound × Cache). (answered right r.1).0) wrong
            ∙ right_number right (stash_for_menu cache uid (x ∷ wrong')) m d (x ∷ wrong') read' low
                high at there (pending-stash cache uid x wrong'),
      )
