-- ===== src/Wechat/Router/Sticky.antt =====
-- How a routed message is decided, and how the next one sticks to it.
use colony_agents.Prelude.{
  ℕ, suc, ◌-◌, String, Bool, false, not, ◌&&◌, Option, none, some, is_some, List, [], ◌∷◌, length,
  get_elem?, find, find_holds, str_eq, eq_iff, leb, if◌then◌else◌, ◌≡◌, ◌≢◌, refl, sym, ap, ◌∙◌,
  arith, Bool-cases, inl, inr, Option-cases,
}
use colony_agents.Prelude.Dict.{get, get-put}
use colony_agents.Wechat.Router.{
  Candidate, Hints, Why, sticky, llm_pick, menu_choice, AskWhy, menu_invalid, asked, by_menu,
  by_llm, by_cache, with_choice, unprompted, route, ask, ambiguous, decide_route, Cache, sticky_for,
  pending_text_for, commit_route, matching,
}

-- The candidate is one of those given.
unfoldable pub IsOffered : List Candidate → Candidate → Type 0
IsOffered candidates c = (i : ℕ) × (get_elem? candidates i ≡ some c)

find-IsOffered :
    (p : Candidate → Bool) (cs : List Candidate) (c : Candidate)
    → find p cs ≡ some c
    → IsOffered cs c
unfolding IsOffered
find-IsOffered p [] c h = absurd (ground (arith, h))
find-IsOffered p (d ∷ cs) c h = elim (Bool-cases (p d)) [
  | inl e ↦ (0, ground (arith, h, e))
  | inr e ↦ let (i, at) = find-IsOffered p cs c (ground (arith, h, e)) in (suc i, at)
]

matching-IsOffered :
    (field : Candidate → String) (s : Option String) (cs : List Candidate) (c : Candidate)
    → matching field s cs ≡ some c
    → IsOffered cs c
matching-IsOffered field none cs c h = absurd (ground (arith, h))
matching-IsOffered field (some s) cs c h =
    find-IsOffered (λ d. str_eq (field d) s) cs c (ground (arith, h))

asked-IsOffered :
    (why : AskWhy) (found : Option Candidate) (by : Why) (cs : List Candidate) (c : Candidate)
    (how : Why)
    → asked why found by ≡ route c how
    → ((d : Candidate) → found ≡ some d → IsOffered cs d)
    → IsOffered cs c
asked-IsOffered why none by cs c how h offered = absurd (ground (arith, h))
asked-IsOffered why (some d) by cs c how h offered = offered c (ground (arith, h))

by_llm-IsOffered :
    (cs : List Candidate) (slug : Option String) (c : Candidate) (how : Why)
    → by_llm cs slug ≡ route c how
    → IsOffered cs c
by_llm-IsOffered cs slug c how h =
    asked-IsOffered ambiguous (matching (λ d. d.slug) slug cs) llm_pick cs c how h
      (matching-IsOffered (λ d. d.slug) slug cs)

by_cache-IsOffered :
    (cs : List Candidate) (h : Hints) (c : Candidate) (how : Why)
    → by_cache cs h ≡ route c how
    → IsOffered cs c
by_cache-IsOffered cs h c how r =
    let found = matching (λ d. d.session_id) h.cached_session_id cs in
    elim (Bool-cases (not h.force_reroute && is_some found)) [
      | inl e ↦
          asked-IsOffered ambiguous found sticky cs c how
            (sym (ap (λ b. if b then asked ambiguous found sticky else by_llm cs h.llm_pick_slug) e)
              ∙ r)
            (matching-IsOffered (λ d. d.session_id) h.cached_session_id cs)
      | inr e ↦ by_llm-IsOffered cs h.llm_pick_slug c how (
          sym (ap (λ b. if b then asked ambiguous found sticky else by_llm cs h.llm_pick_slug) e)
          ∙ r)
    ]

by_menu-IsOffered :
    (cs : List Candidate) (n : ℕ) (c : Candidate) (how : Why)
    → by_menu cs n ≡ route c how
    → IsOffered cs c
unfolding IsOffered
by_menu-IsOffered cs n c how h = elim (Bool-cases (leb 1 n && leb n (length cs))) [
  | inl e ↦
      asked-IsOffered menu_invalid (get_elem? cs (n - 1)) menu_choice cs c how
        (sym (
            ap
              (λ b.
                if b
                then asked menu_invalid (get_elem? cs (n - 1)) menu_choice
                else ask menu_invalid)
              e)
          ∙ h)
        (λ d e. (n - 1, e))
  | inr e ↦ absurd (
      ground (
        arith,
        sym (
              ap
                (λ b.
                  if b
                  then asked menu_invalid (get_elem? cs (n - 1)) menu_choice
                  else ask menu_invalid)
                e)
            ∙ h,
      ))
]

unprompted-IsOffered :
    (cs : List Candidate) (h : Hints) (c : Candidate) (how : Why)
    → unprompted cs h ≡ route c how
    → IsOffered cs c
unfolding IsOffered
unprompted-IsOffered [] h c how r = absurd (ground (arith, r))
unprompted-IsOffered (d ∷ []) h c how r = (0, ground (arith, r))
unprompted-IsOffered (d ∷ e ∷ cs) h c how r = by_cache-IsOffered (d ∷ e ∷ cs) h c how r

-- A message is only ever routed to one of the candidates.
pub route-IsOffered :
    (cs : List Candidate) (h : Hints) (c : Candidate) (how : Why)
    → decide_route cs h ≡ route c how
    → IsOffered cs c
unfolding decide_route
route-IsOffered [] h c how r = absurd (ground (arith, r))
route-IsOffered (d ∷ cs) h c how r = elim (Option-cases h.menu_choice) [
  | inl e ↦ unprompted-IsOffered (d ∷ cs) h c how (sym (ap (with_choice (d ∷ cs) h) e) ∙ r)
  | inr (n, e) ↦ by_menu-IsOffered (d ∷ cs) n c how (sym (ap (with_choice (d ∷ cs) h) e) ∙ r)
]

committed :
    (cache : Cache) (uid target : String)
    → get uid (commit_route cache uid target)
      ≡ some (record { sticky = some target; pending_text = none })
unfolding commit_route
committed cache uid target = ground (
  arith,
  get-put uid uid (record { sticky = some target; pending_text = none }) cache,
  eq_iff uid uid,
)

sticky_committed :
    (cache : Cache) (uid target : String)
    → str_eq target "" ≡ false
    → sticky_for (commit_route cache uid target) uid ≡ some target
unfolding sticky_for
sticky_committed cache uid target given = rw (committed cache uid target, sticky_for, given) refl

pending_committed :
    (cache : Cache) (uid target : String)
    → pending_text_for (commit_route cache uid target) uid ≡ none
unfolding pending_text_for
pending_committed cache uid target = rw (committed cache uid target, pending_text_for) refl

kept_entry :
    (cache : Cache) (uid target other : String)
    → other ≢ uid
    → get other (commit_route cache uid target) ≡ get other cache
unfolding commit_route
kept_entry cache uid target other ne = ground (
  arith,
  ne,
  eq_iff uid other,
  get-put other uid (record { sticky = some target; pending_text = none }) cache,
)

-- After a message is routed to the session `target`, which is not empty, the user's next message
-- that names no number of the menu and does not ask for another route goes to a candidate of that
-- session, whatever the semantic match says, where two or more candidates are given and one has the
-- session; the text that waited for the user's choice is gone; and another user's entry did not change.
pub commit_route_sticks :
    (cache : Cache) (uid target : String) (c d : Candidate) (cs : List Candidate)
    (found : Candidate) (slug : Option String) (other : String)
    → str_eq target "" ≡ false
    → find (λ e. str_eq e.session_id target) (c ∷ d ∷ cs) ≡ some found
    → other ≢ uid
    → let cache' = commit_route cache uid target in
      (decide_route (c ∷ d ∷ cs) (record {
        cached_session_id = sticky_for cache' uid;
        menu_choice = none;
        llm_pick_slug = slug;
        force_reroute = false;
      })
        ≡ route found sticky)
      × (found.session_id ≡ target)
      × (pending_text_for cache' uid ≡ none)
      × (get other cache' ≡ get other cache)
unfolding decide_route
commit_route_sticks cache uid target c d cs found slug other given at ne =
    rw (sticky_committed cache uid target given, pending_committed cache uid target, given, at)
      (
        refl,
        (eq_iff found.session_id target).0
            (find_holds (λ e. str_eq e.session_id target) (c ∷ d ∷ cs) found at),
        refl,
        kept_entry cache uid target other ne,
      )
