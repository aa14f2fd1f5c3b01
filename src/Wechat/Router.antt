-- ===== src/Wechat/Router.antt =====
-- backend/app/domain/wechat/router_policy.py: which super a free message from WeChat goes to, and
-- the cache that keeps a user's conversation on its super. The texts of the menu are left out.
pub mod Sticky
use colony_agents.Prelude.{
  ℕ, ◌-◌, String, Text, Bool, true, false, not, ◌&&◌, Option, none, some, is_some, List, [], ◌∷◌,
  length, get_elem?, find, str_eq, ◌==◌, leb, if◌then◌else◌, ◌≡◌, refl, arith, Bool-cases, inl, inr,
  Option-cases,
}
use colony_agents.Prelude.Dict.{Dict, get, put}

pub record Candidate : Type 0 where
  pub mission_id : ℕ
  pub slug : String
  pub name : String
  pub session_id : String
  pub description : String

pub data Why : Type 0 where
  menu_choice single sticky llm_pick : Why

pub data AskWhy : Type 0 where
  menu_invalid ambiguous : AskWhy

pub data RouteDecision : Type 0 where
  no_candidate : RouteDecision
  route : Candidate → Why → RouteDecision
  ask : AskWhy → RouteDecision

-- The arguments of `decide_route` behind the candidates.
pub record Hints : Type 0 where
  pub cached_session_id : Option String
  pub menu_choice : Option ℕ
  pub llm_pick_slug : Option String
  pub force_reroute : Bool

abbrev pub asked : AskWhy → Option Candidate → Why → RouteDecision
asked why none found = ask why
asked why (some c) found = route c found

abbrev pub by_menu : List Candidate → ℕ → RouteDecision
by_menu candidates choice =
    if leb 1 choice && leb choice (length candidates)
    then asked menu_invalid (get_elem? candidates (choice - 1)) menu_choice
    else ask menu_invalid

-- next((c for c in candidates if …), None), for a value that is given and not empty
abbrev pub matching : (Candidate → String) → Option String → List Candidate → Option Candidate
matching field none candidates = none
matching field (some s) candidates =
    if str_eq s "" then none else find (λ c. str_eq (field c) s) candidates

abbrev pub by_llm : List Candidate → Option String → RouteDecision
by_llm candidates slug = asked ambiguous (matching (λ c. c.slug) slug candidates) llm_pick

abbrev pub by_cache : List Candidate → Hints → RouteDecision
by_cache candidates h =
    let found = matching (λ c. c.session_id) h.cached_session_id candidates in
    if not h.force_reroute && is_some found
    then asked ambiguous found sticky
    else by_llm candidates h.llm_pick_slug

abbrev pub unprompted : List Candidate → Hints → RouteDecision
unprompted [] h = no_candidate
unprompted (c ∷ []) h = route c single
unprompted (c ∷ d ∷ cs) h = by_cache (c ∷ d ∷ cs) h

abbrev pub with_choice : List Candidate → Hints → Option ℕ → RouteDecision
with_choice candidates h none = unprompted candidates h
with_choice candidates h (some choice) = by_menu candidates choice

unfoldable pub decide_route : List Candidate → Hints → RouteDecision
decide_route [] h = no_candidate
decide_route (c ∷ cs) h = with_choice (c ∷ cs) h h.menu_choice

-- A user's entry of the cache.
pub record Entry : Type 0 where
  pub sticky : Option String
  pub pending_text : Option Text

abbrev pub Cache : Type 0
Cache = Dict Entry

abbrev pub entry : Cache → String → Entry
entry cache uid = elim (get uid cache) [
  | none ↦ record { sticky = none; pending_text = none }
  | some e ↦ e
]

-- entry.get("sticky") or None
unfoldable pub sticky_for : Cache → String → Option String
sticky_for cache uid = elim (entry cache uid).sticky [
  | none ↦ none
  | some s ↦ if str_eq s "" then none else some s
]

unfoldable pub pending_text_for : Cache → String → Option Text
pending_text_for cache uid = elim (entry cache uid).pending_text [
  | none ↦ none
  | some t ↦ elim t [ [] ↦ none | c ∷ cs ↦ some (c ∷ cs) ]
]

unfoldable pub stash_for_menu : Cache → String → Text → Cache
stash_for_menu cache uid pending_text =
    put uid (record (entry cache uid) { pending_text = some pending_text }) cache

unfoldable pub commit_route : Cache → String → String → Cache
commit_route cache uid target_id =
    put uid (record { sticky = some target_id; pending_text = none }) cache
