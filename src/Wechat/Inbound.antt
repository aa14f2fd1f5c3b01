-- ===== src/Wechat/Inbound.antt =====
-- `parse_menu_choice` of backend/app/domain/wechat/router_policy.py, and `route_inbound` of
-- backend/app/services/wechat_router.py: the message that a super gets, and the user's cache. The
-- digits are those of ASCII. Whether a session's mission is still there is given.
pub mod Lost
use colony_agents.Prelude.{
  ℕ, zero, suc, ◌+◌, ◌-◌, ◌*◌, String, Text, Bool, true, false, not, ◌&&◌, Option, none, some, List,
  [], ◌∷◌, length, all, strip, is_digit, is_nil, leb, if◌then◌else◌,
}
use colony_agents.Wechat.Router.{
  Candidate, Why, menu_choice, AskWhy, RouteDecision, no_candidate, route, ask, decide_route, Cache,
  sticky_for, pending_text_for, stash_for_menu, commit_route,
}

-- The characters before the first one that is not of the kind, and those from it on.
abbrev run_of : (ℕ → Bool) → Text → Text
run_of kind [] = []
run_of kind (c ∷ t) = let rest = run_of kind t in if kind c then c ∷ rest else []

abbrev behind : (ℕ → Bool) → Text → Text
behind kind [] = []
behind kind (c ∷ t) = let rest = behind kind t in if kind c then rest else c ∷ t

abbrev not_digit : ℕ → Bool
not_digit c = not (is_digit c)

-- int(s) of ASCII digits
abbrev value_from : ℕ → Text → ℕ
value_from n [] = n
value_from n (c ∷ t) = value_from (10 * n + (c - b'0')) t

abbrev choice_of : (before number after : Text) → Option ℕ
choice_of before number after =
    if leb (length before) 6
      && leb 1 (length number)
      && leb (length number) 2
      && leb (length after) 2
      && all not_digit after
    then some (value_from 0 number)
    else none

-- \D{0,6}(\d{1,2})\D{0,2}, where the number is the first run of digits.
unfoldable pub parse_menu_choice : Text → Option ℕ
parse_menu_choice text =
    let t = strip text in
    let at = behind not_digit t in
    choice_of (run_of not_digit t) (run_of is_digit at) (behind is_digit at)

pub data Inbound : Type 0 where
  no_super unavailable : Inbound
  asked : AskWhy → Inbound
  routed : (target : Candidate) (inject_text : Text) → Inbound

abbrev pub inject : Why → Option Text → Text → Text
inject menu_choice none text = text
inject menu_choice (some stashed) text = stashed
inject why stashed text = text

abbrev pub decided :
    (available : String → Bool) (uid : String) → Text → Cache → RouteDecision → Inbound × Cache
decided available uid text cache no_candidate = (no_super, cache)
decided available uid text cache (ask why) = (asked why, stash_for_menu cache uid text)
decided available uid text cache (route c why) =
    if available c.session_id
    then (
      routed c (inject why (pending_text_for cache uid) text),
      commit_route cache uid c.session_id,
    )
    else (unavailable, cache)

unfoldable pub route_inbound :
    (available : String → Bool) (candidates : List Candidate) (uid : String) (user_text : Text)
    (llm_pick_slug : Option String) (force_reroute : Bool)
    → Cache
    → Inbound × Cache
unfolding parse_menu_choice
route_inbound available candidates uid user_text llm_pick_slug force_reroute cache =
    decided available uid user_text cache (
      decide_route candidates (record {
        cached_session_id = sticky_for cache uid;
        menu_choice = parse_menu_choice user_text;
        llm_pick_slug = llm_pick_slug;
        force_reroute = force_reroute;
      }))
