-- ===== src/Tests/Routes.antt =====
-- Messages from WeChat to one of two supers, and messages that wait for a user.
use colony_agents.Prelude.{
  Text, Bool, codes, Option, true, ◌+◌, length, select, arith, eq_iff, String, false, none, some,
  [], ◌∷◌, ◌≡◌, refl,
}
use colony_agents.World.{World, OutboxRow}
use colony_agents.Wechat.Outbox.{outbox_row, is_due, flush_for_user}
use colony_agents.Wechat.Outbox.Flush.{flush_for_user_lem}
use colony_agents.Tests.Samples.{sample}
use colony_agents.Prelude.Dict.{get, put}
use colony_agents.Wechat.Inbound.{parse_menu_choice, asked, routed}
use colony_agents.Wechat.Inbound.Lost.{answered, wrong_number_sent}
use colony_agents.Wechat.Router.{
  Candidate, Hints, Cache, route, sticky, decide_route, sticky_for, pending_text_for,
  stash_for_menu, menu_invalid, commit_route,
}
use colony_agents.Wechat.Router.Sticky.{commit_route_sticks}

abbrev candidate : String → String → Candidate
candidate slug session_id = record {
  mission_id = 1;
  slug = slug;
  name = slug;
  session_id = session_id;
  description = "";
}

abbrev shop : Candidate
shop = candidate "shop" "s1"

abbrev news : Candidate
news = candidate "news" "s2"

abbrev by_meaning : Hints
by_meaning = record {
  cached_session_id = none;
  menu_choice = none;
  llm_pick_slug = some "news";
  force_reroute = false;
}

commit_route_sticks_example :
    let cache' = commit_route [] "ann" "s2" in
    (decide_route (shop ∷ news ∷ []) (record {
      cached_session_id = sticky_for cache' "ann";
      menu_choice = none;
      llm_pick_slug = some "shop";
      force_reroute = false;
    })
      ≡ route news sticky)
    × (news.session_id ≡ "s2")
    × (pending_text_for cache' "ann" ≡ none)
    × (get "bob" cache' ≡ get "bob" [])
commit_route_sticks_example =
    commit_route_sticks [] "ann" "s2" shop news [] news (some "shop") "bob" refl refl
      (ground (arith, eq_iff "bob" "ann"))

-- Two messages wait for ann, and the second cannot be sent.
abbrev waiting : Text → OutboxRow
waiting content =
    outbox_row 5 (some 1) content "notification"
      (record { user_id = codes "ann"; error = codes "offline" })

abbrev with_outbox : World
with_outbox = record sample {
  outbox = waiting (codes "a") ∷ waiting (codes "bb") ∷ [];
  accounts = (5, record { is_enabled = true; reviewers = [] }) ∷ [];
}

abbrev sends_short : Text → Option Text
sends_short [] = none
sends_short (c ∷ []) = none
sends_short (c ∷ d ∷ t) = some (codes "too long")

flush_for_user_lem_example :
    let (sent, w') = flush_for_user sends_short 5 (codes "ann") with_outbox in
    (sent + length (select (is_due 5 (codes "ann")) w'.outbox)
      ≡ length (select (is_due 5 (codes "ann")) with_outbox.outbox))
    × (length w'.outbox ≡ length with_outbox.outbox)
flush_for_user_lem_example = flush_for_user_lem sends_short 5 (codes "ann") with_outbox

choice_runs : parse_menu_choice (codes "no. 2 !") ≡ some 2
unfolding parse_menu_choice
choice_runs = refl

abbrev here : String → Bool
here session_id = true

-- ann was asked where "ship it" goes, answers 9 and then 1.
abbrev asking : Cache
asking = stash_for_menu [] "ann" (codes "ship it")

wrong_number_sent_example :
    ((answered here shop (news ∷ []) "ann" none false (codes "1") asking).0
      ≡ routed shop (codes "ship it"))
    × ((answered here shop (news ∷ []) "ann" none false (codes "9") asking).0 ≡ asked menu_invalid)
    × ((answered here shop
          (news ∷ [])
          "ann"
          none
          false
          (codes "1")
          (answered here shop (news ∷ []) "ann" none false (codes "9") asking).1).0
        ≡ routed shop (codes "9"))
unfolding parse_menu_choice pending_text_for stash_for_menu get put
wrong_number_sent_example =
    wrong_number_sent here shop (news ∷ []) "ann" none false b'9' [] (codes "1") (codes "ship it")
      asking 9 1 shop refl (omega arith) refl (omega arith) (omega arith) refl refl refl
