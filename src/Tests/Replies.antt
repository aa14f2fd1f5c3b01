-- ===== src/Tests/Replies.antt =====
-- Replies by WeChat to one card of mission 2, and errors of a model's call.
use colony_agents.Prelude.{
  Text, codes, Bool, true, false, none, some, [], ◌∷◌, ◌++◌, ◌≡◌, ◌≢◌, ◌⊎◌, refl, strip, lower,
}
use colony_agents.Prelude.Table.{member}
use colony_agents.World.{World, Account, Channel, PendingApproval}
use colony_agents.Wechat.Intent.{
  recorded, decide_approval, decides, fallback_classify, short_code, word_split, direct_hits,
  pick_for_pending, by_option, named,
}
use colony_agents.Wechat.Intent.Picks.{IsIn, fallback_decides}
use colony_agents.Wechat.Intent.Negated.{held_option_decides}
use colony_agents.Wechat.Inbox.{
  classify_and_reply, by_rules, list_reviewer_projects, list_pending_for_reviewer, reviewed_ids,
  reviews, channels_of, is_waiting_of,
}
use colony_agents.Wechat.Inbox.Answers.{IsAnswerable, rules_decide_own}
use colony_agents.Llm.Errors.{
  Failure, ErrorClass, rate_limit, bad_request, context_window_exceeded, context_window,
  classify_llm_error, request_id_of, id_at, after_prefix, skip_spaces, up_to_quote,
}
use colony_agents.Llm.Errors.Classes.{context_window_hidden}
use colony_agents.Tests.Samples.{sample, main_card}

abbrev account : Account
account = record { is_enabled = true; reviewers = codes "wx1" ∷ [] }

abbrev channel : Channel
channel = record { clawbot_account_id = some 5; reviewer_wechat_ids = []; enabled = true }

abbrev asked : World
asked = record sample { approvals = main_card ∷ []; channels = (2, channel) ∷ [] }

said_yes :
    classify_and_reply 5 account (codes "wx1") (codes "yes please") none asked
    ≡ by_rules (decide_approval "a1" (codes "yes") (recorded (codes "yes") "a1"))
unfolding classify_and_reply fallback_classify list_pending_for_reviewer list_reviewer_projects
    reviewed_ids reviews channels_of is_waiting_of short_code word_split direct_hits
    pick_for_pending by_option member
said_yes = refl

rules_decide_own_example :
    (p : PendingApproval) × (p.request_id ≡ "a1")
    × IsAnswerable 5 account (codes "wx1") asked p
    × IsIn (codes "yes") p.options
rules_decide_own_example =
    rules_decide_own 5 account (codes "wx1") asked (codes "yes please") "a1" (codes "yes")
      (recorded (codes "yes") "a1") said_yes

abbrev agree : PendingApproval
agree = record main_card { options = codes "同意" ∷ codes "驳回" ∷ [] }

-- "I do not agree" decides that the reviewer agrees.
held_option_decides_example :
    fallback_classify (codes "不同意") (agree ∷ []) ≡ decides agree (codes "同意")
unfolding short_code word_split
held_option_decides_example =
    held_option_decides agree 0x540c (codes "意") (codes "不") [] (codes "驳回" ∷ []) refl (codes "不同意")
      refl refl

abbrev done : PendingApproval
done = record main_card { status = "decided"; decided_option = some (codes "yes") }

-- The error that litellm raises for a context that is too long: a bad request, too.
abbrev of_long_context : ErrorClass → Bool
of_long_context bad_request = true
of_long_context context_window_exceeded = true
of_long_context _ = false

abbrev long_context : Failure
long_context = record {
  type_name = codes "ContextWindowExceededError";
  message = codes "prompt is too long";
  is_instance = of_long_context;
}

context_window_hidden_example : (classify_llm_error long_context).code ≢ context_window
context_window_hidden_example = context_window_hidden long_context (λ h. refl)

abbrev of_rate_limit : ErrorClass → Bool
of_rate_limit rate_limit = true
of_rate_limit _ = false

abbrev limited : Failure
limited = record {
  type_name = codes "RateLimitError";
  message = codes "429: slow down";
  is_instance = of_rate_limit;
}

abbrev quoted : Text
quoted =
    codes "{"
    ++ (0x22
        ∷ (codes "request_id"
            ++ (0x22 ∷ (codes ": " ++ (0x22 ∷ (codes "r7" ++ (0x22 ∷ codes "}")))))))

id_found : request_id_of quoted ≡ some (codes "r7")
unfolding request_id_of id_at after_prefix skip_spaces up_to_quote
id_found = refl

picked_yes :
    fallback_classify (codes "yes please") (main_card ∷ [])
    ≡ decide_approval "a1" (codes "yes") (recorded (codes "yes") "a1")
unfolding fallback_classify short_code word_split direct_hits pick_for_pending by_option
picked_yes = refl

fallback_decides_example :
    let text = strip (codes "yes please") in
    let low = lower text in
    (p : PendingApproval) × (p.request_id ≡ "a1")
    × IsIn p (main_card ∷ [])
    × IsIn (codes "yes") p.options
    × ((named (main_card ∷ []) (short_code low) ≡ some p)
        ⊎ ((named (main_card ∷ []) (short_code low) ≡ none)
            × (direct_hits (main_card ∷ []) text low ≡ (p, codes "yes") ∷ [])))
fallback_decides_example =
    fallback_decides (codes "yes please") (main_card ∷ []) "a1" (codes "yes")
      (recorded (codes "yes") "a1") picked_yes
