-- ===== src/Wechat/Inbox.antt =====
-- backend/app/services/wechat_intent.py and the approval branch of backend/app/services/
-- wechat_poller.py: who may answer which cards by WeChat, what a reply means, and what an answer
-- does. The model that reads a reply is a parameter; the prompt, which only it reads, is left out.
pub mod Answers
use colony_agents.Prelude.{
  ℕ, String, Text, codes, Bool, true, false, not, ◌&&◌, ◌||◌, Option, none, some, List, [], ◌∷◌,
  ◌++◌, any, map, select, is_nil, or_text, text_eq, str_eq, ◌==◌, if◌then◌else◌,
}
use mathlib.Core.List.{reverse}
use colony_agents.Prelude.Table.{Table, get, member}
use colony_agents.World.{
  World, Mission, PendingApproval, Account, Channel, approval_resolved, publish,
}
use colony_agents.Approval.Cards.{Outside}
use colony_agents.Approval.Answer.{decide}
use colony_agents.Wechat.Intent.{Intent, fallback_classify}

-- uid in ids
abbrev pub lists : Text → List Text → Bool
lists uid ids = any (λ s. text_eq s uid) ids

abbrev pub is_of_account : ℕ → Channel → Bool
is_of_account account c = elim c.clawbot_account_id [ none ↦ false | some a ↦ a == account ]

-- WHERE clawbot_account_id = :account
unfoldable pub channels_of : ℕ → World → List (ℕ × Channel)
channels_of account w = select (λ (row : ℕ × Channel). is_of_account account row.1) w.channels

-- The project's own list of reviewers counts, and the account's where that one is empty.
unfoldable pub reviews : Account → Text → Channel → Bool
reviews acc uid c =
    lists uid c.reviewer_wechat_ids || (is_nil c.reviewer_wechat_ids && lists uid acc.reviewers)

unfoldable pub reviewed_ids : ℕ → Account → Text → World → List ℕ
reviewed_ids account acc uid w =
    map (λ (row : ℕ × Channel). row.0)
      (select (λ (row : ℕ × Channel). reviews acc uid row.1) (channels_of account w))

-- `list_reviewer_projects`
unfoldable pub list_reviewer_projects : ℕ → Account → Text → World → List (ℕ × Mission)
list_reviewer_projects account acc uid w =
    select (λ (row : ℕ × Mission). member row.0 (reviewed_ids account acc uid w)) w.missions

unfoldable pub is_waiting_of : List (ℕ × Mission) → PendingApproval → Bool
is_waiting_of projects p =
    member p.mission_id (map (λ (row : ℕ × Mission). row.0) projects) && str_eq p.status "pending"

-- `list_pending_for_reviewer`: the newest comes first.
unfoldable pub list_pending_for_reviewer : List (ℕ × Mission) → World → List PendingApproval
list_pending_for_reviewer projects w = reverse (select (is_waiting_of projects) w.approvals)

-- The reviewers are those of the account and of any of its channels.
unfoldable pub is_reviewer : ℕ → Account → Text → World → Bool
is_reviewer account acc uid w =
    lists uid acc.reviewers
    || any (λ (row : ℕ × Channel). lists uid row.1.reviewer_wechat_ids) (channels_of account w)

-- The object that the model wrote, where it wrote one with an intent.
pub record ModelAnswer : Type 0 where
  pub intent : String
  pub request_id : String
  pub option : Text
  pub target_project_slug : Option Text
  pub reply_text : Text

pub data Classified : Type 0 where
  by_rules : Intent → Classified
  decide_approval : (request_id : String) (option reply : Text) → Classified
  query_status chat_to_super : Option Text → (reply : Text) → Classified
  unclear : (reply : Text) → Classified

abbrev reply_of : ModelAnswer → Text
reply_of a = or_text (some a.reply_text) (codes "已收到，正在处理。")

unfoldable pub by_model : ModelAnswer → Classified
by_model a =
    if str_eq a.intent "decide_approval"
    then if str_eq a.request_id "" || is_nil a.option
      then unclear (codes "未识别到 request_id 或选项，请明确告诉我。")
      else decide_approval a.request_id a.option (reply_of a)
    else if str_eq a.intent "query_status"
    then query_status a.target_project_slug (reply_of a)
    else if str_eq a.intent "chat_to_super"
    then chat_to_super a.target_project_slug (reply_of a)
    else unclear (reply_of a)

-- `classify_and_reply`: `none` stands for a model that fails or writes no such object.
unfoldable pub classify_and_reply :
    ℕ → Account → Text → Text → Option ModelAnswer → World → Classified
classify_and_reply account acc uid text none w = by_rules (
    fallback_classify text (list_pending_for_reviewer (list_reviewer_projects account acc uid w) w))
classify_and_reply account acc uid text (some a) w = by_model a

-- What is said to a user that answered.
pub data Said : Type 0 where
  not_found : (request_id : String) → Said
  reply : Text → Said

abbrev pub by_wechat : Text → Text
by_wechat uid = codes "wechat:" ++ uid

module _ (o : Outside) where
  abbrev announced : String → Text → Text → Text → Option PendingApproval × World → Said × World
  announced rid option uid said (none, w) = (not_found rid, w)
  announced rid option uid said (some row, w) = (
    reply said,
    publish row.mission_id (approval_resolved row.request_id option (by_wechat uid)) w,
  )

  -- The branch `decide_approval` of `_handle_message`.
  unfoldable pub answer_card : String → Text → Text → Text → World → Said × World
  answer_card rid option uid said w =
      announced rid option uid said (decide o rid option (by_wechat uid) w)
