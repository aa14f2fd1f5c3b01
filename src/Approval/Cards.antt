-- ===== src/Approval/Cards.antt =====
-- The operations of backend/app/services/pending_approval_service.py.
use colony_agents.Prelude.{
  ℕ, String, Text, codes, Bool, true, false, ◌&&◌, ◌||◌, Option, none, some, List, [], ◌∷◌, ◌++◌,
  find, map, is_nil, str_eq, ◌==◌, if◌then◌else◌,
}
use colony_agents.Prelude.Table.{get}
use colony_agents.World.{World, Mission, PendingApproval, Channel, approval_request, publish}
pub use colony_agents.World.{lifecycle}
use colony_agents.Mission.Lifecycle.{pause_for_clarification, resume}
use colony_agents.Mission.Service
use colony_agents.Mission.Service.{apply}
use colony_agents.Queue
use colony_agents.Queue.{enqueue_user_message}
use colony_agents.Ticks.{Wait, cancel_current_tick}
use colony_agents.Wechat.Outbox.{Failed}
use colony_agents.Wechat.Outbox
use colony_agents.Approval.Format.{build_mission_deep_link, build_approval_message}

-- What the service calls and does not implement: `wechat_clawbot.send_text` (account, text, user:
-- the error that it raises, if it does), `_short_request_id` (a fresh id), the settings and the queue's storage.
pub record Outside : Type 0 where
  pub send_text : ℕ → Text → Text → Option Text
  pub short_request_id : World → String
  pub frontend_base_url : Text
  pub queue_outside : Queue.Outside

-- The task that makes a call, and how the wait for the cancelled tick ends.
pub record Caller : Type 0 where
  pub task : Option ℕ
  pub wait : Wait

-- After the transition: `except` returns, otherwise the running tick is cancelled.
abbrev pub then_cancel : ℕ → Caller → Service.Result × World → World
then_cancel pid c (Service.ok target, w) = (cancel_current_tick pid c.task c.wait w).1
then_cancel pid c (Service.no_such_mission, w) = w
then_cancel pid c (Service.illegal l a, w) = w

unfoldable pub pause_for_pending : ℕ → Caller → World → World
pause_for_pending pid c w =
    if str_eq (lifecycle pid w) "running"
    then then_cancel pid c
        (apply pid pause_for_clarification (some (codes "pending_approval")) false w)
    else w

unfoldable pub resume_after_clarification : ℕ → World → World
resume_after_clarification pid w =
    if str_eq (lifecycle pid w) "paused_clarification"
      || str_eq (lifecycle pid w) "paused_waiting_capability"
    then (apply pid resume (some (codes "approval_resolved")) true w).1
    else w

-- `get_channel`: the account and its reviewers, if the mission has a channel in use.
abbrev channel_account : Channel → Option ℕ → World → Option (ℕ × List Text)
channel_account cfg none w = none
channel_account cfg (some aid) w = elim (get aid w.accounts) [
  | none ↦ none
  | some acc ↦
      if acc.is_enabled
      then some
          (aid, if is_nil cfg.reviewer_wechat_ids then acc.reviewers else cfg.reviewer_wechat_ids)
      else none
]

unfoldable pub get_channel : ℕ → World → Option (ℕ × List Text)
get_channel pid w = elim (get pid w.channels) [
  | none ↦ none
  | some cfg ↦ if cfg.enabled then channel_account cfg cfg.clawbot_account_id w else none
]

-- An object is one row of the table, found by its `request_id`.
unfoldable pub update_row :
    String → (PendingApproval → PendingApproval) → List PendingApproval → List PendingApproval
update_row rid f [] = []
update_row rid f (row ∷ rows) =
    if str_eq row.request_id rid then f row ∷ rows else row ∷ update_row rid f rows

unfoldable pub sent_ok : (Text → Option Text) → List Text → List Text
sent_ok send [] = []
sent_ok send (uid ∷ uids) = elim (send uid) [
  | none ↦ uid ∷ sent_ok send uids
  | some error ↦ sent_ok send uids
]

unfoldable pub failed : (Text → Option Text) → List Text → List Failed
failed send [] = []
failed send (uid ∷ uids) = elim (send uid) [
  | none ↦ failed send uids
  | some error ↦ record { user_id = uid; error = error } ∷ failed send uids
]

abbrev pub slug_of : Option Mission → Text
slug_of none = []
slug_of (some m) = m.slug

-- The columns of a row that was sent, or was tried to be.
unfoldable pub marked : ℕ → List Text → List Failed → ℕ → PendingApproval → PendingApproval
marked aid ok bad now row = record row {
  clawbot_account_id = some aid;
  clawbot_user_ids = if is_nil ok then map (λ (f : Failed). f.user_id) bad else ok;
  clawbot_sent_at = if is_nil ok then none else some now;
}

-- What failed goes to the outbox.
unfoldable pub resend_later : ℕ → ℕ → List Failed → Text → World → World
unfolding Outbox.queue
resend_later aid pid bad body w =
    if is_nil bad then w else Outbox.queue aid (some pid) bad body "approval_resend" w

module _ (o : Outside) where
  unfoldable pub card_body : PendingApproval → World → Text
  card_body row w =
      build_approval_message row.request_id row.title row.message row.options
        (build_mission_deep_link o.frontend_base_url (slug_of (get row.mission_id w.missions)) none)

  -- The loop over the reviewers, the columns of the row, and the outbox for those that failed.
  unfoldable pub dispatch_to : PendingApproval → ℕ × List Text → World → World
  unfolding sent_ok failed marked resend_later card_body
  dispatch_to row (aid, reviewers) w =
      let body = card_body row w in
      let ok = sent_ok (o.send_text aid body) reviewers in
      let bad = failed (o.send_text aid body) reviewers in
      resend_later aid row.mission_id bad body
        (record w { approvals = update_row row.request_id (marked aid ok bad w.clock) w.approvals })

  -- `_dispatch_to_wechat`: nothing without an account or without reviewers.
  unfoldable pub dispatch_to_wechat : PendingApproval → World → World
  unfolding dispatch_to get_channel
  dispatch_to_wechat row w = elim (get_channel row.mission_id w) [
    | none ↦ w
    | some (aid, []) ↦ w
    | some (aid, uid ∷ uids) ↦ dispatch_to row (aid, uid ∷ uids) w
  ]

abbrev pub thread_eq : Option String → Option String → Bool
thread_eq none none = true
thread_eq none (some t) = false
thread_eq (some s) none = false
thread_eq (some s) (some t) = str_eq s t

-- WHERE mission_id = … AND thread_key = … AND status = 'pending'
abbrev pub is_open_card : ℕ → Option String → PendingApproval → Bool
is_open_card pid thread row =
    (row.mission_id == pid) && (thread_eq row.thread_key thread && str_eq row.status "pending")

-- The arguments of `create_pending`.
pub record Request : Type 0 where
  pub mission_id : ℕ
  pub title : Text
  pub message : Text
  pub options : List Text
  pub thread_key : Option String
  pub agent_node_name : Option String
  pub dispatch_wechat : Bool
  pub request_id : Option String

-- request_id or _short_request_id()
abbrev pub id_of : Option String → String → String
id_of none fresh = fresh
id_of (some rid) fresh = if str_eq rid "" then fresh else rid

unfoldable pub new_card : Request → String → PendingApproval
new_card r rid = record {
  mission_id = r.mission_id;
  request_id = rid;
  thread_key = r.thread_key;
  agent_node_name = r.agent_node_name;
  title = r.title;
  message = r.message;
  options = r.options;
  status = "pending";
  decided_option = none;
  decided_by = none;
  decided_at = none;
  clawbot_account_id = none;
  clawbot_user_ids = [];
  clawbot_sent_at = none;
}

abbrev pub insert_card : PendingApproval → World → World
insert_card row w =
    publish row.mission_id
      (approval_request row.request_id row.title row.message row.options row.thread_key)
      (record w { approvals = w.approvals ++ (row ∷ []) })

module _ (o : Outside) (c : Caller) where
  -- A new card: the row, the event, the pause, and then the messages.
  unfoldable pub open_card : Request → PendingApproval → World → World
  unfolding pause_for_pending dispatch_to_wechat
  open_card r row w =
      let w' = pause_for_pending r.mission_id c (insert_card row w) in
      if r.dispatch_wechat then dispatch_to_wechat o row w' else w'

  unfoldable pub create_pending : Request → World → PendingApproval × World
  unfolding new_card open_card
  create_pending r w = elim (find (is_open_card r.mission_id r.thread_key) w.approvals) [
    | some existing ↦ (existing, pause_for_pending r.mission_id c w)
    | none ↦
        let row = new_card r (id_of r.request_id (o.short_request_id w)) in (row, open_card r row w)
  ]
