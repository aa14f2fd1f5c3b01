-- ===== src/Approval/Answer.antt =====
-- `decide` of backend/app/services/pending_approval_service.py: a human's answer to a card.
use colony_agents.Prelude.{
  ℕ, String, Text, codes, Bool, ◌||◌, Option, none, some, [], ◌∷◌, ◌++◌, find, join, str_eq,
  if◌then◌else◌,
}
use colony_agents.Prelude.Table.{get}
use colony_agents.World.{World, trigger_tick, Mission, PendingApproval, response, response_by}
pub use colony_agents.World.{runtime_of}
use colony_agents.Messages.{append_message}
use colony_agents.Queue.{enqueue_user_message}
use colony_agents.Approval.Cards.{Outside, update_row, resume_after_clarification}

-- WHERE request_id = :request_id
abbrev pub has_id : String → PendingApproval → Bool
has_id rid row = str_eq row.request_id rid

unfoldable pub get_by_request_id : String → World → Option PendingApproval
get_by_request_id rid w = find (has_id rid) w.approvals

unfoldable pub decided : Text → Text → ℕ → PendingApproval → PendingApproval
decided option by now row = record row {
  status = "decided";
  decided_option = some option;
  decided_by = some by;
  decided_at = some now;
}

-- `_write_response_message`
unfoldable pub response_text : PendingApproval → Text → Text → Text
response_text row option by = join (codes "\n") (
    (codes "[approval_response request_id=" ++ (codes row.request_id ++ codes "]"))
    ∷ (codes "审批标题：" ++ row.title)
    ∷ codes "审批说明：（同 pending 内容）"
    ∷ (codes "用户选择：" ++ option)
    ∷ (codes "决策人：" ++ by)
    ∷ [])

-- row.thread_key or "main"
abbrev pub thread_or_main : Option String → String
thread_or_main none = "main"
thread_or_main (some t) = if str_eq t "" then "main" else t

unfoldable pub write_response_message : PendingApproval → Text → Text → World → World
unfolding response_text
write_response_message row option by w =
    append_message row.mission_id (thread_or_main row.thread_key) "user"
      (response_text row option by)
      (("approval_response", response_by row.request_id option row.title by) ∷ []) w

unfoldable pub queue_text : PendingApproval → Text → Text
queue_text row option =
    codes "[approval_response request_id="
    ++ (codes row.request_id ++ (codes "] 审批标题：" ++ (row.title ++ (codes " | 用户选择：" ++ option))))

abbrev pub supervisor_of : Option Mission → Option ℕ
supervisor_of none = none
supervisor_of (some m) = m.supervisor_agent_id

-- runtime in ("running", "paused_idle", "starting")
abbrev pub can_continue : String → Bool
can_continue runtime =
    str_eq runtime "running" || (str_eq runtime "paused_idle" || str_eq runtime "starting")

module _ (o : Outside) where
  -- The answer goes into the super's queue, with the queue's default limits.
  unfoldable pub tell_super : PendingApproval → Text → Option ℕ → World → World
  unfolding queue_text
  tell_super row option none w = w
  tell_super row option (some agent) w =
      (enqueue_user_message o.queue_outside row.mission_id agent (queue_text row option)
        (("approval_response", response row.request_id option) ∷ []) 20 50 w).1

  -- The two `try` blocks behind an answer: the message, the queue, and the next tick.
  unfoldable pub follow_up : PendingApproval → Text → Text → World → World
  unfolding tell_super write_response_message
  follow_up row option by w =
      let written = write_response_message row option by w in
      let proj = get row.mission_id written.missions in
      let told = tell_super row option (supervisor_of proj) written in
      record told {
        spawned =
            if can_continue (runtime_of proj)
            then told.spawned ++ (trigger_tick row.mission_id ∷ [])
            else told.spawned;
      }

  abbrev answer : Text → Text → PendingApproval → World → PendingApproval × World
  answer option by row w =
      let row' = decided option by w.clock row in
      let stored = record w {
        approvals = update_row row.request_id (decided option by w.clock) w.approvals;
      } in
      (row', follow_up row' option by (resume_after_clarification row.mission_id stored))

  abbrev answer_row : Text → Text → World → Option PendingApproval → Option PendingApproval × World
  answer_row option by w none = (none, w)
  answer_row option by w (some row) =
      if str_eq row.status "pending"
      then (let (row', w') = answer option by row w in (some row', w'))
      else (some row, w)

  -- `decide(db, request_id=…, option=…, decided_by=…)`
  unfoldable pub decide : String → Text → Text → World → Option PendingApproval × World
  unfolding get_by_request_id decided follow_up
  decide rid option by w = answer_row option by w (get_by_request_id rid w)
