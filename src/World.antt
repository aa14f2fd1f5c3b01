-- ===== src/World.antt =====
-- What the backend keeps: the rows of backend/app/models/mission.py, approvals.py and message.py
-- that its services read and write, and the registries of the process. A service is a function
-- from the world to its result and the new world; the rows' order is that of `created_at`.
use colony_agents.Prelude.{ℕ, String, Text, Option, none, some, List, [], ◌∷◌, ◌++◌, Bool}
use colony_agents.Prelude.Table.{Table, get}
use colony_agents.Prelude.Dict.{Dict}

-- The `work_order` entry of a mission's `workflow_config`.
pub record WorkOrder : Type 0 where
  pub capability : Text
  pub worker_agent_id : Text

-- A row of `missions`.
pub record Mission : Type 0 where
  pub slug : Text
  pub status : String
  pub lifecycle_status : String
  pub runtime_status : String
  pub paused_reason : Option Text
  pub supervisor_agent_id : Option ℕ
  pub auto_approve : Bool
  pub work_order : Option WorkOrder

-- A row of `mission_run_state`.
pub record RunState : Type 0 where
  pub status : String
  pub started_at : Option ℕ
  pub stopped_at : Option ℕ
  pub last_heartbeat_at : Option ℕ
  pub last_error : Option Text
  pub current_step : Option Text
  pub run_count : ℕ

-- A row of `pending_approvals`.
pub record PendingApproval : Type 0 where
  pub mission_id : ℕ
  pub request_id : String
  pub thread_key : Option String
  pub agent_node_name : Option String
  pub title : Text
  pub message : Text
  pub options : List Text
  pub status : String
  pub decided_option : Option Text
  pub decided_by : Option Text
  pub decided_at : Option ℕ
  pub clawbot_account_id : Option ℕ
  pub clawbot_user_ids : List Text
  pub clawbot_sent_at : Option ℕ

-- A value under a key of a message's `meta`.
pub data MetaValue : Type 0 where
  flag : Bool → MetaValue
  number : ℕ → MetaValue
  text : Text → MetaValue
  response : (request_id : String) (option : Text) → MetaValue
  response_by : (request_id : String) (option title decided_by : Text) → MetaValue

-- A row of `super_pending_messages`.
pub record PendingMessage : Type 0 where
  pub id : ℕ
  pub super_mission_id : ℕ
  pub super_agent_id : ℕ
  pub content : Text
  pub meta : Dict MetaValue
  pub status : String

-- A row of `messages`.
pub record Message : Type 0 where
  pub mission_id : ℕ
  pub thread_key : String
  pub role : String
  pub content : Text
  pub meta : Dict MetaValue

-- What is handed to the event bus.
pub data Event : Type 0 where
  lifecycle_changed : String → String → String → Option Text → Event
  approval_request : String → Text → Text → List Text → Option String → Event
  message_added : String → Text → Dict MetaValue → Event
  worker_event : (type : String) (action : Text) (status : Option String) → Event
  approval_resolved : (request_id : String) (option decided_by : Text) → Event

-- A background task: a tick that `_trigger_tick_async` runs, or the first tick of a new mission.
pub data Task : Type 0 where
  trigger_tick initial_kickoff : ℕ → Task

-- A row of `wechat_clawbot_accounts` and one of `mission_approval_channels`: what decides where a
-- card is sent. What is only handed to the sender (token, base url, context tokens) is left out.
pub record Account : Type 0 where
  pub is_enabled : Bool
  pub reviewers : List Text

pub record Channel : Type 0 where
  pub clawbot_account_id : Option ℕ
  pub reviewer_wechat_ids : List Text
  pub enabled : Bool

-- A row of `wechat_outbox`.
pub record OutboxRow : Type 0 where
  pub account_id : ℕ
  pub mission_id : Option ℕ
  pub target_wechat_id : Text
  pub kind : String
  pub content : Text
  pub status : String
  pub attempt_count : ℕ
  pub last_error : Text
  pub sent_at : Option ℕ

pub record World : Type 0 where
  pub missions : Table Mission
  pub run_states : Table RunState
  pub approvals : List PendingApproval
  pub channels : Table Channel
  pub accounts : Table Account
  pub outbox : List OutboxRow
  pub queue : List PendingMessage
  pub messages : List Message
  -- _DAEMONS and _TICKING_MISSIONS of mission_daemon.py
  pub daemons : List ℕ
  pub ticking : List ℕ
  -- _RUNNING_TICKS (a mission's task, and whether it is done), _CANCEL_EVENTS (whether a mission's
  -- event is set) and _CANCEL_HISTORY of tick_lifecycle.py
  pub running_ticks : Table (ℕ × Bool)
  pub cancel_events : Table Bool
  pub cancel_history : Table (List ℕ)
  -- What the event bus was given, the tasks that were spawned, and the time.
  pub published : List (ℕ × Event)
  pub spawned : List Task
  pub clock : ℕ
  pub next_id : ℕ

-- `await bus.publish(channel, event)`
abbrev pub publish : ℕ → Event → World → World
publish channel event w = record w { published = w.published ++ ((channel, event) ∷ []) }

-- (proj.lifecycle_status if proj else "") or ""
abbrev pub lifecycle_of : Option Mission → String
lifecycle_of none = ""
lifecycle_of (some m) = m.lifecycle_status

abbrev pub lifecycle : ℕ → World → String
lifecycle pid w = lifecycle_of (get pid w.missions)

-- proj.runtime_status if proj else ""
abbrev pub runtime_of : Option Mission → String
runtime_of none = ""
runtime_of (some m) = m.runtime_status

abbrev pub runtime : ℕ → World → String
runtime pid w = runtime_of (get pid w.missions)
