-- ===== src/Dispatch/Invoke.antt =====
-- `_invoke_worker_inner` of backend/app/skills_builtin/super/super_dispatch_skills.py: one call of a
-- worker by a super, from its tests to the row of `worker_invocation_log`. What the worker's run does
-- is an argument, and so are the names of threads, the printed parameters and the log's new id. The
-- compression of the worker's thread, the timing of the events, and what the texts of two refusals
-- list are left out.
pub mod Logs
use colony_agents.Prelude.{
  ℕ, any, zero, ◌+◌, String, Text, codes, Bool, true, false, not, ◌&&◌, ◌||◌, Option, none, some,
  is_some, List, [], ◌∷◌, ◌++◌, find, last?, is_nil, take, starts_with, drop, length, strip, str,
  str_eq, text_eq, or_else, or_text, ◌==◌, if◌then◌else◌,
}
use colony_agents.Prelude.Dict.{Dict}
use colony_agents.Prelude.Table.{Table, get, put}
use colony_agents.World.{World, MetaValue, text, number, worker_event, publish}
use colony_agents.Messages.{append_message}
use colony_agents.Queue
use colony_agents.Queue.{Stored, stored_form}
use colony_agents.Dispatch.{
  Envelope, Msg, Refusal, refused, precheck_invocation, refusal_text,
  extract_return_result_envelope, fallback_envelope, sum_message_usage,
}

-- An action that a worker advertises, and an agent's row.
pub record ActionSpec : Type 0 where
  pub action : Text
  pub requires_approval : Bool

pub record Agent : Type 0 where
  pub id : ℕ
  pub kind : String
  pub name : Text
  pub capability : Option Text
  pub is_enabled : Bool
  pub advertises : List ActionSpec

-- A row of `worker_invocation_log`.
pub record LogRow : Type 0 where
  pub worker_agent_id : ℕ
  pub super_agent_id : Option ℕ
  pub action : Text
  pub status : String
  pub finished : Bool
  pub error_msg : Option Text
  pub tokens_in : ℕ
  pub tokens_out : ℕ
  pub artifact_count : ℕ

-- What a call works on.
pub record Bench : Type 0 where
  pub world : World
  pub agents : List Agent
  pub log : Table LogRow

pub data Resolved : Type 0 where
  worker : Agent → Resolved
  empty_ref : Resolved
  no_such_capability : Text → Resolved
  unreadable not_a_worker : Text → Resolved

abbrev found : Text → Option Agent → (Text → Resolved) → Resolved
found t none missing = missing t
found t (some a) missing = worker a

abbrev is_capable : Text → Agent → Bool
is_capable cap a =
    str_eq a.kind "worker"
    && elim a.capability [ none ↦ false | some c ↦ text_eq c cap ]
    && a.is_enabled

-- uuid.UUID(ref), and db.get(Agent, uid) with the test of its kind.
abbrev by_id : Text → Option ℕ → List Agent → Resolved
by_id ref none agents = unreadable ref
by_id ref (some uid) agents =
    found ref (find (λ (a : Agent). (a.id == uid) && str_eq a.kind "worker") agents) not_a_worker

-- `_resolve_worker`; `read_id` reads a printed id.
unfoldable pub resolve_worker : (Text → Option ℕ) → List Agent → Text → Resolved
resolve_worker read_id agents ref =
    let t = strip ref in
    let cap = strip (drop (length (codes "capability:")) t) in
    if is_nil t
    then empty_ref
    else if starts_with t (codes "capability:")
    then found cap (find (is_capable cap) agents) no_such_capability
    else by_id t (read_id t) agents

abbrev resolve_error : Resolved → Text
resolve_error (worker a) = []
resolve_error empty_ref = codes "❌ worker 引用为空"
resolve_error (no_such_capability cap) =
    codes "capability:" ++ (cap ++ codes " 平台无可用 worker；考虑调 request_new_capability")
resolve_error (unreadable ref) = codes "❌ 无法解析 worker 引用：" ++ ref
resolve_error (not_a_worker ref) = codes "❌ agent " ++ (ref ++ codes " 不存在或不是 worker")

-- {a.get("action"): a for a in advertises}.get(action): the last one of a name counts.
unfoldable pub action_spec : Text → List ActionSpec → Option ActionSpec
action_spec name [] = none
action_spec name (a ∷ rest) = elim (action_spec name rest) [
  | some b ↦ some b
  | none ↦ if text_eq a.action name then some a else none
]

-- What the caller says: its context, and the arguments of the tool.
pub record Call : Type 0 where
  pub mission_id : ℕ
  pub super_id : Option ℕ
  pub call_stack : List Text
  pub clarification_round : ℕ
  pub worker_ref : Text
  pub action : Text
  pub params_blob : Text
  pub approval_ticket : Option Text

-- How the worker's run ends.
pub data RunEnd : Type 0 where
  cancelled timed_out : RunEnd
  raised : Text → RunEnd
  returned : List Msg → RunEnd

-- What the code finds outside of it: the settings, the executor that cannot be built, the cancel
-- event before the run, what the run does and how it ends, and the log's new id.
pub record Outside : Type 0 where
  pub max_nesting : ℕ
  pub max_rounds : ℕ
  pub timeout_sec : ℕ
  pub tool_msg_max_kb : ℕ
  pub queue_outside : Queue.Outside
  pub read_id : Text → Option ℕ
  pub thread_key : Option ℕ → ℕ → String
  pub loads : Text → Option Envelope
  pub dumps : Envelope → Text
  pub log_id : ℕ
  pub build_error : Option Text
  pub cancel_is_set : Bool
  pub during : World → World
  pub run : RunEnd

-- `_v38_guard`: a text that is too long is handed to the storage, as the queue's are.
unfoldable pub v38_guard : Queue.Outside → ℕ → ℕ → Text → Dict MetaValue → Stored
v38_guard o pid max_kb content meta =
    if is_nil content
    then record { content = content; meta = meta }
    else stored_form o pid max_kb content meta

abbrev pub started_row : Call → Agent → LogRow
started_row c a = record {
  worker_agent_id = a.id;
  super_agent_id = c.super_id;
  action = c.action;
  status = "started";
  finished = false;
  error_msg = none;
  tokens_in = 0;
  tokens_out = 0;
  artifact_count = 0;
}

abbrev pub not_empty : Option Text → Option Text
not_empty none = none
not_empty (some []) = none
not_empty (some (c ∷ t)) = some (c ∷ t)

-- envelope.get("status") or "completed"
abbrev pub status_of : Envelope → String
status_of e = elim e.status [ none ↦ "completed" | some s ↦ if str_eq s "" then "completed" else s ]

unfoldable pub finalized : Envelope → ℕ → ℕ → LogRow → LogRow
finalized e ti to r = record r {
  finished = true;
  status = status_of e;
  error_msg = elim (not_empty e.error_msg) [ none ↦ none | some t ↦ some (take 500 t) ];
  tokens_in = r.tokens_in + ti;
  tokens_out = r.tokens_out + to;
  artifact_count =
      if is_some (not_empty e.artifact_url) then r.artifact_count + 1 else r.artifact_count;
}

-- ck_wil_status of the migration 038, which no later one changes: there is no "cancelled" in it.
unfoldable pub is_log_status : String → Bool
is_log_status status =
    any (λ s. str_eq s status)
      ("started" ∷ "completed" ∷ "failed" ∷ "needs_clarification" ∷ "timeout" ∷ [])

-- `__finalize_log`: an update that the constraint refuses raises, and the error is only logged.
unfoldable pub finalize_log : ℕ → Envelope → ℕ → ℕ → Bench → Bench
unfolding is_log_status
finalize_log id e ti to b = elim (get id b.log) [
  | none ↦ b
  | some r ↦
      if is_log_status (status_of e)
      then record b { log = put id (finalized e ti to r) b.log }
      else b
]

abbrev pub tell : ℕ → String → Text → Option String → Bench → Bench
tell pid type action status b = record b {
  world = publish pid (worker_event type action status) b.world;
}

abbrev say : ℕ → String → String → Stored → Bench → Bench
say pid thread role s b = record b {
  world = append_message pid thread role s.content s.meta b.world;
}

abbrev instruction : Call → Text
instruction c =
    codes "[super dispatch] action="
    ++ (c.action
        ++ (codes "\nparams:\n```json\n"
            ++ (take 8000 c.params_blob
                ++ (codes "\n```\n" ++ elim (not_empty c.approval_ticket) [
                  | none ↦ []
                  | some t ↦ codes "approval_ticket: " ++ (t ++ codes "\n")
                ]))))

module _ (o : Outside) (c : Call) where
  -- The end of a run without a result.
  unfoldable pub ended : Envelope → Bench → Envelope × Bench
  ended e b = (e, tell c.mission_id "worker_done" c.action e.status (finalize_log o.log_id e 0 0 b))

  abbrev answer_meta : Agent → Envelope → Dict MetaValue
  answer_meta a e =
      ("type", text (codes "worker_return"))
      ∷ ("worker_id", number a.id)
      ∷ ("action", text c.action)
      ∷ ("status", text (codes (status_of e)))
      ∷ []

  -- Steps 9 and 10 and the last event.
  unfoldable pub concluded : Agent → List Msg → Bench → Envelope × Bench
  concluded a ms b =
      let e = or_else (extract_return_result_envelope o.loads ms) (fallback_envelope ms) in
      let (ti, to) = sum_message_usage ms in
      let stored =
        v38_guard o.queue_outside c.mission_id o.tool_msg_max_kb (o.dumps e) (answer_meta a e) in
      (
        e,
        tell c.mission_id "worker_done" c.action e.status (
            finalize_log o.log_id e ti to
              (say c.mission_id (o.thread_key c.super_id a.id) "assistant" stored b)),
      )

  unfoldable pub after_run : Agent → RunEnd → Bench → Envelope × Bench
  after_run a cancelled b = ended (refused "cancelled" (codes "用户对话触发 cancel；worker 中断")) b
  after_run a timed_out b =
      ended (refused "timeout" (codes "worker 执行超时 " ++ (str o.timeout_sec ++ codes "s"))) b
  after_run a (raised message) b = ended (refused "failed" (take 500 message)) b
  after_run a (returned ms) b = concluded a ms b

  -- The events before the run, and what the run itself does.
  abbrev pub run_worker : Bench → Bench
  run_worker b =
      let b1 = tell c.mission_id "worker_start" c.action none b in
      let b2 = tell c.mission_id "worker_llm_invoke" c.action none b1 in
      record b2 { world = o.during b2.world }

  abbrev pub started : Agent → Bool → Bench → Envelope × Bench
  started a true b = ended (refused "cancelled" (codes "用户对话触发 cancel；放弃本次 invoke_worker")) b
  started a false b = after_run a o.run (run_worker b)

  abbrev pub built : Agent → Option Text → Bench → Envelope × Bench
  built a (some message) b = (refused "failed" (codes "❌ 构建 worker executor 失败：" ++ message), b)
  built a none b = started a o.cancel_is_set b

  abbrev instruction_meta : Agent → Dict MetaValue
  instruction_meta a =
      ("type", text (codes "super_dispatch"))
      ∷ ("action", text c.action)
      ∷ ("worker_id", number a.id)
      ∷ []

  -- Steps 5 and 6.
  abbrev pub logged : Agent → Bench → Bench
  logged a b =
      say c.mission_id (o.thread_key c.super_id a.id) "user"
        (v38_guard o.queue_outside c.mission_id o.tool_msg_max_kb (instruction c)
          (instruction_meta a))
        (record b { log = put o.log_id (started_row c a) b.log })

  -- The flag says that an approval is missing.
  abbrev pub allowed : Agent → Bool → Bench → Envelope × Bench
  allowed a true b = (
    refused "needs_approval" (
        0x26a0 ∷ 0xfe0f ∷ codes " action "
        ++ (c.action ++ codes " requires_approval；super 必须先 request_approval")),
    b,
  )
  allowed a false b = built a o.build_error (logged a b)

  abbrev pub gated : Agent → Option ActionSpec → Bench → Envelope × Bench
  gated a none b = (
    refused "failed"
        (codes "❌ worker " ++ (or_text a.capability a.name ++ (codes " 不支持 action=" ++ c.action))),
    b,
  )
  gated a (some spec) b =
      allowed a (spec.requires_approval && not (is_some (not_empty c.approval_ticket))) b

  abbrev pub resolved : Resolved → Bench → Envelope × Bench
  resolved (worker a) b =
      gated a (action_spec c.action a.advertises)
        (tell c.mission_id "worker_resolve" c.action none b)
  resolved missing b = (refused "failed" (resolve_error missing), b)

  abbrev pub checked : Option Refusal → Bench → Envelope × Bench
  checked (some r) b = (refused "failed" (refusal_text o.max_nesting o.max_rounds r), b)
  checked none b = resolved (resolve_worker o.read_id b.agents c.worker_ref) b

  unfoldable pub invoke_worker : Bench → Envelope × Bench
  invoke_worker =
      checked (
        precheck_invocation c.call_stack c.clarification_round c.super_id o.max_nesting
          o.max_rounds)
