-- ===== src/Tests/Dispatches.antt =====
-- A call of the worker `poster` by super 7, and the reading of what a run returns.
use colony_agents.Prelude.{
  String, Text, codes, true, false, none, some, Option, [], ◌∷◌, ◌≡◌, ◌⊎◌, refl, is_nil,
  if◌then◌else◌,
}
use colony_agents.Prelude.Table.{get, put}
use colony_agents.Dispatch.{
  Envelope, Msg, precheck_invocation, extract_return_result_envelope, first_envelope, envelope_in,
  sum_message_usage, msg_usage,
}
use colony_agents.Dispatch.Invoke.{
  Agent, ActionSpec, Bench, Call, Outside, returned, cancelled, started_row, after_run, ended,
  finalize_log, is_log_status, resolve_worker, action_spec, invoke_worker,
}
use colony_agents.Dispatch.Invoke.Logs.{
  IsRefused, IsLogged, IsLeft, invoke_closes, build_failure_stays_started,
}
use colony_agents.Tests.Samples.{sample, upload_fails}

abbrev post : ActionSpec
post = record { action = codes "post"; requires_approval = false }

abbrev poster : Agent
poster = record {
  id = 4;
  kind = "worker";
  name = codes "Poster";
  capability = some (codes "poster");
  is_enabled = true;
  advertises = post ∷ [];
}

abbrev bench : Bench
bench = record { world = sample; agents = poster ∷ []; log = [] }

abbrev result : Envelope
result = record {
  status = some "completed";
  error_msg = none;
  text = some (codes "done");
  artifact_url = none;
}

abbrev said : String → Text → Msg
said type content = record {
  type = some type;
  role = none;
  content = some content;
  usage_metadata = some (record {
    input_tokens = some 3;
    prompt_tokens = none;
    output_tokens = some 2;
    completion_tokens = none;
  });
  token_usage = none;
}

-- A reader of JSON that knows one object.
abbrev loads : Text → Option Envelope
loads t = if is_nil t then none else some result

finds_result :
    extract_return_result_envelope loads (said "tool" (codes "{}") ∷ said "ai" (codes "ok") ∷ [])
    ≡ some result
unfolding extract_return_result_envelope first_envelope envelope_in
finds_result = refl

counts_tokens : sum_message_usage (said "tool" [] ∷ said "ai" [] ∷ []) ≡ (6, 4)
unfolding sum_message_usage msg_usage
counts_tokens = refl

abbrev outside : Option Text → Outside
outside build_error = record {
  max_nesting = 2;
  max_rounds = 3;
  timeout_sec = 600;
  tool_msg_max_kb = 50;
  queue_outside = upload_fails;
  read_id = λ t. none;
  thread_key = λ super_id worker_id. "worker:7:4";
  loads = loads;
  dumps = λ e. codes "{}";
  log_id = 1;
  build_error = build_error;
  cancel_is_set = false;
  during = λ w. w;
  run = returned (said "tool" (codes "{}") ∷ []);
}

abbrev call : Call
call = record {
  mission_id = 1;
  super_id = some 7;
  call_stack = [];
  clarification_round = 0;
  worker_ref = codes "capability:poster";
  action = codes "post";
  params_blob = codes "{}";
  approval_ticket = none;
}

invoke_closes_example :
    IsRefused bench (invoke_worker (outside none) call bench)
    ⊎ IsLogged 1 (invoke_worker (outside none) call bench)
invoke_closes_example = invoke_closes (outside none) call bench refl

abbrev stopped_run : Outside
stopped_run = record (outside none) { run = cancelled }

-- A run that the user's chat cancels.
cancelled_runs :
    ((invoke_worker stopped_run call bench).0.status ≡ some "cancelled")
    × (get 1 (invoke_worker stopped_run call bench).1.log ≡ some (started_row call poster))
unfolding invoke_worker precheck_invocation resolve_worker action_spec get put after_run ended
    finalize_log is_log_status
cancelled_runs = (refl, refl)

build_failure_stays_started_example :
    IsLeft
      (outside (some (codes "no model")))
      call
      poster
      (invoke_worker (outside (some (codes "no model"))) call bench)
unfolding precheck_invocation resolve_worker action_spec
build_failure_stays_started_example =
    build_failure_stays_started (outside (some (codes "no model"))) call bench poster post
      (codes "no model") refl refl refl refl refl
