-- ===== src/Tests/Samples.antt =====
-- A world with three missions: 1 runs, with its daemon and a tick; 2 waits for a human, with two
-- undecided cards in two threads; 3 is stopped, but its column still says that it runs.
use colony_agents.Prelude.{String, codes, true, false, none, some, [], ◌∷◌}
use colony_agents.World.{World, Mission, PendingApproval}
use colony_agents.Ticks.{Wait, finishes}
use colony_agents.Queue
use colony_agents.Approval.Cards
use colony_agents.Approval.Cards.{Caller, Request}

abbrev pub mission : String → String → Mission
mission lifecycle_status runtime_status = record {
  slug = codes "shop";
  status = "active";
  lifecycle_status = lifecycle_status;
  runtime_status = runtime_status;
  paused_reason = none;
  supervisor_agent_id = some 7;
  auto_approve = true;
  work_order = none;
}

abbrev pub runner : Mission
runner = mission "running" "running"

abbrev pub gated : Mission
gated = mission "paused_clarification" "running"

abbrev pub idle : Mission
idle = mission "stopped" "stopped"

abbrev pub card : String → String → PendingApproval
card request_id thread_key = record {
  mission_id = 2;
  request_id = request_id;
  thread_key = some thread_key;
  agent_node_name = none;
  title = codes "plan";
  message = codes "go?";
  options = codes "yes" ∷ codes "no" ∷ [];
  status = "pending";
  decided_option = none;
  decided_by = none;
  decided_at = none;
  clawbot_account_id = none;
  clawbot_user_ids = [];
  clawbot_sent_at = none;
}

abbrev pub main_card : PendingApproval
main_card = card "a1" "main"

abbrev pub worker_card : PendingApproval
worker_card = card "a2" "worker"

abbrev pub sample : World
sample = record {
  missions = (1, runner) ∷ (2, gated) ∷ (3, idle) ∷ [];
  run_states = [];
  approvals = main_card ∷ worker_card ∷ [];
  channels = [];
  accounts = [];
  outbox = [];
  queue = [];
  messages = [];
  daemons = 1 ∷ [];
  ticking = [];
  running_ticks = (1, (100, false)) ∷ [];
  cancel_events = [];
  cancel_history = [];
  published = [];
  spawned = [];
  clock = 1000;
  next_id = 1;
}

abbrev pub upload_fails : Queue.Outside
upload_fails = record { upload = λ pid content. none }

abbrev pub outside : Cards.Outside
outside = record {
  send_text = λ account text user. none;
  short_request_id = λ w. "b1";
  frontend_base_url = codes "http://localhost";
  queue_outside = upload_fails;
}

-- The other tasks of the process do nothing while the tick is waited for.
abbrev pub quiet : Wait
quiet = record { others = λ w. w; ends = finishes }

abbrev pub caller : Caller
caller = record { task = some 100; wait = quiet }

abbrev pub request : Request
request = record {
  mission_id = 1;
  title = codes "publish";
  message = codes "ready";
  options = codes "ok" ∷ [];
  thread_key = some "main";
  agent_node_name = none;
  dispatch_wechat = true;
  request_id = none;
}
