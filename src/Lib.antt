-- ===== src/Lib.antt =====
-- A model of the core of the backend in backend/app: missions, whose super agents run in ticks, the
-- cards by which they ask a human, and the queues and streams between them.
--
-- World is what the backend keeps: the rows of its tables and the registries of its process. A
-- service is a function from the world to its result and the new world; a call is one step, and
-- where the code waits for others (the cancel of a tick) what they do is an argument.
--   Mission.Lifecycle, Mission.Service, Mission.Policy: domain/lifecycle.py, lifecycle_service.py
--     and tick_policy.py, the state machine of a mission and its one writer.
--   Daemon: services/mission_daemon.py. State is the writes of the runtime columns, Control start,
--     stop, the sweeps and the boot, Tick the guards, and Tick.Run run_once; what a tick calls in
--     other parts of the program is a field of Parts, the agent's turn among them.
--   Ticks: services/tick_lifecycle.py, the running ticks and their cancel events.
--   Queue: services/pending_queue.py, the messages that wait for a super; the upload is a parameter.
--   Messages: services/messaging_service.py.
--   Approval: services/pending_approval_service.py (Cards, Answer), domain/approval/wechat_format.py
--     (Format) and domain/auto_approve.py (Auto). A card pauses its mission by Mission.Service and
--     cancels its tick by Ticks; an answer resumes it, writes by Messages, and tells the super by
--     Queue. Sending to WeChat is a parameter.
--   Wechat.Outbox, Wechat.Router: services/wechat_outbox.py and domain/wechat/router_policy.py.
--     Inbound: services/wechat_router.py, which message goes to the super that is chosen.
--   Wechat.Intent, Wechat.Inbox: domain/wechat/intent_parser.py, and what services/wechat_intent.py
--     and wechat_poller.py do with a reply; the model that reads one is a parameter.
--   Llm: services/resilient_llm.py. Chunk and Content are what it reads and drops, Retry is
--     _astream_once and Stream is _astream; the provider is a function from the messages and the
--     attempt's number. Both loops are recursions on the number of rounds left.
--     Thinking: domain/llm/provider_router.py and thinking_policy.py.
--     Errors: services/llm_error_classifier.py.
--   Dispatch: domain/dispatch, and in Invoke the call of a worker by a super of
--     skills_builtin/super/super_dispatch_skills.py; the run of the worker is an argument.
--   Compress: services/compression_service.py with domain/compression, on the rows of one thread.
--     Lock is schedule_compression_if_needed, a step relation between its awaits, with the starts
--     of the process.
--   Optimize: the work orders of services/worker_optimization_service.py, and in Waiters the
--     missions of worker_health_service.py that wait for them; a Desk is the world and its schedules.
--     Compat and Decide: domain/optimization, with Python's floating-point numbers as a parameter.
--   SelfTune: skills_builtin/builder/self_tune_skills.py, the proposals for a worker's protocol and
--     its history; in Apply, agent_protocol_apply and agent_protocol_revert, and in Evaluate
--     agent_protocol_evaluate.
--   Schedule: services/scheduler_service.py, one firing of a schedule.
--   Events: services/event_bus.py, class InProcessBus.
--   Builder.Claims, Builder.Spec: services/builder_claim_service.py with domain/builder/work_claim.py,
--     and domain/builder/spec_validation.py.
--   Prelude: tests, lists, texts, tables; Tests: runs on concrete inputs.
-- All paths are from backend/app.
--
-- Numbers are natural; identities (uuid) and times are numbers, and times count whole seconds. A
-- text that is searched or cut is the list of its code points. No fuel is used but for the digits of
-- a printed number, which are at most one more than its value.
--
-- Not modelled: a database that fails (but for the constraint on the status of a worker's log), the HTTP handlers, the agents' executor and tools, the
-- library's scheduler, the rest of the builder, the rules of memory, and the queries by which the
-- optimizer's telemetry is read.
pub mod Prelude
pub mod World
pub mod Mission
pub mod Queue
pub mod Messages
pub mod Ticks
pub mod Wechat
pub mod Approval
pub mod Daemon
pub mod Llm
pub mod Events
pub mod Builder
pub mod Schedule
pub mod Tests
pub mod Optimize
pub mod Compress
pub mod Dispatch
pub mod SelfTune
