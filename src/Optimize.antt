-- ===== src/Optimize.antt =====
-- The work orders of backend/app/services/worker_optimization_service.py: a mission of its own for
-- each worker that degrades, from its first report to its soft close. The rows of
-- `mission_schedules` stand beside the world. The calls that the code wraps in `try` are modelled as
-- they run when nothing outside fails; the description and the name of a mission are left out, and
-- so are the calls of the scheduler's library.
pub mod Waiters
pub mod Close
pub mod Compat
pub mod Decide
pub mod Worst
pub mod Wakes
pub mod Closes
pub mod Slugs
pub mod Orders
use colony_agents.Prelude.{
  ℕ, zero, suc, ◌+◌, String, Text, codes, Bool, true, false, not, ◌&&◌, ◌||◌, Option, none, some,
  List, [], ◌∷◌, ◌++◌, map, select, length, any, is_some, is_nil, find, or_text, or_else, str_eq,
  ◌==◌, leb, ltb, lower, if◌then◌else◌,
}
use colony_agents.Prelude.Like.{like}
use colony_agents.Prelude.Table.{Table, get, put}
use colony_agents.World.{World, Mission, WorkOrder, PendingApproval, text, trigger_tick}
use colony_agents.Mission.Lifecycle.{stop, resume}
use colony_agents.Mission.Service.{Result, ok, no_such_mission, illegal, apply}
use colony_agents.Messages.{append_message}
use colony_agents.Queue
use colony_agents.Queue.{enqueue_user_message}
use colony_agents.Daemon.Control
use colony_agents.Schedule.{Schedule}

pub record Desk : Type 0 where
  pub schedules : Table Schedule
  pub world : World

-- [^a-z0-9-]+ is replaced by one dash; the flag says that a dash was just put for such a run.
abbrev pub is_slug_char : ℕ → Bool
is_slug_char c = (leb b'a' c && leb c b'z') || (leb b'0' c && leb c b'9') || (c == b'-')

unfoldable pub dashed : Bool → Text → Text
dashed in_run [] = []
dashed in_run (c ∷ s) =
    let kept = c ∷ dashed false s in
    let run = dashed true s in if is_slug_char c then kept else if in_run then run else b'-' ∷ run

-- s.strip("-")
unfoldable pub strip_dashes_left : Text → Text
strip_dashes_left [] = []
strip_dashes_left (c ∷ s) = let rest = strip_dashes_left s in if c == b'-' then rest else c ∷ s

abbrev pub all_dashes : Text → Bool
all_dashes [] = true
all_dashes (c ∷ s) = (c == b'-') && all_dashes s

unfoldable pub strip_dashes_right : Text → Text
strip_dashes_right [] = []
strip_dashes_right (c ∷ s) =
    let rest = strip_dashes_right s in if all_dashes (c ∷ s) then [] else c ∷ rest

-- re.sub(r"[^a-z0-9-]+", "-", (capability or "unknown").lower()).strip("-"), or "unknown"
unfoldable pub safe_name : Text → Text
safe_name capability =
    or_text
      (some (
        strip_dashes_right
          (strip_dashes_left (dashed false (lower (or_text (some capability) (codes "unknown")))))))
      (codes "unknown")

unfoldable pub wo_slug_prefix : Text → Text
wo_slug_prefix capability = codes "wo-" ++ safe_name capability

-- (mission.workflow_config or {}).get("work_order") …
unfoldable pub work_order_capability : Mission → Text
work_order_capability m = elim m.work_order [ none ↦ [] | some wo ↦ wo.capability ]

-- WHERE supervisor_agent_id = … AND slug LIKE … AND status <> 'archived'
unfoldable pub is_open_like : ℕ → Text → Mission → Bool
is_open_like agent pattern m =
    elim m.supervisor_agent_id [ none ↦ false | some a ↦ a == agent ]
    && like pattern m.slug
    && not (str_eq m.status "archived")

-- The oldest such row.
unfoldable pub open_order : ℕ → Text → World → Option (ℕ × Mission)
open_order agent capability w =
    find (λ (row : ℕ × Mission). is_open_like agent (wo_slug_prefix capability ++ codes "-%") row.1)
      w.missions

unfoldable pub new_order : ℕ → Text → Text → Text → Mission
new_order agent capability worker_agent_id tag = record {
  slug = wo_slug_prefix capability ++ (codes "-" ++ tag);
  status = "active";
  lifecycle_status = "stopped";
  runtime_status = "stopped";
  paused_reason = none;
  supervisor_agent_id = some agent;
  auto_approve = true;
  work_order = some (record { capability = capability; worker_agent_id = worker_agent_id });
}

-- A new mission's id, and the eight digits that end its slug: both are drawn at random.
pub record Drawn : Type 0 where
  pub id : ℕ
  pub tag : Text

abbrev insert_mission : ℕ → Mission → World → World
insert_mission id m w = record w { missions = w.missions ++ ((id, m) ∷ []) }

module _ (o : Queue.Outside) (max_pending max_content_kb : ℕ) where
  abbrev report_to : ℕ → ℕ → Text → Text → Text → World → World
  report_to pid agent capability worker_agent_id report w =
      let meta =
        ("type", text (codes "worker_issue_report"))
        ∷ ("capability", text capability)
        ∷ ("worker_agent_id", text worker_agent_id)
        ∷ [] in
      (enqueue_user_message o pid agent report meta max_pending max_content_kb
        (append_message pid "main" "user" report meta w)).1

  -- The mission, whether it is new, and the world.
  unfoldable pub spawn_or_attach_work_order :
      (agent : ℕ) (capability worker_agent_id report : Text) → Drawn → World → (ℕ × Bool) × World
  unfolding open_order new_order
  spawn_or_attach_work_order agent capability worker_agent_id report drawn w =
      elim (open_order agent capability w) [
        | some (pid, m) ↦ ((pid, false), report_to pid agent capability worker_agent_id report w)
        | none ↦ (
          (drawn.id, true),
          report_to drawn.id agent capability worker_agent_id report
              (insert_mission drawn.id (new_order agent capability worker_agent_id drawn.tag) w),
        )
      ]

-- `_ensure_backstop_schedule`: a schedule for a mission that has none, under the id `sid`.
abbrev backstop : ℕ → Schedule
backstop pid = record {
  mission_id = pid;
  kind = "interval";
  expr = codes "5m";
  payload_template = record { trigger = some (codes "work_order_backstop"); message = none };
  enabled = true;
  last_fired_at = none;
  last_error = none;
  fire_count = 0;
}

abbrev pub schedules_of : ℕ → Table Schedule → Table Schedule
schedules_of pid = select (λ (row : ℕ × Schedule). row.1.mission_id == pid)

unfoldable pub ensure_backstop_schedule : (sid pid : ℕ) → Table Schedule → Table Schedule
ensure_backstop_schedule sid pid rows =
    if is_nil (schedules_of pid rows) then rows ++ ((sid, backstop pid) ∷ []) else rows

unfoldable pub drop_mission_schedules : ℕ → Table Schedule → Table Schedule
drop_mission_schedules pid = select (λ (row : ℕ × Schedule). not (row.1.mission_id == pid))

unfoldable pub activate_work_order : (sid pid : ℕ) → Desk → Desk
activate_work_order sid pid d = record {
  schedules = ensure_backstop_schedule sid pid d.schedules;
  world = (Control.start pid true d.world).1;
}
