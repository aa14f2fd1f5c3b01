-- ===== src/SelfTune/Apply.antt =====
-- `agent_protocol_apply` and `agent_protocol_revert` of
-- backend/app/skills_builtin/builder/self_tune_skills.py: an approved proposal becomes the agent's
-- protocol, and a version of the history becomes it again.
use colony_agents.Prelude.{
  codes, str, ℕ, suc, ◌-◌, Text, Bool, ◌&&◌, Option, none, some, List, [], ◌∷◌, ◌++◌, is_nil,
  str_eq, or_else, ltb, leb, if◌then◌else◌,
}
use colony_agents.Prelude.Table.{get, put}
use colony_agents.World.{World}
use colony_agents.Optimize.Waiters.{resume_waiters_for_capability}
use colony_agents.SelfTune.{
  Tuned, Measured, quality_gate_pass_rate, Version, Proposal, Shop, Refusal, not_confirmed,
  no_such_proposal, not_pending, expired, over_quota, no_such_agent, no_such_version, day,
  apply_quota, rows_of, set_rows, max_version, version_row, current_protocol_version, seeded,
  prune_history,
}

pub data Applied : Type 0 where
  refused : Refusal → Applied
  applied : (new_version : ℕ) → Applied

pub data Reverted : Type 0 where
  not_reverted : Refusal → Reverted
  reverted : (to_version new_version : ℕ) → Reverted

-- The history's rows of the tools, since a moment.
unfoldable pub recent_tunes : ℕ → List Version → ℕ
recent_tunes since [] = 0
recent_tunes since (r ∷ rows) =
    let n = recent_tunes since rows in
    if str_eq r.applied_by_kind "supervisor_self_tune" && leb since r.applied_at then suc n else n

abbrev pub applied_row : ℕ → Proposal → (version now : ℕ) → Option Text → Measured → Version
applied_row id p version now caller baseline = record {
  id = id;
  version = version;
  soul_md = p.proposed_soul_md;
  protocol_md = some p.proposed_protocol_md;
  applied_at = now;
  applied_by_kind = "supervisor_self_tune";
  rollback_of_version = none;
  applied_by_ref = or_else caller (codes "unknown");
  trigger_summary = p.trigger_summary;
  metrics_baseline = some baseline;
}

-- if new: column = new
abbrev pub replaced : Text → Text → Text
replaced new column = if is_nil new then column else new

abbrev pub tuned : Proposal → Tuned → Tuned
tuned p t = record t {
  soul_md = replaced (or_else p.proposed_soul_md []) t.soul_md;
  protocol_md = replaced p.proposed_protocol_md t.protocol_md;
}

abbrev wake_for : Option Text → World → World
wake_for none w = w
wake_for (some capability) w = (resume_waiters_for_capability capability w).1

abbrev applied_proposal : Proposal → (version now : ℕ) → Proposal
applied_proposal p version now = record p {
  status = "applied";
  applied_at = some now;
  applied_history_version = some version;
}

-- The rows of a history with the next version of an agent.
abbrev pub rows_after :
    (seed_id id : ℕ) → Proposal → Tuned → ℕ → Option Text → Measured → List Version → List Version
rows_after seed_id id p t now caller baseline rows =
    let old = seeded seed_id t now rows in
    prune_history (old ++ (applied_row id p (suc (max_version old)) now caller baseline ∷ []))

abbrev pub apply_row : (seed_id id pid : ℕ) → Proposal → Option Tuned → Shop → Applied × Shop
apply_row seed_id id pid p none s = (refused no_such_agent, s)
apply_row seed_id id pid p (some t) s =
    let now = s.world.clock in
    let rows = rows_of p.agent_id s in
    let version = suc (max_version (seeded seed_id t now rows)) in
    (
      applied version,
      record (set_rows p.agent_id
          (rows_after seed_id id p t now s.mission_id (quality_gate_pass_rate s.verdicts) rows) s) {
            world = wake_for t.capability s.world;
            agents = put p.agent_id (tuned p t) s.agents;
            proposals = put pid (applied_proposal p version now) s.proposals;
          },
    )

abbrev pub apply_proposal : (seed_id id pid : ℕ) → Option Proposal → Shop → Applied × Shop
apply_proposal seed_id id pid none s = (refused no_such_proposal, s)
apply_proposal seed_id id pid (some p) s =
    let now = s.world.clock in
    if str_eq p.status "pending"
    then if ltb p.expires_at now
      then (
        refused expired,
        record s { proposals = put pid (record p { status = "expired" }) s.proposals },
      )
      else if leb apply_quota (recent_tunes (now - day) (rows_of p.agent_id s))
      then (refused over_quota, s)
      else apply_row seed_id id pid p (get p.agent_id s.agents) s
    else (refused not_pending, s)

-- The ids of the new rows of the history are given.
unfoldable pub agent_protocol_apply :
    (seed_id id pid : ℕ) (confirmed : Bool) → Shop → Applied × Shop
unfolding recent_tunes
agent_protocol_apply seed_id id pid confirmed s =
    if confirmed
    then apply_proposal seed_id id pid (get pid s.proposals) s
    else (refused not_confirmed, s)

abbrev pub reverted_row : ℕ → Version → (version target now : ℕ) → Option Text → Version
reverted_row id base version target now caller = record base {
  id = id;
  version = version;
  applied_at = now;
  applied_by_kind = "supervisor_self_tune";
  rollback_of_version = some target;
  applied_by_ref = or_else caller (codes "auto-revert");
  trigger_summary = codes "auto-revert to version " ++ str target;
  metrics_baseline = none;
}

abbrev pub restored : Version → Tuned → Tuned
restored base t = record t {
  soul_md = or_else base.soul_md t.soul_md;
  protocol_md = or_else base.protocol_md t.protocol_md;
}

abbrev pub revert_row : (id aid target : ℕ) → Tuned → Option Version → Shop → Reverted × Shop
revert_row id aid target t none s = (not_reverted no_such_version, s)
revert_row id aid target t (some base) s =
    let version = suc (current_protocol_version aid s) in
    let row = reverted_row id base version target s.world.clock s.mission_id in
    (
      reverted target version,
      record (set_rows aid (prune_history (rows_of aid s ++ (row ∷ []))) s) {
        agents = put aid (restored base t) s.agents;
      },
    )

abbrev pub revert_agent : (id aid : ℕ) → Option ℕ → Option Tuned → Shop → Reverted × Shop
revert_agent id aid to_version none s = (not_reverted no_such_agent, s)
revert_agent id aid to_version (some t) s =
    let target = or_else to_version (current_protocol_version aid s - 1) in
    revert_row id aid target t (version_row target (rows_of aid s)) s

-- A version below 0 is no number here.
unfoldable pub agent_protocol_revert : (id aid : ℕ) → Option ℕ → Shop → Reverted × Shop
unfolding current_protocol_version
agent_protocol_revert id aid to_version s = revert_agent id aid to_version (get aid s.agents) s
