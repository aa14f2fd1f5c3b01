-- ===== src/SelfTune.antt =====
-- backend/app/skills_builtin/builder/self_tune_skills.py: a super proposes a worker's new protocol,
-- applies it and takes it back, and every change leaves a row of its history. The history's rows are
-- those of each agent, in the order of insertion; an id that is no uuid, a missing database and the
-- texts of the answers are left out.
use colony_agents.Prelude.{
  ℕ, zero, suc, ◌+◌, ◌-◌, ◌*◌, max, String, Text, codes, Bool, true, false, not, ◌&&◌, ◌||◌, Option,
  none, some, is_some, List, [], ◌∷◌, ◌++◌, any, find, select, length, take, is_nil, strip, text_eq,
  str_eq, str, or_else, ltb, leb, ◌==◌, if◌then◌else◌,
}
use colony_agents.Prelude.Table.{Table, get, put, member}
use colony_agents.World.{World}
pub mod Apply
pub mod History
pub mod Reverts
pub mod Quota
pub mod Versions
pub mod Evaluate
pub mod Samples

-- The columns of an agent's row that are tuned.
pub record Tuned : Type 0 where
  pub soul_md : Text
  pub protocol_md : Text
  pub capability : Option Text

abbrev pub soul_of : Option Tuned → Option Text
soul_of none = none
soul_of (some t) = some t.soul_md

-- What `_quality_gate_pass_rate` returns: the pass rate is passes / samples, or 0.0 of no sample.
pub record Measured : Type 0 where
  pub samples : ℕ
  pub passes : ℕ
  pub warns : ℕ
  pub blocks : ℕ

abbrev count_of : String → List String → ℕ
count_of verdict verdicts = length (select (λ v. str_eq v verdict) verdicts)

-- `_quality_gate_pass_rate`, of the verdicts in the mission's workspace.
unfoldable pub quality_gate_pass_rate : List String → Measured
quality_gate_pass_rate verdicts = record {
  samples = length verdicts;
  passes = count_of "pass" verdicts;
  warns = count_of "warn" verdicts;
  blocks = count_of "block" verdicts;
}

-- A row of `agent_protocol_history`.
pub record Version : Type 0 where
  pub id : ℕ
  pub version : ℕ
  pub soul_md : Option Text
  pub protocol_md : Option Text
  pub applied_at : ℕ
  pub applied_by_kind : String
  pub applied_by_ref : Text
  pub trigger_summary : Text
  pub rollback_of_version : Option ℕ
  pub metrics_baseline : Option Measured

-- A row of `agent_protocol_proposals`.
pub record Proposal : Type 0 where
  pub agent_id : ℕ
  pub proposed_soul_md : Option Text
  pub proposed_protocol_md : Text
  pub diff_summary : Text
  pub trigger_summary : Text
  pub expected_improvement : Text
  pub status : String
  pub expires_at : ℕ
  pub applied_at : Option ℕ
  pub applied_history_version : Option ℕ

-- The tables; the id of the mission that calls the tools, as it is printed, and the verdicts in its
-- workspace.
pub record Shop : Type 0 where
  pub world : World
  pub agents : Table Tuned
  pub history : Table (List Version)
  pub proposals : Table Proposal
  pub mission_id : Option Text
  pub verdicts : List String

abbrev pub day : ℕ
day = 24 * 3600

abbrev pub retention : ℕ
retention = 20

abbrev pub apply_quota : ℕ
apply_quota = 3

abbrev pub rows_of : ℕ → Shop → List Version
rows_of aid s = or_else (get aid s.history) []

abbrev pub set_rows : ℕ → List Version → Shop → Shop
set_rows aid rows s = record s { history = put aid rows s.history }

abbrev pub max_version : List Version → ℕ
max_version [] = 0
max_version (r ∷ rows) = max r.version (max_version rows)

-- `_current_protocol_version`
unfoldable pub current_protocol_version : ℕ → Shop → ℕ
current_protocol_version aid s = max_version (rows_of aid s)

abbrev pub version_row : ℕ → List Version → Option Version
version_row v = find (λ (r : Version). r.version == v)

abbrev pub factory_row : ℕ → Tuned → ℕ → Version
factory_row id t now = record {
  id = id;
  version = 0;
  soul_md = some t.soul_md;
  protocol_md = some t.protocol_md;
  applied_at = now;
  applied_by_kind = "factory_initial";
  rollback_of_version = none;
  metrics_baseline = none;
  applied_by_ref = codes "auto-seed";
  trigger_summary = codes "auto-seed on first propose/apply";
}

-- `_ensure_factory_initial_seeded`, of an agent that is there; the new row's id is given.
unfoldable pub seeded : ℕ → Tuned → ℕ → List Version → List Version
seeded id t now rows =
    if ltb 0 (max_version rows) || is_some (version_row 0 rows)
    then rows
    else rows ++ (factory_row id t now ∷ [])

-- ORDER BY version DESC
abbrev pub insert_desc : Version → List Version → List Version
insert_desc r [] = r ∷ []
insert_desc r (q ∷ rows) =
    let later = q ∷ insert_desc r rows in if ltb q.version r.version then r ∷ q ∷ rows else later

abbrev pub sort_desc : List Version → List Version
sort_desc [] = []
sort_desc (r ∷ rows) = insert_desc r (sort_desc rows)

abbrev pub is_protected : Version → Bool
is_protected r = any (λ k. str_eq k r.applied_by_kind) ("factory_initial" ∷ "human_admin" ∷ [])

abbrev pub add_if : Bool → ℕ → List ℕ → List ℕ
add_if true id ids = id ∷ ids
add_if false id ids = ids

-- The ids that stay: of the newest ones, and of the protected ones behind them.
unfoldable pub kept_ids : ℕ → List Version → List ℕ
kept_ids room [] = []
kept_ids zero (r ∷ rows) = add_if (is_protected r) r.id (kept_ids zero rows)
kept_ids (suc room) (r ∷ rows) = r.id ∷ kept_ids room rows

-- `_prune_history`
unfoldable pub prune_history : List Version → List Version
prune_history rows =
    let kept = kept_ids retention (sort_desc rows) in
    if leb (length rows) retention then rows else select (λ (r : Version). member r.id kept) rows

-- What a tool raises.
pub data Refusal : Type 0 where
  own_protocol no_such_agent unchanged_protocol : Refusal
  not_confirmed no_such_proposal not_pending expired over_quota : Refusal
  no_such_version : Refusal

pub data Proposed : Type 0 where
  raised : Refusal → Proposed
  superseded_by_existing : Proposed
  pending : (proposal_id : ℕ) → Proposed

-- The proposal says what the agent has already.
unfoldable pub is_same : Tuned → (soul protocol : Text) → Bool
is_same t soul protocol =
    text_eq (strip protocol) (strip t.protocol_md)
    && (is_nil soul || text_eq (strip soul) (strip t.soul_md))

-- The unique index over the agent's pending proposals.
unfoldable pub has_pending : ℕ → Table Proposal → Bool
has_pending aid [] = false
has_pending aid ((pid, p) ∷ rest) =
    (p.agent_id == aid && str_eq p.status "pending") || has_pending aid rest

abbrev given : Text → Option Text
given [] = none
given (c ∷ t) = some (c ∷ t)

-- The arguments of the tool.
pub record Proposing : Type 0 where
  pub agent_id : ℕ
  pub new_soul_md : Text
  pub new_protocol_md : Text
  pub diff_summary : Text
  pub trigger_summary : Text
  pub expected_improvement : Text

abbrev new_proposal : Proposing → ℕ → Proposal
new_proposal p now = record {
  agent_id = p.agent_id;
  proposed_soul_md = given p.new_soul_md;
  proposed_protocol_md = p.new_protocol_md;
  diff_summary = take 2000 p.diff_summary;
  trigger_summary = take 512 p.trigger_summary;
  expected_improvement = take 1000 p.expected_improvement;
  status = "pending";
  expires_at = now + day;
  applied_at = none;
  applied_history_version = none;
}

abbrev pub propose_to : (fresh_id row_id : ℕ) → Proposing → Shop → Option Tuned → Proposed × Shop
propose_to fresh_id row_id p s none = (raised no_such_agent, s)
propose_to fresh_id row_id p s (some t) =
    let now = s.world.clock in
    let s1 = set_rows p.agent_id (seeded row_id t now (rows_of p.agent_id s)) s in
    if is_same t p.new_soul_md p.new_protocol_md
    then (raised unchanged_protocol, s1)
    else if has_pending p.agent_id s.proposals
    then (superseded_by_existing, s1)
    else (
      pending fresh_id,
      record s1 { proposals = s1.proposals ++ ((fresh_id, new_proposal p now) ∷ []) },
    )

-- `agent_protocol_propose`, by the agent `self`; the new rows' ids are given.
unfoldable pub agent_protocol_propose :
    (self : Option ℕ) (fresh_id row_id : ℕ) → Proposing → Shop → Proposed × Shop
unfolding seeded is_same has_pending
agent_protocol_propose self fresh_id row_id p s =
    if elim self [ none ↦ false | some a ↦ a == p.agent_id ]
    then (raised own_protocol, s)
    else propose_to fresh_id row_id p s (get p.agent_id s.agents)
