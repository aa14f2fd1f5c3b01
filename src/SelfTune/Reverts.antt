-- ===== src/SelfTune/Reverts.antt =====
-- `agent_protocol_apply` followed by `agent_protocol_revert` with no version named, of
-- backend/app/skills_builtin/builder/self_tune_skills.py.
use colony_agents.Prelude.{
  ℕ, suc, ◌-◌, Text, true, false, none, some, List, [], ◌∷◌, ◌++◌, length, length-append, is_nil,
  or_else, ltb, leb, if◌then◌else◌, str_eq, ◌≡◌, ◌≤◌, ◌<◌, arith, ap, ◌∙◌,
}
use colony_agents.Prelude.Table.{get, get-put_self}
use colony_agents.SelfTune.{
  quality_gate_pass_rate, Tuned, Version, Proposal, Shop, soul_of, day, apply_quota, rows_of,
  max_version, version_row, current_protocol_version, seeded, prune_history,
}
use colony_agents.SelfTune.Apply.{
  Applied, Reverted, applied, reverted, recent_tunes, applied_row, replaced, tuned, restored,
  apply_proposal, apply_row, agent_protocol_apply, agent_protocol_revert, revert_agent, revert_row,
}
use colony_agents.SelfTune.History.{max_version-append, version_row-append, short-prune_history}

-- What `agent_protocol_apply` asks of a confirmed proposal.
unfoldable pub IsApplicable : ℕ → Proposal → Tuned → Shop → Type 0
IsApplicable pid p t s =
    (get pid s.proposals ≡ some p)
    × (get p.agent_id s.agents ≡ some t)
    × (p.status ≡ "pending")
    × (s.world.clock ≤ p.expires_at)
    × (recent_tunes (s.world.clock - day) (rows_of p.agent_id s) < apply_quota)

-- The agent's history once its factory version is there.
abbrev pub history_of : (seed_id aid : ℕ) → Tuned → Shop → List Version
history_of seed_id aid t s = seeded seed_id t s.world.clock (rows_of aid s)

module _ (seed_id id pid : ℕ) (p : Proposal) (t : Tuned) (s : Shop)
    (h : IsApplicable pid p t s) where
  pub apply_runs :
      agent_protocol_apply seed_id id pid true s ≡ apply_row seed_id id pid p (some t) s
  unfolding agent_protocol_apply IsApplicable
  apply_runs =
      let (row, agent, pending, fresh, room) = h in
      let live : str_eq p.status "pending" ≡ true = ap (λ x. str_eq x "pending") pending in
      let open_still : ltb p.expires_at s.world.clock ≡ false = ground (arith, fresh) in
      let under : leb apply_quota (recent_tunes (s.world.clock - day) (rows_of p.agent_id s))
          ≡ false =
        ground (arith, room) in
      ap (λ q. apply_proposal seed_id id pid q s) row
      ∙ rw (live, open_still, under) (ap (λ q. apply_row seed_id id pid p q s) agent)

revert_runs :
    (id aid target : ℕ) (t : Tuned) (b : Version) (s : Shop)
    → get aid s.agents ≡ some t
    → max_version (rows_of aid s) - 1 ≡ target
    → version_row target (rows_of aid s) ≡ some b
    → agent_protocol_revert id aid none s ≡ revert_row id aid target t (some b) s
unfolding agent_protocol_revert current_protocol_version
revert_runs id aid target t b s agent at base =
    ap (λ q. revert_agent id aid none q s) agent
    ∙ (ap (λ v. revert_row id aid v t (version_row v (rows_of aid s)) s) at
        ∙ ap (λ q. revert_row id aid target t q s) base)

-- Apply a proposal, then take it back: the agent gets the columns of the version before.
module _ (seed_id id id' pid : ℕ) (p : Proposal) (t : Tuned) (b : Version) (s : Shop)
    (h : IsApplicable pid p t s) (short : length (history_of seed_id p.agent_id t s) ≤ 18)
    (newest : version_row
        (max_version (history_of seed_id p.agent_id t s))
        (history_of seed_id p.agent_id t s)
      ≡ some b) where
  abbrev after : Shop
  after = (agent_protocol_apply seed_id id pid true s).1

  abbrev last : ℕ
  last = max_version (history_of seed_id p.agent_id t s)

  abbrev new_row : Version
  new_row =
      applied_row id p (suc last) s.world.clock s.mission_id (quality_gate_pass_rate s.verdicts)

  rows_after_apply : rows_of p.agent_id after ≡ history_of seed_id p.agent_id t s ++ (new_row ∷ [])
  rows_after_apply =
      let old = history_of seed_id p.agent_id t s in
      let counted = length-append old (new_row ∷ []) in
      ap (λ (r : Applied × Shop). rows_of p.agent_id r.1) (apply_runs seed_id id pid p t s h)
      ∙ (ap (λ q. or_else q [])
            (get-put_self p.agent_id (prune_history (old ++ (new_row ∷ []))) s.history)
          ∙ short-prune_history (old ++ (new_row ∷ [])) (omega arith))

  agent_after_apply : get p.agent_id after.agents ≡ some (tuned p t)
  agent_after_apply =
      ap (λ (r : Applied × Shop). get p.agent_id r.1.agents) (apply_runs seed_id id pid p t s h)
      ∙ get-put_self p.agent_id (tuned p t) s.agents

  version_after_apply : max_version (rows_of p.agent_id after) ≡ suc last
  version_after_apply =
      let old = history_of seed_id p.agent_id t s in
      ap max_version rows_after_apply ∙ (max_version-append old (new_row ∷ []) ∙ omega arith)

  revert_after_apply :
      agent_protocol_revert id' p.agent_id none after
      ≡ revert_row id' p.agent_id last (tuned p t) (some b) after
  revert_after_apply =
      let old = history_of seed_id p.agent_id t s in
      let base : version_row last (rows_of p.agent_id after) ≡ some b =
        ap (version_row last) rows_after_apply
        ∙ version_row-append last b old (new_row ∷ []) newest in
      revert_runs id' p.agent_id last (tuned p t) b after agent_after_apply
        (ap (λ v. v - 1) version_after_apply ∙ omega arith) base

  revert_succeeds :
      (agent_protocol_revert id' p.agent_id none after).0 ≡ reverted last (suc (suc last))
  unfolding current_protocol_version
  revert_succeeds =
      ap (λ (r : Reverted × Shop). r.0) revert_after_apply
      ∙ ap (λ v. reverted last (suc v)) version_after_apply

  agent_after_revert :
      get p.agent_id (agent_protocol_revert id' p.agent_id none after).1.agents
      ≡ some (restored b (tuned p t))
  agent_after_revert =
      ap (λ (r : Reverted × Shop). get p.agent_id r.1.agents) revert_after_apply
      ∙ get-put_self p.agent_id (restored b (tuned p t)) after.agents

  -- Where the history is short and its newest row has the agent's columns, as it has when the history
  -- is empty, a proposal that is applied and then taken back leaves the agent as it was: both tools
  -- succeed, and the two versions are numbered on.
  pub revert_restores :
      b.soul_md ≡ some t.soul_md
      → b.protocol_md ≡ some t.protocol_md
      → ((agent_protocol_apply seed_id id pid true s).0 ≡ applied (suc last))
        × ((agent_protocol_revert id' p.agent_id none after).0 ≡ reverted last (suc (suc last)))
        × (get p.agent_id (agent_protocol_revert id' p.agent_id none after).1.agents ≡ some t)
  revert_restores soul protocol =
      let same : restored b (tuned p t) ≡ t =
        ap
          (λ x. record t {
            soul_md = or_else x (tuned p t).soul_md;
            protocol_md = or_else b.protocol_md (tuned p t).protocol_md;
          })
          soul
        ∙ ap (λ x. record t { protocol_md = or_else x (tuned p t).protocol_md }) protocol in
      (
        ap (λ (r : Applied × Shop). r.0) (apply_runs seed_id id pid p t s h),
        revert_succeeds,
        agent_after_revert ∙ ap (λ x. some x) same,
      )

  -- Where the newest row has no soul, as the row of a proposal without one has none, a proposal with a
  -- soul that is applied and then taken back leaves its soul with the agent.
  pub soul_survives_revert :
      (soul : Text)
      → b.soul_md ≡ none
      → p.proposed_soul_md ≡ some soul
      → is_nil soul ≡ false
      → ((agent_protocol_revert id' p.agent_id none after).0 ≡ reverted last (suc (suc last)))
        × (soul_of (get p.agent_id (agent_protocol_revert id' p.agent_id none after).1.agents)
            ≡ some soul)
  soul_survives_revert soul none_kept given long = (
    revert_succeeds,
    ap soul_of agent_after_revert
        ∙ (ap (λ x. some (or_else x (tuned p t).soul_md)) none_kept
            ∙ (ap (λ x. some (replaced (or_else x []) t.soul_md)) given
                ∙ ap (λ e. some (if e then t.soul_md else soul)) long)),
  )
