-- ===== src/SelfTune/Quota.antt =====
-- The daily quota of `agent_protocol_apply`, of backend/app/skills_builtin/builder/self_tune_skills.py,
-- counts what `agent_protocol_revert` writes.
use colony_agents.Prelude.{
  Text, Option, ℕ, suc, ◌+◌, ◌-◌, true, false, some, or_else, List, [], ◌∷◌, ◌++◌, length,
  length-append, ltb, leb, str_eq, ◌≡◌, ◌≤◌, refl, arith, ap, subst, ◌∙◌,
}
use colony_agents.Prelude.Table.{get, get-put_self}
use colony_agents.SelfTune.{
  Tuned, Version, Proposal, Shop, over_quota, day, apply_quota, rows_of, max_version, version_row,
  current_protocol_version, prune_history,
}
use colony_agents.SelfTune.Apply.{
  Applied, Reverted, refused, applied, reverted, recent_tunes, reverted_row, apply_proposal,
  agent_protocol_apply, agent_protocol_revert, revert_agent, revert_row,
}
use colony_agents.SelfTune.History.{short-prune_history}
use colony_agents.SelfTune.Reverts.{IsApplicable, history_of, apply_runs}

recent_tunes-append :
    (since : ℕ) (xs ys : List Version)
    → recent_tunes since (xs ++ ys) ≡ recent_tunes since xs + recent_tunes since ys
unfolding recent_tunes
recent_tunes-append since [] ys = omega arith
recent_tunes-append since (r ∷ xs) ys = ground (arith, recent_tunes-append since xs ys)

recent_tunes-now :
    (id version target now : ℕ) (base : Version) (caller : Option Text)
    → recent_tunes (now - day) (reverted_row id base version target now caller ∷ []) ≡ 1
unfolding recent_tunes
recent_tunes-now id version target now base caller =
    let recent : leb (now - day) now ≡ true = ground arith in rw recent refl

apply_over_quota :
    (seed_id id pid : ℕ) (p : Proposal) (s : Shop)
    → get pid s.proposals ≡ some p
    → p.status ≡ "pending"
    → s.world.clock ≤ p.expires_at
    → apply_quota ≤ recent_tunes (s.world.clock - day) (rows_of p.agent_id s)
    → (agent_protocol_apply seed_id id pid true s).0 ≡ refused over_quota
unfolding agent_protocol_apply
apply_over_quota seed_id id pid p s stored pending fresh quota =
    let live : str_eq p.status "pending" ≡ true = ap (λ x. str_eq x "pending") pending in
    let open_still : ltb p.expires_at s.world.clock ≡ false = ground (arith, fresh) in
    let full : leb apply_quota (recent_tunes (s.world.clock - day) (rows_of p.agent_id s)) ≡ true =
      ground (arith, quota) in
    ap (λ q. (apply_proposal seed_id id pid q s).0) stored ∙ rw (live, open_still, full) refl

module _ (seed_id id id' pid target : ℕ) (p : Proposal) (t : Tuned) (b : Version) (s : Shop)
    (h : IsApplicable pid p t s) (base : version_row target (rows_of p.agent_id s) ≡ some b)
    (short : length (rows_of p.agent_id s) ≤ 19) where
  abbrev back : Reverted × Shop
  back = agent_protocol_revert id p.agent_id (some target) s

  abbrev row : Version
  row =
      reverted_row id b (suc (current_protocol_version p.agent_id s)) target s.world.clock
        s.mission_id

  back_runs : back ≡ revert_row id p.agent_id target t (some b) s
  unfolding agent_protocol_revert IsApplicable
  back_runs =
      ap (λ q. revert_agent id p.agent_id (some target) q s) h.1
      ∙ ap (λ q. revert_row id p.agent_id target t q s) base

  rows_after_revert : rows_of p.agent_id back.1 ≡ rows_of p.agent_id s ++ (row ∷ [])
  rows_after_revert =
      let rows = rows_of p.agent_id s in
      let counted = length-append rows (row ∷ []) in
      ap (λ (r : Reverted × Shop). rows_of p.agent_id r.1) back_runs
      ∙ (ap (λ q. or_else q [])
            (get-put_self p.agent_id (prune_history (rows ++ (row ∷ []))) s.history)
          ∙ short-prune_history (rows ++ (row ∷ [])) (omega arith))

  recent_after_revert :
      recent_tunes (s.world.clock - day) (rows_of p.agent_id back.1)
      ≡ recent_tunes (s.world.clock - day) (rows_of p.agent_id s) + 1
  recent_after_revert =
      let since = s.world.clock - day in
      ap (recent_tunes since) rows_after_revert
      ∙ (recent_tunes-append since (rows_of p.agent_id s) (row ∷ [])
          ∙ ap (λ n. recent_tunes since (rows_of p.agent_id s) + n)
              (recent_tunes-now id (suc (current_protocol_version p.agent_id s)) target
                s.world.clock b s.mission_id))

  -- With two versions applied in the last day and a short history, a proposal that `agent_protocol_apply`
  -- would apply is refused for the quota once `agent_protocol_revert` went back to a version there is.
  pub revert_spends_quota :
      recent_tunes (s.world.clock - day) (rows_of p.agent_id s) ≡ 2
      → ((agent_protocol_apply seed_id id' pid true s).0
          ≡ applied (suc (max_version (history_of seed_id p.agent_id t s))))
        × (back.0 ≡ reverted target (suc (current_protocol_version p.agent_id s)))
        × ((agent_protocol_apply seed_id id' pid true back.1).0 ≡ refused over_quota)
  unfolding IsApplicable
  revert_spends_quota two =
      let (stored, agent, pending, fresh, room) = h in
      let went : Reverted × Shop = revert_row id p.agent_id target t (some b) s in
      let full : apply_quota ≤ recent_tunes (s.world.clock - day) (rows_of p.agent_id went.1) =
        subst
          (λ (r : Reverted × Shop).
            apply_quota ≤ recent_tunes (s.world.clock - day) (rows_of p.agent_id r.1))
          back_runs (omega (arith, recent_after_revert, two)) in
      (
        ap (λ (r : Applied × Shop). r.0) (apply_runs seed_id id' pid p t s h),
        ap (λ (r : Reverted × Shop). r.0) back_runs,
        ap (λ (r : Reverted × Shop). (agent_protocol_apply seed_id id' pid true r.1).0) back_runs
            ∙ apply_over_quota seed_id id' pid p went.1 stored pending fresh full,
      )
