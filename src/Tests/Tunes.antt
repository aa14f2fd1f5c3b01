-- ===== src/Tests/Tunes.antt =====
-- Protocols that are tuned: worker 5 with a proposal, and its history.
use colony_agents.Prelude.{
  ℕ, zero, suc, codes, true, none, some, List, [], ◌∷◌, ◌≡◌, refl, arith, select, length,
}
use colony_agents.Prelude.Table.{get, member}
use colony_agents.SelfTune.{
  Measured, Tuned, Version, Proposal, Proposing, Shop, over_quota, seeded, soul_of, max_version,
  is_protected, prune_history, kept_ids, current_protocol_version, agent_protocol_propose,
  superseded_by_existing,
}
use colony_agents.SelfTune.Apply.{
  applied, reverted, refused, recent_tunes, applied_row, agent_protocol_apply,
  agent_protocol_revert,
}
use colony_agents.SelfTune.History.{prune_history-protected}
use colony_agents.SelfTune.Reverts.{IsApplicable, revert_restores, soul_survives_revert}
use colony_agents.SelfTune.Quota.{revert_spends_quota}
use colony_agents.SelfTune.Versions.{IsNumbered, IsDistinct, tools-IsNumbered}
use colony_agents.Tests.Samples.{sample}

abbrev worker : Tuned
worker = record { soul_md = codes "calm"; protocol_md = codes "fetch"; capability = none }

abbrev proposal : Proposal
proposal = record {
  agent_id = 5;
  proposed_soul_md = some (codes "bold");
  proposed_protocol_md = codes "fetch twice";
  diff_summary = codes "retry";
  trigger_summary = codes "blocked";
  expected_improvement = codes "passes";
  status = "pending";
  expires_at = 2000;
  applied_at = none;
  applied_history_version = none;
}

abbrev untuned : Shop
untuned = record {
  world = sample;
  agents = (5, worker) ∷ [];
  history = [];
  proposals = (9, proposal) ∷ [];
  mission_id = none;
  verdicts = "pass" ∷ "block" ∷ [];
}

abbrev factory : Version
factory = record {
  id = 70;
  version = 0;
  soul_md = some (codes "calm");
  protocol_md = some (codes "fetch");
  applied_at = 10;
  applied_by_kind = "factory_initial";
  rollback_of_version = none;
  applied_by_ref = codes "auto-seed";
  trigger_summary = codes "auto-seed on first propose/apply";
  metrics_baseline = none;
}

abbrev measured : Measured
measured = record { samples = 2; passes = 1; warns = 0; blocks = 1 }

abbrev pub soulless : Version
soulless = applied_row 71 (record proposal { proposed_soul_md = none }) 1 900 none measured

abbrev second : Version
second = applied_row 72 proposal 2 950 none measured

abbrev with_history : List Version → Shop
with_history rows = record untuned { history = (5, rows) ∷ [] }

abbrev pub tuned_once : Shop
tuned_once = with_history (factory ∷ soulless ∷ [])

abbrev tuned_twice : Shop
tuned_twice = with_history (factory ∷ soulless ∷ second ∷ [])

untuned-IsApplicable : IsApplicable 9 proposal worker untuned
unfolding IsApplicable recent_tunes get
untuned-IsApplicable = (refl, refl, refl, omega arith, omega arith)

tuned_once-IsApplicable : IsApplicable 9 proposal worker tuned_once
unfolding IsApplicable recent_tunes get
tuned_once-IsApplicable = (refl, refl, refl, omega arith, omega arith)

tuned_twice-IsApplicable : IsApplicable 9 proposal worker tuned_twice
unfolding IsApplicable recent_tunes get
tuned_twice-IsApplicable = (refl, refl, refl, omega arith, omega arith)

revert_restores_example :
    ((agent_protocol_apply 1 2 9 true untuned).0 ≡ applied 1)
    × ((agent_protocol_revert 3 5 none (agent_protocol_apply 1 2 9 true untuned).1).0
        ≡ reverted 0 2)
    × (get 5 (agent_protocol_revert 3 5 none (agent_protocol_apply 1 2 9 true untuned).1).1.agents
        ≡ some worker)
unfolding seeded get
revert_restores_example =
    revert_restores 1 2 3 9 proposal worker (record factory { id = 1; applied_at = 1000 }) untuned
      untuned-IsApplicable (omega arith) refl refl refl

soul_survives_revert_example :
    ((agent_protocol_revert 3 5 none (agent_protocol_apply 1 2 9 true tuned_once).1).0
      ≡ reverted 1 3)
    × (soul_of (
          get 5
            (agent_protocol_revert 3 5 none
              (agent_protocol_apply 1 2 9 true tuned_once).1).1.agents)
        ≡ some (codes "bold"))
unfolding seeded get
soul_survives_revert_example =
    soul_survives_revert 1 2 3 9 proposal worker soulless tuned_once tuned_once-IsApplicable
      (omega arith) refl (codes "bold") refl refl refl

revert_spends_quota_example :
    ((agent_protocol_apply 1 3 9 true tuned_twice).0 ≡ applied 3)
    × ((agent_protocol_revert 2 5 (some 1) tuned_twice).0 ≡ reverted 1 3)
    × ((agent_protocol_apply 1 3 9 true (agent_protocol_revert 2 5 (some 1) tuned_twice).1).0
        ≡ refused over_quota)
unfolding seeded get recent_tunes current_protocol_version
revert_spends_quota_example =
    revert_spends_quota 1 2 3 9 1 proposal worker soulless tuned_twice tuned_twice-IsApplicable refl
      (omega arith) refl

-- The factory's row and n tuned ones, the newest first.
abbrev rows_of_tunes : ℕ → List Version
rows_of_tunes zero = factory ∷ []
rows_of_tunes (suc n) = applied_row (suc n) proposal (suc n) 900 none measured ∷ rows_of_tunes n

prune_runs : length (prune_history (rows_of_tunes 25)) ≡ 21
unfolding prune_history kept_ids member
prune_runs = refl

prune_history-protected_example :
    (select is_protected (prune_history (rows_of_tunes 25))
      ≡ select is_protected (rows_of_tunes 25))
    × (max_version (prune_history (rows_of_tunes 25)) ≡ max_version (rows_of_tunes 25))
prune_history-protected_example = prune_history-protected (rows_of_tunes 25)

untuned-IsNumbered : IsNumbered untuned
unfolding IsNumbered IsDistinct get
untuned-IsNumbered = λ aid. tt

abbrev proposing : Proposing
proposing = record {
  agent_id = 5;
  new_soul_md = [];
  new_protocol_md = codes "fetch once";
  diff_summary = [];
  trigger_summary = [];
  expected_improvement = [];
}

-- A proposal waits already.
propose_runs : (agent_protocol_propose none 1 2 proposing untuned).0 ≡ superseded_by_existing
unfolding agent_protocol_propose get
propose_runs = refl

tools-IsNumbered_example :
    IsNumbered (agent_protocol_propose none 2 1 proposing untuned).1
    × IsNumbered (agent_protocol_apply 1 2 9 true untuned).1
    × IsNumbered (agent_protocol_revert 2 5 none untuned).1
tools-IsNumbered_example =
    tools-IsNumbered untuned untuned-IsNumbered 1 2 9 5 none none proposing true
