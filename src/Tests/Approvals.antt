-- ===== src/Tests/Approvals.antt =====
-- Cards and answers on the sample world.
use colony_agents.Prelude.{
  codes, true, none, some, [], ◌∷◌, ◌≡◌, refl, arith, inl, eq_iff, or_else, find,
}
use colony_agents.Prelude.Table.{get}
use colony_agents.World.{World, trigger_tick, lifecycle}
use colony_agents.Approval.Cards.{Request, create_pending, is_open_card}
use colony_agents.Approval.Answer.{decide, get_by_request_id}
use colony_agents.Approval.Serial.{IsSerial, create_pending-IsSerial}
use colony_agents.Approval.Pause.{create_pending_pauses}
use colony_agents.Approval.Decide.{decide_once, decide_resumes, response_row}
use colony_agents.Approval.Auto.{
  pick_auto_option, pick_auto_option_lem, is_clear, best_of, score, is_affirm, is_negative,
}
use colony_agents.Tests.Samples.{mission, sample, main_card, worker_card, outside, caller, request}

cards_IsSerial : IsSerial sample.approvals
cards_IsSerial pid none = ground arith
cards_IsSerial pid (some t) =
    ground (arith, eq_iff "main" t, eq_iff "worker" t, eq_iff "main" "worker")

create_pending-IsSerial_example :
    IsSerial (create_pending outside caller request sample).1.approvals
create_pending-IsSerial_example =
    create_pending-IsSerial outside caller (λ v h. h) request sample cards_IsSerial

create_pending_pauses_example :
    (lifecycle 1 (create_pending outside caller request sample).1 ≡ "paused_clarification")
    × (is_open_card 1 (some "main") (create_pending outside caller request sample).0 ≡ true)
unfolding get
create_pending_pauses_example = create_pending_pauses outside caller request (λ v. refl) sample refl

decide_once_example :
    decide outside "a1"
      (codes "no")
      (codes "bob")
      (decide outside "a1" (codes "yes") (codes "ann") sample).1
    ≡ decide outside "a1" (codes "yes") (codes "ann") sample
decide_once_example =
    decide_once outside "a1" (codes "yes") (codes "ann") (codes "no") (codes "bob") sample

main_card_found : get_by_request_id "a1" sample ≡ some main_card
unfolding get_by_request_id
main_card_found = refl

worker_card_found : get_by_request_id "a2" sample ≡ some worker_card
unfolding get_by_request_id
worker_card_found = refl

decide_resumes_example :
    let w' = (decide outside "a1" (codes "yes") (codes "ann") sample).1 in
    (lifecycle 2 w' ≡ "running")
    × (w'.spawned ≡ trigger_tick 2 ∷ [])
    × (w'.messages ≡ response_row main_card (codes "yes") (codes "ann") ∷ [])
unfolding get
decide_resumes_example =
    decide_resumes outside "a1" (codes "yes") (codes "ann") sample main_card main_card_found refl
      (inl refl)

pick_auto_option_lem_example :
    pick_auto_option (codes "cancel" ∷ codes "wait" ∷ codes "approve" ∷ [])
    ≡ or_else
        (find is_clear (codes "cancel" ∷ codes "wait" ∷ codes "approve" ∷ []))
        (codes "cancel")
pick_auto_option_lem_example =
    pick_auto_option_lem (codes "cancel") (codes "wait" ∷ codes "approve" ∷ [])

-- The option that is picked there.
picks_approve :
    pick_auto_option (codes "cancel" ∷ codes "wait" ∷ codes "approve" ∷ []) ≡ codes "approve"
unfolding pick_auto_option best_of score is_affirm is_negative
picks_approve = refl

-- The sample world with an idle mission, and a card that it asks for.
abbrev with_idle : World
with_idle = record sample { missions = (4, mission "paused_idle" "running") ∷ sample.missions }

abbrev idle_request : Request
idle_request = record request { mission_id = 4 }
