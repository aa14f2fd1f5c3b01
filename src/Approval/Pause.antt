-- ===== src/Approval/Pause.antt =====
-- A card and the pause of its mission (backend/app/services/pending_approval_service.py).
use colony_agents.Prelude.{
  ℕ, Text, codes, true, Option, none, some, List, [], ◌∷◌, ◌≡◌, refl, ap, arith, find, find_holds,
  ==_iff, Option-cases, Bool-cases, inl, inr, eq_iff, ◌≢◌, ◌∙◌,
}
use colony_agents.Prelude.Table.{get, get-put_self}
use colony_agents.World.{World, Mission, PendingApproval}
use colony_agents.Mission.Lifecycle.{
  Lifecycle, LifecycleAction, value, running, paused_clarification, pause_for_clarification,
  transition, Outcome, from_value, from_value-value,
}
use colony_agents.Mission.Service.{write, updated, current_of}
use colony_agents.Mission.Service.Writes.{apply_moved}
use colony_agents.Ticks.{signal}
use colony_agents.Wechat.Outbox.{Failed}
use colony_agents.Approval.Serial.{thread_eq_iff}
use colony_agents.Ticks.Cancel.{cancel_keeps}
use colony_agents.Approval.Cards.{
  Outside, Caller, Request, lifecycle, is_open_card, pause_for_pending, create_pending, open_card,
  insert_card, dispatch_to_wechat, dispatch_to, resend_later, get_channel, new_card,
}

value-ne-empty : (l : Lifecycle) → "" ≢ value l
unfolding from_value
value-ne-empty l h = cc (from_value-value l, ap from_value h)

-- A mission whose column is not empty has a row.
pub lifecycle_row :
    (pid : ℕ) (w : World) (l : Lifecycle)
    → lifecycle pid w ≡ value l
    → (m : Mission) × (get pid w.missions ≡ some m) × (m.lifecycle_status ≡ value l)
lifecycle_row pid w l h = elim (Option-cases (get pid w.missions)) [
  | inl e ↦ absurd (value-ne-empty l (rw e at h))
  | inr (m, e) ↦ (m, e, rw e at h)
]

pub current_of-value :
    (m : Mission) (l : Lifecycle) → m.lifecycle_status ≡ value l → current_of m ≡ l
unfolding current_of
current_of-value m l h = rw (h, from_value-value l)

pub lifecycle-write :
    (pid : ℕ) (m : Mission) (a : LifecycleAction) (r : Option Text) (target : Lifecycle) (w : World)
    → lifecycle pid (write pid m a r target w) ≡ value target
unfolding write updated
lifecycle-write pid m a r target w = rw get-put_self

module _ (pid : ℕ) (c : Caller)
    (keeps : (v : World) → lifecycle pid (c.wait.others v) ≡ lifecycle pid v) where
  pub paused :
      (w : World)
      → lifecycle pid w ≡ "running"
      → lifecycle pid (pause_for_pending pid c w) ≡ "paused_clarification"
  unfolding pause_for_pending transition
  paused w h =
      let (m, stored, is_run) = lifecycle_row pid w running h in
      let pause : transition (current_of m) pause_for_clarification
          ≡ Outcome.moved paused_clarification =
        rw (current_of-value m running is_run) refl in
      rw
        (
          (eq_iff (lifecycle pid w) "running").1 h,
          apply_moved pid pause_for_clarification (some (codes "pending_approval")) w m
              paused_clarification stored pause,
        )
        (cancel_keeps (λ v. lifecycle pid v ≡ "paused_clarification") pid c.task c.wait
          (λ v e. unfold signal in e) (λ v e. keeps v ∙ e) _
          (lifecycle-write pid m pause_for_clarification _ paused_clarification w))

missions-resend :
    (aid pid : ℕ) (bad : List Failed) (body : Text) (w : World)
    → (resend_later aid pid bad body w).missions ≡ w.missions
unfolding resend_later
missions-resend aid pid bad body w = ground arith

pub missions-dispatch :
    (o : Outside) (row : PendingApproval) (w : World)
    → (dispatch_to_wechat o row w).missions ≡ w.missions
unfolding dispatch_to_wechat dispatch_to
missions-dispatch o row w = go (get_channel row.mission_id w) refl
  where
    go :
        (to : Option (ℕ × List Text))
        → get_channel row.mission_id w ≡ to
        → (dispatch_to_wechat o row w).missions ≡ w.missions
    go none e = rw (e, dispatch_to_wechat)
    go (some (aid, [])) e = rw (e, dispatch_to_wechat)
    go (some (aid, uid ∷ uids)) e = rw (e, dispatch_to_wechat, missions-resend)

module _ (o : Outside) (c : Caller) (r : Request)
    (keeps : (v : World)
      → lifecycle r.mission_id (c.wait.others v) ≡ lifecycle r.mission_id v) where
  open_card_pauses :
      (row : PendingApproval) (w : World)
      → lifecycle r.mission_id w ≡ "running"
      → row.mission_id ≡ r.mission_id
      → lifecycle r.mission_id (open_card o c r row w) ≡ "paused_clarification"
  unfolding open_card
  open_card_pauses row w h own =
      let p = paused r.mission_id c keeps (insert_card row w) h in
      elim (Bool-cases r.dispatch_wechat) [ inl e ↦ rw (e, missions-dispatch) p | inr e ↦ rw e p ]

  -- `create_pending` on a running mission, by a caller whose wait for the cancelled tick does not
  -- see the mission's lifecycle change, leaves the mission in `paused_clarification`, whether the
  -- card is new or its thread had one, and returns an undecided card of that thread.
  pub create_pending_pauses :
      (w : World)
      → lifecycle r.mission_id w ≡ "running"
      → (lifecycle r.mission_id (create_pending o c r w).1 ≡ "paused_clarification")
        × (is_open_card r.mission_id r.thread_key (create_pending o c r w).0 ≡ true)
  unfolding create_pending new_card
  create_pending_pauses w h =
      elim (Option-cases (find (is_open_card r.mission_id r.thread_key) w.approvals)) [
        | inl e ↦
            rw (e, create_pending)
              (
                open_card_pauses _ w h refl,
                rw (
                  (==_iff r.mission_id r.mission_id).1 refl,
                  (thread_eq_iff r.thread_key r.thread_key).1 refl,
                ),
              )
        | inr (row, e) ↦
            rw (e, create_pending) (paused r.mission_id c keeps w h, find_holds _ w.approvals row e)
      ]
