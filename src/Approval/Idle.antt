-- ===== src/Approval/Idle.antt =====
-- A card that a tick of an idle mission asks for (backend/app/services/pending_approval_service.py).
use colony_agents.Prelude.{
  ℕ, Text, true, Option, none, some, List, [], ◌∷◌, ◌≡◌, refl, arith, find, find_holds,
  Option-cases, Bool-cases, inl, inr, ==_iff,
}
use colony_agents.World.{World, PendingApproval, lifecycle}
use colony_agents.Wechat.Outbox.{Failed}
use colony_agents.Approval.Pause.{missions-dispatch}
use colony_agents.Approval.Serial.{thread_eq_iff}
use colony_agents.Approval.Cards.{
  Outside, Caller, Request, pause_for_pending, create_pending, is_open_card, open_card, insert_card,
  new_card, id_of, dispatch_to_wechat, dispatch_to, resend_later, get_channel,
}

idle_not_paused :
    (pid : ℕ) (c : Caller) (w : World)
    → lifecycle pid w ≡ "paused_idle"
    → pause_for_pending pid c w ≡ w
unfolding pause_for_pending
idle_not_paused pid c w h = rw (h) refl

events-resend :
    (aid pid : ℕ) (bad : List Failed) (body : Text) (w : World)
    → (resend_later aid pid bad body w).cancel_events ≡ w.cancel_events
unfolding resend_later
events-resend aid pid bad body w = ground arith

events-dispatch :
    (o : Outside) (row : PendingApproval) (w : World)
    → (dispatch_to_wechat o row w).cancel_events ≡ w.cancel_events
unfolding dispatch_to_wechat dispatch_to
events-dispatch o row w = go (get_channel row.mission_id w) refl
  where
    go :
        (to : Option (ℕ × List Text))
        → get_channel row.mission_id w ≡ to
        → (dispatch_to_wechat o row w).cancel_events ≡ w.cancel_events
    go none e = rw (e, dispatch_to_wechat)
    go (some (aid, [])) e = rw (e, dispatch_to_wechat)
    go (some (aid, uid ∷ uids)) e = rw (e, dispatch_to_wechat, events-resend)

module _ (o : Outside) (c : Caller) (r : Request) where
  open_card_idle :
      (row : PendingApproval) (w : World)
      → lifecycle r.mission_id w ≡ "paused_idle"
      → (lifecycle r.mission_id (open_card o c r row w) ≡ "paused_idle")
        × ((open_card o c r row w).cancel_events ≡ w.cancel_events)
  unfolding open_card
  open_card_idle row w h = elim (Bool-cases r.dispatch_wechat) [
    | inl e ↦
        rw (e, idle_not_paused r.mission_id c (insert_card row w) h)
          (rw missions-dispatch h, events-dispatch o row (insert_card row w))
    | inr e ↦ rw (e, idle_not_paused r.mission_id c (insert_card row w) h) (h, refl)
  ]

  -- A card asked for while the mission is `paused_idle`, as it is throughout a tick that the
  -- scheduler starts on an idle mission, opens like any other, but pauses nothing: the mission stays
  -- `paused_idle`, and no tick is told to stop.
  pub idle_card :
      (w : World)
      → lifecycle r.mission_id w ≡ "paused_idle"
      → (is_open_card r.mission_id r.thread_key (create_pending o c r w).0 ≡ true)
        × (lifecycle r.mission_id (create_pending o c r w).1 ≡ "paused_idle")
        × ((create_pending o c r w).1.cancel_events ≡ w.cancel_events)
  unfolding create_pending new_card
  idle_card w h = elim (Option-cases (find (is_open_card r.mission_id r.thread_key) w.approvals)) [
    | inl e ↦
        let (l, k) = open_card_idle (new_card r (id_of r.request_id (o.short_request_id w))) w h in
        rw (e, create_pending)
          (
            rw (
              (==_iff r.mission_id r.mission_id).1 refl,
              (thread_eq_iff r.thread_key r.thread_key).1 refl,
            ),
            l,
            k,
          )
    | inr (row, e) ↦
        rw (e, create_pending, idle_not_paused r.mission_id c w h)
          (find_holds _ w.approvals row e, h, refl)
  ]
