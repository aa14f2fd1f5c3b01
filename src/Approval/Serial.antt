-- ===== src/Approval/Serial.antt =====
-- Approvals are serial: no thread of a mission has two undecided cards
-- (backend/app/services/pending_approval_service.py).
use colony_agents.Prelude.{
  ℕ, ◌≤◌, String, Text, true, Option, none, some, List, [], ◌∷◌, ◌++◌, ◌≡◌, refl, ap, arith, find,
  select, length, length-select-append, length-select-find-none, str_eq, eq_iff, Bool-cases, inl,
  inr, Option-cases, ◌↔◌,
}
use colony_agents.World.{World, PendingApproval}
use colony_agents.Mission.Service.{write}
use colony_agents.Ticks.{signal}
use colony_agents.Wechat.Outbox.{Failed}
use colony_agents.Messages.{append_message}
use colony_agents.Queue.{enqueue_user_message, insert_row}
use colony_agents.Approval.Cards.{
  Outside, Caller, Request, is_open_card, thread_eq, new_card, update_row, dispatch_to, card_body,
  sent_ok, failed, marked, resend_later, insert_card, dispatch_to_wechat, get_channel, open_card,
  create_pending,
}
use colony_agents.Approval.Frame.{Steady, at_once, pause_steady, resume_steady}
use colony_agents.Approval.Answer.{
  decided, follow_up, tell_super, write_response_message, decide, get_by_request_id,
}

abbrev pub open_cards : ℕ → Option String → List PendingApproval → List PendingApproval
open_cards pid thread = select (is_open_card pid thread)

abbrev pub IsSerial : List PendingApproval → Type 0
IsSerial rows = (pid : ℕ) (thread : Option String) → length (open_cards pid thread rows) ≤ 1

module _ (c : Caller)
    (keeps : (v : World) → IsSerial v.approvals → IsSerial (c.wait.others v).approvals) where
  IsSerial-Steady : Steady (λ v. IsSerial v.approvals) c
  unfolding write signal
  IsSerial-Steady = record {
    lifecycle_write = λ pid m a r target v h. h;
    on_signal = λ pid v h. h;
    by_others = keeps;
  }

module _ (pid : ℕ) (thread : Option String) (rid : String) (f : PendingApproval → PendingApproval)
    (opens : (r : PendingApproval)
      → is_open_card pid thread (f r) ≡ true
      → is_open_card pid thread r ≡ true) where
  open-update_row-le :
      (rows : List PendingApproval)
      → length (open_cards pid thread (update_row rid f rows)) ≤ length (open_cards pid thread rows)
  unfolding update_row
  open-update_row-le [] = omega arith
  open-update_row-le (row ∷ rows) = ground (arith, opens row, open-update_row-le rows)

pub thread_eq_iff : (s t : Option String) → (thread_eq s t ≡ true) ↔ (s ≡ t)
thread_eq_iff none none = ((λ e. refl), λ e. refl)
thread_eq_iff none (some t) = ((λ e. cc), λ e. cc)
thread_eq_iff (some s) none = ((λ e. cc), λ e. cc)
thread_eq_iff (some s) (some t) =
    ((λ e. ap some ((eq_iff s t).0 e)), λ e. (eq_iff s t).1 (ground arith))

-- A new card where its thread has none.
IsSerial-insert :
    (r : Request) (rid : String) (rows : List PendingApproval)
    → find (is_open_card r.mission_id r.thread_key) rows ≡ none
    → IsSerial rows
    → IsSerial (rows ++ (new_card r rid ∷ []))
unfolding new_card
IsSerial-insert r rid rows e h pid thread = elim (Bool-cases (is_open_card pid thread card)) [
  | inl same ↦
      let p : r.mission_id ≡ pid = ground arith in
      let t : r.thread_key ≡ thread = (thread_eq_iff r.thread_key thread).0 (ground arith) in
      let none_yet : length (open_cards pid thread rows) ≡ 0 =
        rw (p, t) at (length-select-find-none (is_open_card r.mission_id r.thread_key) rows e) in
      rw (length-select-append (is_open_card pid thread) rows (card ∷ []))
        (rw (same, none_yet) (omega arith))
  | inr other ↦
      rw (length-select-append (is_open_card pid thread) rows (card ∷ []))
        (rw other (omega (arith, h pid thread)))
]
  where
    card : PendingApproval
    card = new_card r rid

-- The columns of a row that was sent, and those of a decided one, open no card.
resend-approvals :
    (aid pid : ℕ) (bad : List Failed) (body : Text) (w : World)
    → (resend_later aid pid bad body w).approvals ≡ w.approvals
unfolding resend_later
resend-approvals aid pid bad body w = ground arith

marked-IsSerial :
    (rid : String) (aid : ℕ) (ok : List Text) (bad : List Failed) (now : ℕ)
    (rows : List PendingApproval)
    → IsSerial rows
    → IsSerial (update_row rid (marked aid ok bad now) rows)
unfolding marked
marked-IsSerial rid aid ok bad now rows h pid thread =
    omega (
      arith,
      open-update_row-le pid thread rid (marked aid ok bad now) (λ r e. e) rows,
      h pid thread,
    )

dispatch_to-IsSerial :
    (o : Outside) (row : PendingApproval) (to : ℕ × List Text) (w : World)
    → IsSerial w.approvals
    → IsSerial (dispatch_to o row to w).approvals
unfolding dispatch_to
dispatch_to-IsSerial o row (aid, reviewers) w h = rw resend-approvals (
    marked-IsSerial row.request_id aid (sent_ok send reviewers) (failed send reviewers) w.clock
      w.approvals h)
  where
    send : Text → Option Text
    send = o.send_text aid (card_body o row w)

dispatch-IsSerial :
    (o : Outside) (row : PendingApproval) (w : World)
    → IsSerial w.approvals
    → IsSerial (dispatch_to_wechat o row w).approvals
unfolding dispatch_to_wechat
dispatch-IsSerial o row w h = go (get_channel row.mission_id w) refl
  where
    go :
        (to : Option (ℕ × List Text))
        → get_channel row.mission_id w ≡ to
        → IsSerial (dispatch_to_wechat o row w).approvals
    go none e = rw (e, dispatch_to_wechat) h
    go (some (aid, [])) e = rw (e, dispatch_to_wechat) h
    go (some (aid, uid ∷ uids)) e =
        rw (e, dispatch_to_wechat) (dispatch_to-IsSerial o row (aid, uid ∷ uids) w h)

decided-IsSerial :
    (rid : String) (option by : Text) (now : ℕ) (rows : List PendingApproval)
    → IsSerial rows
    → IsSerial (update_row rid (decided option by now) rows)
unfolding decided
decided-IsSerial rid option by now rows h pid thread = omega (
  arith,
  open-update_row-le pid thread rid (decided option by now) (λ r e. ground arith) rows,
  h pid thread,
)

module _ (o : Outside) (c : Caller)
    (keeps : (v : World) → IsSerial v.approvals → IsSerial (c.wait.others v).approvals) where
  open_card-IsSerial :
      (r : Request) (row : PendingApproval) (w : World)
      → IsSerial (w.approvals ++ (row ∷ []))
      → IsSerial (open_card o c r row w).approvals
  unfolding open_card
  open_card-IsSerial r row w h =
      let paused = pause_steady (IsSerial-Steady c keeps) r.mission_id (insert_card row w) h in
      elim (Bool-cases r.dispatch_wechat) [
        | inl e ↦ rw e (dispatch-IsSerial o row _ paused)
        | inr e ↦ rw e paused
      ]

  -- If no thread has two undecided cards, and the tasks that run while a tick is being cancelled
  -- keep it so, then no thread has two after `create_pending`.
  pub create_pending-IsSerial :
      (r : Request) (w : World)
      → IsSerial w.approvals
      → IsSerial (create_pending o c r w).1.approvals
  unfolding create_pending
  create_pending-IsSerial r w h =
      elim (Option-cases (find (is_open_card r.mission_id r.thread_key) w.approvals)) [
        | inl e ↦
            rw (e, create_pending) (open_card-IsSerial r _ w (IsSerial-insert r _ w.approvals e h))
        | inr (row, e) ↦
            rw (e, create_pending) (pause_steady (IsSerial-Steady c keeps) r.mission_id w h)
      ]

approvals-tell_super :
    (o : Outside) (row : PendingApproval) (option : Text) (agent : Option ℕ) (w : World)
    → (tell_super o row option agent w).approvals ≡ w.approvals
unfolding tell_super enqueue_user_message insert_row
approvals-tell_super o row option none w = refl
approvals-tell_super o row option (some agent) w = ground arith

pub approvals-follow_up :
    (o : Outside) (row : PendingApproval) (option by : Text) (w : World)
    → (follow_up o row option by w).approvals ≡ w.approvals
unfolding follow_up write_response_message append_message
approvals-follow_up o row option by w = approvals-tell_super o row option _ _

-- If no thread has two undecided cards, none has two after `decide`.
pub decide-IsSerial :
    (o : Outside) (rid : String) (option by : Text) (w : World)
    → IsSerial w.approvals
    → IsSerial (decide o rid option by w).1.approvals
unfolding decide
decide-IsSerial o rid option by w h = elim (Option-cases (get_by_request_id rid w)) [
  | inl e ↦ rw (e, decide) h
  | inr (row, e) ↦ elim (Bool-cases (str_eq row.status "pending")) [
    | inl pending ↦
        rw (e, decide, pending, approvals-follow_up)
          (resume_steady (IsSerial-Steady at_once (λ v k. k)) row.mission_id _
            (decided-IsSerial row.request_id option by w.clock w.approvals h))
    | inr closed ↦ rw (e, decide, closed) h
  ]
]
