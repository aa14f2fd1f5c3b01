-- ===== src/Approval/Decide.antt =====
-- What an answer to a card does (backend/app/services/pending_approval_service.py): once, and for
-- the whole mission.
use colony_agents.Prelude.{
  ℕ, String, Text, codes, true, false, Option, none, some, List, [], ◌∷◌, ◌++◌, ◌≡◌, ◌≢◌, refl, sym,
  ap, arith, find, find_holds, Option-cases, Bool-cases, inl, inr, str_eq, eq_iff, ◌∙◌, ◌⊎◌, ◌||◌,
}
use colony_agents.Prelude.Table.{get, get-put_self}
use colony_agents.World.{World, trigger_tick, Mission, PendingApproval, Message, response_by}
use colony_agents.Messages.{append_message}
use colony_agents.Queue.{enqueue_user_message, insert_row}
use colony_agents.Mission.Lifecycle.{
  running, paused_clarification, paused_waiting_capability, resume,
}
use colony_agents.Mission.Service.{write, updated, force_target}
use colony_agents.Mission.Service.Writes.{apply_forced}
use colony_agents.Approval.Cards.{Outside, lifecycle, update_row, resume_after_clarification}
use colony_agents.Approval.Pause.{lifecycle_row}
use colony_agents.Approval.Serial.{approvals-follow_up}
use colony_agents.Approval.Frame.{at_once, resume_steady}
use colony_agents.Ticks.{signal}
use colony_agents.Approval.Answer.{
  has_id, get_by_request_id, decided, decide, follow_up, tell_super, write_response_message,
  response_text, thread_or_main, supervisor_of,
}

find-update_row_self :
    (rid : String) (f : PendingApproval → PendingApproval) (rows : List PendingApproval)
    (row : PendingApproval)
    → ((r : PendingApproval) → (f r).request_id ≡ r.request_id)
    → find (has_id rid) rows ≡ some row
    → find (has_id rid) (update_row rid f rows) ≡ some (f row)
unfolding update_row
find-update_row_self rid f [] row same e = cc
find-update_row_self rid f (r ∷ rows) row same e =
    ground (arith, same r, find-update_row_self rid f rows row same)

find-update_row_ne :
    (rid other : String) (f : PendingApproval → PendingApproval) (rows : List PendingApproval)
    → ((r : PendingApproval) → (f r).request_id ≡ r.request_id)
    → other ≢ rid
    → find (has_id other) (update_row rid f rows) ≡ find (has_id other) rows
unfolding update_row
find-update_row_ne rid other f [] same h = refl
find-update_row_ne rid other f (r ∷ rows) same h = ground (
  arith,
  same r,
  eq_iff r.request_id rid,
  eq_iff r.request_id other,
  find-update_row_ne rid other f rows same h,
)

approvals-resume :
    (pid : ℕ) (w : World) → (resume_after_clarification pid w).approvals ≡ w.approvals
unfolding write signal
approvals-resume pid w =
    resume_steady {P = λ v. v.approvals ≡ w.approvals} {c = at_once}
      (record {
        lifecycle_write = λ j m a r target v h. h;
        on_signal = λ j v h. h;
        by_others = λ v h. h;
      })
      pid w refl

module _ (o : Outside) (rid : String) (option by : Text) (w : World) where
  own_id : (row : PendingApproval) → get_by_request_id rid w ≡ some row → row.request_id ≡ rid
  unfolding get_by_request_id
  own_id row e = (eq_iff row.request_id rid).0 (find_holds (has_id rid) w.approvals row e)

  approvals-decide :
      (row : PendingApproval)
      → get_by_request_id rid w ≡ some row
      → str_eq row.status "pending" ≡ true
      → (decide o rid option by w).1.approvals
        ≡ update_row rid (decided option by w.clock) w.approvals
  unfolding decide
  approvals-decide row e p =
      rw (e, decide, p, approvals-follow_up, approvals-resume)
        (ap (λ k. update_row k (decided option by w.clock) w.approvals) (own_id row e))

  pub stored_row :
      (row : PendingApproval)
      → get_by_request_id rid w ≡ some row
      → str_eq row.status "pending" ≡ true
      → get_by_request_id rid (decide o rid option by w).1 ≡ some (decided option by w.clock row)
  unfolding get_by_request_id decided
  stored_row row e p =
      rw (approvals-decide row e p)
        (find-update_row_self rid (decided option by w.clock) w.approvals row (λ r. refl) e)

  pub other_row :
      (row : PendingApproval) (other : String)
      → get_by_request_id rid w ≡ some row
      → str_eq row.status "pending" ≡ true
      → other ≢ rid
      → get_by_request_id other (decide o rid option by w).1 ≡ get_by_request_id other w
  unfolding get_by_request_id decided
  other_row row other e p h =
      rw (approvals-decide row e p)
        (find-update_row_ne rid other (decided option by w.clock) w.approvals (λ r. refl) h)

  decide_result :
      (row : PendingApproval)
      → get_by_request_id rid w ≡ some row
      → str_eq row.status "pending" ≡ true
      → (decide o rid option by w).0 ≡ some (decided option by w.clock row)
  unfolding decide
  decide_result row e p = rw (e, decide, p) refl

pub decide_closed :
    (o : Outside) (rid : String) (option by : Text) (w : World) (row : PendingApproval)
    → get_by_request_id rid w ≡ some row
    → str_eq row.status "pending" ≡ false
    → decide o rid option by w ≡ (some row, w)
unfolding decide
decide_closed o rid option by w row e p = rw (e, decide, p) refl

decide_absent :
    (o : Outside) (rid : String) (option by : Text) (w : World)
    → get_by_request_id rid w ≡ none
    → decide o rid option by w ≡ (none, w)
unfolding decide
decide_absent o rid option by w e = rw (e, decide) refl

-- An answer counts once: whatever the second call says, it returns what the first one returned and
-- changes nothing, as it does where no card has the id.
pub decide_once :
    (o : Outside) (rid : String) (option by option' by' : Text) (w : World)
    → decide o rid option' by' (decide o rid option by w).1 ≡ decide o rid option by w
unfolding decided
decide_once o rid option by option' by' w = elim (Option-cases (get_by_request_id rid w)) [
  | inl e ↦ rw (decide_absent o rid option by w e) (decide_absent o rid option' by' w e)
  | inr (row, e) ↦ elim (Bool-cases (str_eq row.status "pending")) [
    | inl p ↦
        decide_closed o rid option' by' (decide o rid option by w).1 (decided option by w.clock row)
          (stored_row o rid option by w row e p) refl
        ∙ ap (λ r. (r, (decide o rid option by w).1))
            (sym (decide_result o rid option by w row e p))
    | inr p ↦
        rw (decide_closed o rid option by w row e p) (decide_closed o rid option' by' w row e p)
  ]
]

-- The lifecycle of a mission that waits for a human.
abbrev pub IsGated : String → Type 0
IsGated l = (l ≡ "paused_clarification") ⊎ (l ≡ "paused_waiting_capability")

gated_test :
    (l : String)
    → IsGated l
    → (str_eq l "paused_clarification" || str_eq l "paused_waiting_capability") ≡ true
gated_test l (inl e) = rw e
gated_test l (inr e) = rw e

gated_row :
    (pid : ℕ) (w : World)
    → IsGated (lifecycle pid w)
    → (m : Mission) × (get pid w.missions ≡ some m)
gated_row pid w (inl e) =
    let (m, stored, _) = lifecycle_row pid w paused_clarification e in (m, stored)
gated_row pid w (inr e) =
    let (m, stored, _) = lifecycle_row pid w paused_waiting_capability e in (m, stored)

resumed :
    (pid : ℕ) (w : World)
    → IsGated (lifecycle pid w)
    → (m : Mission) × (get pid w.missions ≡ some m)
      × (resume_after_clarification pid w
          ≡ write pid m resume (some (codes "approval_resolved")) running w)
unfolding resume_after_clarification force_target
resumed pid w h =
    let (m, stored) = gated_row pid w h in
    (
      m,
      stored,
      rw (
        gated_test (lifecycle pid w) h,
        apply_forced pid resume (some (codes "approval_resolved")) w m stored,
      ),
    )

missions-tell_super :
    (o : Outside) (row : PendingApproval) (option : Text) (agent : Option ℕ) (w : World)
    → ((tell_super o row option agent w).missions ≡ w.missions)
      × ((tell_super o row option agent w).spawned ≡ w.spawned)
      × ((tell_super o row option agent w).messages ≡ w.messages)
unfolding tell_super enqueue_user_message insert_row
missions-tell_super o row option none w = (refl, refl, refl)
missions-tell_super o row option (some agent) w = (ground arith, ground arith, ground arith)

-- The world that `follow_up` of an answer starts from.
abbrev answered : Text → Text → PendingApproval → World → World
answered option by row w =
    resume_after_clarification row.mission_id
      (record w { approvals = update_row row.request_id (decided option by w.clock) w.approvals })

abbrev pub response_row : PendingApproval → Text → Text → Message
response_row row option by = record {
  mission_id = row.mission_id;
  thread_key = thread_or_main row.thread_key;
  role = "user";
  content = response_text row option by;
  meta = ("approval_response", response_by row.request_id option row.title by) ∷ [];
}

follow_up_does :
    (o : Outside) (row : PendingApproval) (option by : Text) (v : World) (m : Mission)
    → get row.mission_id v.missions ≡ some m
    → m.runtime_status ≡ "running"
    → ((follow_up o row option by v).missions ≡ v.missions)
      × ((follow_up o row option by v).spawned ≡ v.spawned ++ (trigger_tick row.mission_id ∷ []))
      × ((follow_up o row option by v).messages ≡ v.messages ++ (response_row row option by ∷ []))
unfolding follow_up write_response_message append_message
follow_up_does o row option by v m stored run =
    let written = write_response_message row option by v in
    let agent = supervisor_of (get row.mission_id v.missions) in
    let told = missions-tell_super o row option agent written in
    (
      told.0,
      rw (stored, run) (ap (λ s. s ++ (trigger_tick row.mission_id ∷ [])) (rw stored at told.1)),
      told.2,
    )

decide_world :
    (o : Outside) (rid : String) (option by : Text) (w : World) (row : PendingApproval)
    → get_by_request_id rid w ≡ some row
    → row.status ≡ "pending"
    → (decide o rid option by w).1
      ≡ follow_up o (decided option by w.clock row) option by (answered option by row w)
unfolding decide
decide_world o rid option by w row e p = rw (e, decide, (eq_iff row.status "pending").1 p) refl

row_after_resume :
    (pid : ℕ) (w : World)
    → IsGated (lifecycle pid w)
    → (m : Mission) × (get pid (resume_after_clarification pid w).missions ≡ some m)
      × (m.lifecycle_status ≡ "running")
      × (m.runtime_status ≡ "running")
unfolding write updated
row_after_resume pid w h =
    let (m, stored, e) = resumed pid w h in
    (
      updated m running (some (codes "approval_resolved")),
      rw e (get-put_self pid _ w.missions),
      refl,
      refl,
    )

spawned-resume :
    (pid : ℕ) (w : World)
    → IsGated (lifecycle pid w)
    → ((resume_after_clarification pid w).spawned ≡ w.spawned)
      × ((resume_after_clarification pid w).messages ≡ w.messages)
unfolding write
spawned-resume pid w h =
    let (m, stored, e) = resumed pid w h in (ap (λ v. v.spawned) e, ap (λ v. v.messages) e)

-- The answer to an undecided card of a mission that waits for a human sets the mission running,
-- schedules one tick of it, and writes the answer as the last message of the card's thread.
pub decide_resumes :
    (o : Outside) (rid : String) (option by : Text) (w : World) (row : PendingApproval)
    → get_by_request_id rid w ≡ some row
    → row.status ≡ "pending"
    → IsGated (lifecycle row.mission_id w)
    → let w' = (decide o rid option by w).1 in
      (lifecycle row.mission_id w' ≡ "running")
      × (w'.spawned ≡ w.spawned ++ (trigger_tick row.mission_id ∷ []))
      × (w'.messages ≡ w.messages ++ (response_row row option by ∷ []))
unfolding decided response_text
decide_resumes o rid option by w row e p h =
    let stored = record w {
      approvals = update_row row.request_id (decided option by w.clock) w.approvals;
    } in
    let (m, found, alive, run) = row_after_resume row.mission_id stored h in
    let kept = spawned-resume row.mission_id stored h in
    let f =
      follow_up_does o (decided option by w.clock row) option by (answered option by row w) m found
        run in
    rw (decide_world o rid option by w row e p) (
      rw (f.0, found) alive,
      f.1 ∙ ap (λ s. s ++ (trigger_tick row.mission_id ∷ [])) kept.0,
      f.2 ∙ ap (λ s. s ++ (response_row row option by ∷ [])) kept.1,
    )

-- An answer to one card sets the mission running although another card of the mission, with another
-- id, is still undecided: it stays as it was.
pub decide_ignores_other_cards :
    (o : Outside) (rid other : String) (option by : Text) (w : World) (row card : PendingApproval)
    → get_by_request_id rid w ≡ some row
    → row.status ≡ "pending"
    → IsGated (lifecycle row.mission_id w)
    → other ≢ rid
    → get_by_request_id other w ≡ some card
    → card.mission_id ≡ row.mission_id
    → card.status ≡ "pending"
    → (get_by_request_id other (decide o rid option by w).1 ≡ some card)
      × (lifecycle card.mission_id (decide o rid option by w).1 ≡ "running")
decide_ignores_other_cards o rid other option by w row card e p h ne found same open_yet = (
  other_row o rid option by w row other e ((eq_iff row.status "pending").1 p) ne ∙ found,
  rw same ((decide_resumes o rid option by w row e p h).0),
)
