-- ===== src/Queue/Fifo.antt =====
-- The queue of backend/app/services/pending_queue.py is, for each mission, a bounded FIFO queue:
-- the lemmas on one operation, and the theorems on any sequence of operations.
use colony_agents.Prelude.{
  ℕ, ◌+◌, ◌≤◌, ◌<◌, Text, Bool, true, false, List, [], ◌∷◌, ◌++◌, length, length-append, ◌≡◌, refl,
  ◌≢◌, arith, ◌==◌, Bool-cases, sym, inl, inr, leb, if◌then◌else◌, ==_iff, leb→gt, ap,
}
use mathlib.Core.List.{append-nil, append_assoc}
use colony_agents.Prelude.Dict.{Dict}
use colony_agents.World.{PendingMessage, MetaValue, World}
use colony_agents.Queue.{
  is_pending_of, pending_of, count_pending, EnqueueResult, queue_full, queued, Outside,
  enqueue_user_message, row_of, stored_form, Stored, consume, consumed, pop_pending_messages,
  insert_row,
}

pending_of-append :
    (pid : ℕ) (q r : List PendingMessage)
    → pending_of pid (q ++ r) ≡ pending_of pid q ++ pending_of pid r
unfolding pending_of
pending_of-append pid [] r = refl
pending_of-append pid (m ∷ q) r = ground (arith, pending_of-append pid q r)

not_pending_of-consumed : (pid : ℕ) (m : PendingMessage) → is_pending_of pid (consumed m) ≡ false
unfolding consumed
not_pending_of-consumed pid m = ground arith

not_pending_of_other :
    (pid j : ℕ) (m : PendingMessage)
    → j ≢ pid
    → is_pending_of pid m ≡ true
    → is_pending_of j m ≡ false
not_pending_of_other pid j m h e = ground arith

pending_of-consume_self : (pid : ℕ) (q : List PendingMessage) → pending_of pid (consume pid q) ≡ []
unfolding pending_of consume
pending_of-consume_self pid [] = refl
pending_of-consume_self pid (m ∷ q) = elim (Bool-cases (is_pending_of pid m)) [
  | inl e ↦ rw (e, not_pending_of-consumed pid m) (pending_of-consume_self pid q)
  | inr e ↦ rw (e, e) (pending_of-consume_self pid q)
]

pending_of-consume_ne :
    (pid j : ℕ) (q : List PendingMessage) → j ≢ pid → pending_of j (consume pid q) ≡ pending_of j q
unfolding pending_of consume
pending_of-consume_ne pid j [] h = refl
pending_of-consume_ne pid j (m ∷ q) h = elim (Bool-cases (is_pending_of pid m)) [
  | inl e ↦
      rw (e, not_pending_of-consumed j m, not_pending_of_other pid j m h e)
        (pending_of-consume_ne pid j q h)
  | inr e ↦ rw e (ground (arith, pending_of-consume_ne pid j q h))
]

pending_of-row :
    (j id pid agent : ℕ) (s : Stored)
    → pending_of j (row_of id pid agent s ∷ [])
      ≡ (if pid == j then row_of id pid agent s ∷ [] else [])
unfolding pending_of row_of
pending_of-row j id pid agent s = ground arith

module _ (o : Outside) (max_pending max_content_kb : ℕ) where
  -- What the callers of the queue can do, in any order and for any missions.
  pub data Op : Type 0 where
    send : (pid agent : ℕ) → Text → Dict MetaValue → Op
    pop : ℕ → Op

  abbrev sent : ℕ → ℕ → Text → Dict MetaValue → World → EnqueueResult × World
  sent pid agent content meta =
      enqueue_user_message o pid agent content meta max_pending max_content_kb

  unfoldable pub step : Op → World → World
  step (send pid agent content meta) w = (sent pid agent content meta w).1
  step (pop pid) w = (pop_pending_messages pid w).1

  abbrev new_row : ℕ → ℕ → Text → Dict MetaValue → ℕ → PendingMessage
  new_row pid agent content meta id =
      row_of id pid agent (stored_form o pid max_content_kb content meta)

  -- The row that a call of `enqueue_user_message` puts into the queue of mission `j`, by its result.
  abbrev row_for : ℕ → ℕ → ℕ → Text → Dict MetaValue → EnqueueResult → List PendingMessage
  row_for j pid agent content meta (queue_full cur cap) = []
  row_for j pid agent content meta (queued id size offloaded) =
      if pid == j then new_row pid agent content meta id ∷ [] else []

  unfoldable pub accepted_by : ℕ → Op → World → List PendingMessage
  accepted_by j (send pid agent content meta) w =
      row_for j pid agent content meta (sent pid agent content meta w).0
  accepted_by j (pop pid) w = []

  unfoldable pub popped_by : ℕ → Op → World → List PendingMessage
  popped_by j (send pid agent content meta) w = []
  popped_by j (pop pid) w = if pid == j then (pop_pending_messages pid w).0 else []

  send_fifo :
      (j pid agent : ℕ) (content : Text) (meta : Dict MetaValue) (w : World) (full : Bool)
      → leb max_pending (count_pending pid w) ≡ full
      → pending_of j (sent pid agent content meta w).1.queue
        ≡ pending_of j w.queue ++ row_for j pid agent content meta (sent pid agent content meta w).0
  unfolding enqueue_user_message insert_row
  send_fifo j pid agent content meta w true e = rw e (sym (append-nil (pending_of j w.queue)))
  send_fifo j pid agent content meta w false e = rw e (rw (pending_of-append, pending_of-row) refl)

  step_fifo :
      (j : ℕ) (op : Op) (w : World)
      → popped_by j op w ++ pending_of j (step op w).queue
        ≡ pending_of j w.queue ++ accepted_by j op w
  unfolding step accepted_by popped_by pop_pending_messages
  step_fifo j (send pid agent content meta) w = send_fifo j pid agent content meta w _ refl
  step_fifo j (pop pid) w = elim (Bool-cases (pid == j)) [
    | inl e ↦
        let same : pid ≡ j = (==_iff pid j).0 e in
        rw (e, same, pending_of-consume_self j w.queue) refl
    | inr e ↦
        let other : j ≢ pid = λ p. ground arith in
        rw (e, pending_of-consume_ne pid j w.queue other, append-nil (pending_of j w.queue)) refl
  ]

  unfoldable pub run : List Op → World → World
  run [] w = w
  run (op ∷ ops) w = run ops (step op w)

  unfoldable pub accepted : ℕ → List Op → World → List PendingMessage
  accepted j [] w = []
  accepted j (op ∷ ops) w = accepted_by j op w ++ accepted j ops (step op w)

  unfoldable pub popped : ℕ → List Op → World → List PendingMessage
  popped j [] w = []
  popped j (op ∷ ops) w = popped_by j op w ++ popped j ops (step op w)

  -- However the calls for the missions interleave, what one mission's `pop_pending_messages` calls
  -- have handed out, followed by what is still pending, is what was pending at first followed by the
  -- rows that its `enqueue_user_message` calls accepted, in order: no row is lost, doubled,
  -- reordered, or given to another mission.
  pub fifo :
      (j : ℕ) (ops : List Op) (w : World)
      → popped j ops w ++ pending_of j (run ops w).queue ≡ pending_of j w.queue ++ accepted j ops w
  unfolding run accepted popped
  fifo j [] w = sym (append-nil (pending_of j w.queue))
  fifo j (op ∷ ops) w =
      simp (append_assoc, fifo j ops (step op w))
        (rw (← append_assoc, step_fifo j op w, append_assoc) refl)

  row_for_fits :
      (j pid agent : ℕ) (content : Text) (meta : Dict MetaValue) (w : World) (full : Bool)
      → leb max_pending (count_pending pid w) ≡ full
      → count_pending j w ≤ max_pending
      → count_pending j w
          + length (row_for j pid agent content meta (sent pid agent content meta w).0)
        ≤ max_pending
  unfolding enqueue_user_message
  row_for_fits j pid agent content meta w true e h = rw e (omega arith)
  row_for_fits j pid agent content meta w false e h = rw e (elim (Bool-cases (pid == j)) [
    | inl same ↦
        let p : pid ≡ j = (==_iff pid j).0 same in
        let room : count_pending j w < max_pending = rw p at (leb→gt max_pending _ e) in
        rw same (omega (arith, room))
    | inr other ↦ rw other (omega arith)
  ])

  step_bounded :
      (j : ℕ) (op : Op) (w : World)
      → count_pending j w ≤ max_pending
      → count_pending j (step op w) ≤ max_pending
  unfolding step count_pending accepted_by
  step_bounded j (send pid agent content meta) w h = omega (
    arith,
    ap length (send_fifo j pid agent content meta w _ refl),
    length-append (pending_of j w.queue)
        (row_for j pid agent content meta (sent pid agent content meta w).0),
    row_for_fits j pid agent content meta w _ refl h,
  )
  step_bounded j (pop pid) w h = omega (
    arith,
    ap length (step_fifo j (pop pid) w),
    length-append (popped_by j (pop pid) w) (pending_of j (step (pop pid) w).queue),
    length-append (pending_of j w.queue) (accepted_by j (pop pid) w),
  )

  -- If a mission's queue holds at most `max_pending` messages, so it does after any sequence of
  -- calls.
  pub run_bounded :
      (j : ℕ) (ops : List Op) (w : World)
      → count_pending j w ≤ max_pending
      → count_pending j (run ops w) ≤ max_pending
  unfolding run
  run_bounded j [] w h = h
  run_bounded j (op ∷ ops) w h = run_bounded j ops (step op w) (step_bounded j op w h)
