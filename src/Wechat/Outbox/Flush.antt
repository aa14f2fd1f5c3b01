-- ===== src/Wechat/Outbox/Flush.antt =====
-- What a flush of backend/app/services/wechat_outbox.py sends and keeps.
use colony_agents.Prelude.{
  ℕ, suc, ◌+◌, Text, false, Option, List, [], ◌∷◌, length, select, ◌≡◌, refl, ap, arith, Bool-cases,
  Option-cases, inl, inr,
}
use colony_agents.Prelude.Table.{get}
use colony_agents.World.{World, OutboxRow}
use colony_agents.Wechat.Outbox.{is_due, sent_row, tried_row, attempt, flush_rows, flush_for_user}

module _ (send : Text → Option Text) (now account : ℕ) (user : Text) where
  abbrev due : List OutboxRow → List OutboxRow
  due = select (is_due account user)

  not_due-sent_row : (row : OutboxRow) → is_due account user (sent_row now row) ≡ false
  unfolding is_due sent_row
  not_due-sent_row row = ground arith

  is_due-tried_row :
      (error : Text) (row : OutboxRow)
      → is_due account user (tried_row error row) ≡ is_due account user row
  unfolding is_due tried_row
  is_due-tried_row error row = refl

  attempt_counts :
      (row : OutboxRow) (rows : List OutboxRow) (sent : ℕ) (rows' : List OutboxRow)
      → sent + length (due rows') ≡ length (due rows)
      → (attempt send now account user row).0
          + sent
          + length (due ((attempt send now account user row).1 ∷ rows'))
        ≡ length (due (row ∷ rows))
  attempt_counts row rows sent rows' h = elim (Bool-cases (is_due account user row)) [
    | inl e ↦ elim (Option-cases (send row.content)) [
      | inl ok ↦ rw (e, ok, not_due-sent_row row) (omega (arith, h))
      | inr (error, bad) ↦ rw (e, bad, is_due-tried_row error row, e) (omega (arith, h))
    ]
    | inr e ↦ rw (e, e) (omega (arith, h))
  ]

  flush_rows-due :
      (rows : List OutboxRow)
      → (flush_rows send now account user rows).0
          + length (due (flush_rows send now account user rows).1)
        ≡ length (due rows)
  unfolding flush_rows
  flush_rows-due [] = refl
  flush_rows-due (row ∷ rows) =
      attempt_counts row rows (flush_rows send now account user rows).0
        (flush_rows send now account user rows).1 (flush_rows-due rows)

  flush_rows-length :
      (rows : List OutboxRow) → length (flush_rows send now account user rows).1 ≡ length rows
  unfolding flush_rows
  flush_rows-length [] = refl
  flush_rows-length (row ∷ rows) = ap suc (flush_rows-length rows)

-- A flush of a user's waiting messages accounts for each of them: the number that it returns and the
-- number of messages that still wait for the user make up the number that waited before, whatever
-- fails, and no row of the outbox is removed.
pub flush_for_user_lem :
    (send : Text → Option Text) (account : ℕ) (user : Text) (w : World)
    → let (sent, w') = flush_for_user send account user w in
      (sent + length (select (is_due account user) w'.outbox)
        ≡ length (select (is_due account user) w.outbox))
      × (length w'.outbox ≡ length w.outbox)
unfolding flush_for_user
flush_for_user_lem send account user w = elim (Option-cases (get account w.accounts)) [
  | inl e ↦ rw (e, flush_for_user) (omega arith, refl)
  | inr (acc, e) ↦
      rw (e, flush_for_user)
        (
          flush_rows-due send w.clock account user w.outbox,
          flush_rows-length send w.clock account user w.outbox,
        )
]
