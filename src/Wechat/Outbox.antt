-- ===== src/Wechat/Outbox.antt =====
-- backend/app/services/wechat_outbox.py: messages that could not be sent wait for their user.
pub mod Flush
use colony_agents.Prelude.{
  ℕ, ◌+◌, String, Text, Bool, ◌&&◌, Option, none, some, List, [], ◌∷◌, ◌++◌, map, take, str_eq,
  text_eq, ◌==◌, if◌then◌else◌,
}
use colony_agents.Prelude.Table.{get}
use colony_agents.World.{World, OutboxRow}

-- [{user_id, error}]
pub record Failed : Type 0 where
  pub user_id : Text
  pub error : Text

unfoldable pub outbox_row : ℕ → Option ℕ → Text → String → Failed → OutboxRow
outbox_row account mission content kind f = record {
  account_id = account;
  mission_id = mission;
  target_wechat_id = f.user_id;
  kind = kind;
  content = content;
  status = "pending";
  attempt_count = 1;
  last_error = f.error;
  sent_at = none;
}

unfoldable pub queue : ℕ → Option ℕ → List Failed → Text → String → World → World
unfolding outbox_row
queue account mission failed_recipients content kind w = record w {
  outbox = w.outbox ++ map (outbox_row account mission content kind) failed_recipients;
}

-- WHERE account_id = … AND target_wechat_id = … AND status = 'pending'
unfoldable pub is_due : ℕ → Text → OutboxRow → Bool
is_due account user row =
    (row.account_id == account) && text_eq row.target_wechat_id user && str_eq row.status "pending"

unfoldable pub sent_row : ℕ → OutboxRow → OutboxRow
sent_row now row = record row { status = "sent"; sent_at = some now }

unfoldable pub tried_row : Text → OutboxRow → OutboxRow
tried_row error row = record row {
  attempt_count = row.attempt_count + 1;
  last_error = take 500 error;
}

-- `send` is `wechat_clawbot.send_text` for the account and the user: the error that it raises on a
-- text, if it does.
module _ (send : Text → Option Text) (now account : ℕ) (user : Text) where
  abbrev pub attempted : OutboxRow → Option Text → ℕ × OutboxRow
  attempted row none = (1, sent_row now row)
  attempted row (some error) = (0, tried_row error row)

  abbrev pub attempt : OutboxRow → ℕ × OutboxRow
  attempt row = if is_due account user row then attempted row (send row.content) else (0, row)

  -- The loop over the rows that are due, with the number of those that were sent.
  unfoldable pub flush_rows : List OutboxRow → ℕ × List OutboxRow
  unfolding is_due sent_row tried_row
  flush_rows [] = (0, [])
  flush_rows (row ∷ rows) =
      let (n, row') = attempt row in let (sent, rows') = flush_rows rows in (n + sent, row' ∷ rows')

unfoldable pub flush_for_user : (Text → Option Text) → ℕ → Text → World → ℕ × World
unfolding flush_rows
flush_for_user send account user w = elim (get account w.accounts) [
  | none ↦ (0, w)
  | some acc ↦
      let (sent, rows) = flush_rows send w.clock account user w.outbox in
      (sent, record w { outbox = rows })
]
