-- ===== src/Queue.antt =====
-- backend/app/services/pending_queue.py: the queue of user messages of a mission's super agent, in
-- the table `super_pending_messages`. Each operation is one transaction.
pub mod Fifo
pub mod Offload
use colony_agents.Prelude.{
  ℕ, ◌+◌, ◌*◌, ◌/◌, max, min, String, Text, codes, Bool, true, false, ◌&&◌, Option, none, some,
  List, [], ◌∷◌, ◌++◌, length, take, select, map, str_eq, ◌==◌, leb, ltb, if◌then◌else◌, or_else,
  str,
}
use colony_agents.Prelude.Utf8.{utf8_size}
use colony_agents.Prelude.Dict.{Dict, get, put}
use colony_agents.World.{PendingMessage, MetaValue, flag, number, text, World}

-- WHERE super_mission_id = :pid AND status = 'pending'
abbrev pub is_pending_of : ℕ → PendingMessage → Bool
is_pending_of pid m = (m.super_mission_id == pid) && str_eq m.status "pending"

unfoldable pub pending_of : ℕ → List PendingMessage → List PendingMessage
pending_of pid = select (is_pending_of pid)

unfoldable pub count_pending : ℕ → World → ℕ
count_pending pid w = length (pending_of pid w.queue)

pub data EnqueueResult : Type 0 where
  queue_full : ℕ → ℕ → EnqueueResult
  queued : (message_id queue_size_after : ℕ) (v38_offloaded : MetaValue) → EnqueueResult

-- `final_content` and `extra_meta`.
pub record Stored : Type 0 where
  pub content : Text
  pub meta : Dict MetaValue

-- The storage service (S3), which this code calls: the URL, or none where it raises.
pub record Outside : Type 0 where
  pub upload : ℕ → Text → Option Text

-- The warning sign and its variation selector.
abbrev warning_sign : Text
warning_sign = 0x26a0 ∷ 0xfe0f ∷ []

unfoldable pub cap_of : ℕ → ℕ
cap_of max_content_kb = max 5 max_content_kb * 1024

unfoldable pub row_of : ℕ → ℕ → ℕ → Stored → PendingMessage
row_of id pid agent s = record {
  id = id;
  super_mission_id = pid;
  super_agent_id = agent;
  content = s.content;
  meta = s.meta;
  status = "pending";
}

unfoldable pub insert_row : PendingMessage → World → World
insert_row row w = record w { queue = w.queue ++ (row ∷ []); next_id = w.next_id + 1 }

module _ (o : Outside) where
  open o use {upload}

  abbrev offload_text : ℕ → ℕ → Text → Text → Text
  offload_text size cap url snippet =
      warning_sign
      ++ (codes " V38: 内容 "
          ++ (str size
              ++ (codes " bytes > "
                  ++ (str cap
                      ++ (codes " bytes 上限，已转 S3。\n\nURL: "
                          ++ (url
                              ++ (codes "\n\n--- 前 "
                                  ++ (str (length snippet)
                                      ++ (codes " 字符预览 ---\n" ++ snippet)))))))))

  abbrev truncation_note : ℕ → Text
  truncation_note size = codes "\n\n... [V38 截断；原始 " ++ (str size ++ codes " bytes]")

  abbrev truncate_text : ℕ → ℕ → Text → Text
  truncate_text size cap content = take cap content ++ truncation_note size

  -- The upload, and the truncation where it raises.
  unfoldable pub over_cap : ℕ → Text → ℕ → Dict MetaValue → Option Text → Stored
  over_cap cap content size meta (some url) = record {
    content = offload_text size cap url (take (min 2000 (cap / 4)) content);
    meta =
        put "v38_orig_bytes" (number size)
          (put "v38_url" (text url) (put "v38_offloaded" (flag true) meta));
  }
  over_cap cap content size meta none = record {
    content = truncate_text size cap content;
    meta = put "v38_orig_bytes" (number size) (put "v38_truncated" (flag true) meta);
  }

  unfoldable pub stored_form : ℕ → ℕ → Text → Dict MetaValue → Stored
  unfolding over_cap cap_of
  stored_form pid max_content_kb content meta =
      let size = utf8_size content in
      let cap = cap_of max_content_kb in
      if ltb cap size
      then over_cap cap content size meta (upload pid content)
      else record { content = content; meta = meta }

  unfoldable pub enqueue_user_message :
      (pid agent : ℕ) (content : Text) (meta : Dict MetaValue) (max_pending max_content_kb : ℕ)
      → World
      → EnqueueResult × World
  enqueue_user_message pid agent content meta max_pending max_content_kb w =
      let cur = count_pending pid w in
      let s = stored_form pid max_content_kb content meta in
      if leb max_pending cur then (queue_full cur max_pending, w) else (
        queued w.next_id (cur + 1) (or_else (get "v38_offloaded" s.meta) (flag false)),
        insert_row (row_of w.next_id pid agent s) w,
      )

unfoldable pub consumed : PendingMessage → PendingMessage
consumed m = record m { status = "consumed" }

-- UPDATE … SET status = 'consumed' WHERE id IN :ids, the ids being those of the mission's pending rows.
unfoldable pub consume : ℕ → List PendingMessage → List PendingMessage
consume pid [] = []
consume pid (m ∷ q) = (if is_pending_of pid m then consumed m else m) ∷ consume pid q

unfoldable pub pop_pending_messages : ℕ → World → List PendingMessage × World
pop_pending_messages pid w = (pending_of pid w.queue, record w { queue = consume pid w.queue })
