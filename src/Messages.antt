-- ===== src/Messages.antt =====
-- backend/app/services/messaging_service.py: the one way to write a message of a thread, and the
-- read of a thread's messages. Compression marks (`is_compressed`) are not modelled: no operation
-- here sets them.
use colony_agents.Prelude.{ℕ, String, Text, ◌&&◌, List, [], ◌∷◌, ◌++◌, take, select, str_eq, ◌==◌}
use colony_agents.Prelude.Dict.{Dict}
use colony_agents.World.{World, Message, MetaValue, message_added, publish}

-- `append_message(db, mission_id, thread_key, role=…, content=…, meta=…)`: the row, and the event.
unfoldable pub append_message : ℕ → String → String → Text → Dict MetaValue → World → World
append_message pid thread_key role content meta w =
    publish pid (message_added role (take 4000 content) meta) (record w {
      messages =
          w.messages
          ++ (record {
            mission_id = pid;
            thread_key = thread_key;
            role = role;
            content = content;
            meta = meta;
          }
              ∷ []);
    })

-- `list_thread_messages(db, mission_id, thread_key)`
unfoldable pub list_thread_messages : ℕ → String → World → List Message
list_thread_messages pid thread_key w =
    select (λ m. (m.mission_id == pid) && str_eq m.thread_key thread_key) w.messages
