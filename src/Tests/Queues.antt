-- ===== src/Tests/Queues.antt =====
-- The queues: messages for a super, the event bus, and the builder's claims.
use colony_agents.Prelude.{
  ℕ, zero, suc, ◌≤◌, Text, codes, none, some, List, [], ◌∷◌, ◌++◌, map, select, ◌≡◌, refl, arith,
}
use colony_agents.Prelude.Table.{get}
use colony_agents.Queue.{pending_of, count_pending}
use colony_agents.Queue.Fifo.{Op, send, pop, run, accepted, popped, fifo, run_bounded}
use colony_agents.Events.{Bus, publish, subscribe, waiting, is_fresh, max_queue, replay_maxlen}
use colony_agents.Events.Order.{Posted, publish_all, envelope, newest, subscriber_sees, has_id}
use colony_agents.Builder.Claims.{
  Request, acquire_claim, release_claim, rejected, not_own, row_of, decide_claim,
}
use colony_agents.Builder.Claims.Exclusion.{grant_excludes}
use colony_agents.Tests.Samples.{sample, upload_fails}

abbrev ops : List (Op upload_fails 2 50)
ops =
    send 1 7 (codes "a") []
    ∷ send 2 7 (codes "b") []
    ∷ send 1 7 (codes "c") []
    ∷ send 1 7 (codes "d") []
    ∷ pop 1
    ∷ send 1 7 (codes "e") []
    ∷ []

fifo_example :
    popped upload_fails 2 50 1 ops sample ++ pending_of 1 (run upload_fails 2 50 ops sample).queue
    ≡ pending_of 1 sample.queue ++ accepted upload_fails 2 50 1 ops sample
fifo_example = fifo upload_fails 2 50 1 ops sample

run_bounded_example : count_pending 1 (run upload_fails 2 50 ops sample) ≤ 2
unfolding count_pending pending_of
run_bounded_example = run_bounded upload_fails 2 50 1 ops sample (omega arith)

abbrev posted : Text → Posted
posted body = record { now = 1000; ts = none; body = "e" }

abbrev empty_bus : Bus
empty_bus = record { channels = []; replay = [] }

abbrev events : List Posted
events = posted [] ∷ posted [] ∷ []

subscriber_sees_example :
    let (replayed, b') = subscribe 1001 5 9 (publish_all 5 events empty_bus) in
    (replayed ≡ select (is_fresh 1001) (newest replay_maxlen (map envelope events)))
    × (waiting 5 9 (publish_all 5 events b') ≡ newest max_queue (map envelope events))
unfolding get publish_all has_id publish
subscriber_sees_example = subscriber_sees 5 9 1001 events events empty_bus refl refl

abbrev worker_claim : ℕ → Request
worker_claim session = record {
  target_type = codes "worker";
  target_id = codes "Writer";
  session_id = session;
  mission_id = none;
  ttl_seconds = 1800;
}

grant_excludes_example :
    let rows' = (acquire_claim 0 (worker_claim 1) []).1 in
    (acquire_claim 1800 (worker_claim 2) rows' ≡ (rejected 1, rows'))
    × (release_claim 1800 (codes "worker") (codes "Writer") (some 2) rows' ≡ (not_own, rows'))
unfolding acquire_claim row_of decide_claim
grant_excludes_example =
    grant_excludes 0 1800 (worker_claim 1) (worker_claim 2) [] refl refl (omega arith) (omega arith)

abbrev repeat : ℕ → Text
repeat zero = []
repeat (suc n) = 0x1f600 ∷ repeat n
