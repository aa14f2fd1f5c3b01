-- ===== src/Events.antt =====
-- backend/app/services/event_bus.py, class InProcessBus: the event bus of the process, with a
-- replay buffer and bounded queues of the subscribers. An operation is one turn of the event loop.
pub mod Order
use colony_agents.Prelude.{
  ℕ, zero, suc, ◌+◌, ◌-◌, String, Bool, true, false, not, ◌&&◌, Option, none, some, List, [], ◌∷◌,
  ◌++◌, map, length, select, any, is_nil, leb, ◌==◌, if◌then◌else◌, or_else,
}
use colony_agents.Prelude.Table.{Table, get, put, remove}

abbrev pub max_queue : ℕ
max_queue = 256

abbrev pub replay_maxlen : ℕ
replay_maxlen = 256

-- Time is in seconds.
abbrev pub replay_ttl_sec : ℕ
replay_ttl_sec = 120

-- An event with its "ts".
pub record Envelope : Type 0 where
  pub ts : ℕ
  pub body : String

-- A subscriber's queue, by a number for its identity.
pub record Subscriber : Type 0 where
  pub id : ℕ
  pub queue : List Envelope

pub record Bus : Type 0 where
  pub channels : Table (List Subscriber)
  pub replay : Table (List Envelope)

abbrev pub tail {ℓ} : {A : Type ℓ} → List A → List A
tail [] = []
tail (x ∷ xs) = xs

-- deque.append at its maxlen, and put_nowait after the get_nowait of a full queue: the oldest goes.
unfoldable pub push {ℓ} : {A : Type ℓ} → ℕ → A → List A → List A
push max x xs = if leb max (length xs) then tail xs ++ (x ∷ []) else xs ++ (x ∷ [])

abbrev pub delivered : Envelope → Subscriber → Subscriber
delivered e s = record s { queue = push max_queue e s.queue }

abbrev pub deliver :
    ℕ → Envelope → Table (List Subscriber) → Option (List Subscriber) → Table (List Subscriber)
deliver channel e t none = t
deliver channel e t (some subs) = put channel (map (delivered e) subs) t

-- evt.setdefault("ts", time.time()), and the two writes.
abbrev pub stamped : ℕ → Option ℕ → String → Envelope
stamped now ts body = record { ts = or_else ts now; body = body }

unfoldable pub publish : (now channel : ℕ) (ts : Option ℕ) → String → Bus → Bus
unfolding push
publish now channel ts body b = record {
  replay =
      put channel (push replay_maxlen (stamped now ts body) (or_else (get channel b.replay) []))
        b.replay;
  channels = deliver channel (stamped now ts body) b.channels (get channel b.channels);
}

-- e["ts"] >= now - _REPLAY_TTL_SEC
abbrev pub is_fresh : ℕ → Envelope → Bool
is_fresh now e = leb now (e.ts + replay_ttl_sec)

-- The registration of the queue with the snapshot that is replayed.
unfoldable pub subscribe : (now channel id : ℕ) → Bus → List Envelope × Bus
subscribe now channel id b = (
  select (is_fresh now) (or_else (get channel b.replay) []),
  record b {
    channels =
        put channel (or_else (get channel b.channels) [] ++ (record { id = id; queue = [] } ∷ []))
          b.channels;
  },
)

-- q.get(), where an event waits.
abbrev taken : ℕ → List Subscriber → List Subscriber
taken id [] = []
taken id (s ∷ subs) =
    let rest = taken id subs in
    if s.id == id then record s { queue = tail s.queue } ∷ subs else s ∷ rest

abbrev pub queue_of : ℕ → List Subscriber → List Envelope
queue_of id [] = []
queue_of id (s ∷ subs) = let rest = queue_of id subs in if s.id == id then s.queue else rest

abbrev head? {ℓ} : {A : Type ℓ} → List A → Option A
head? [] = none
head? (x ∷ xs) = some x

unfoldable pub waiting : (channel id : ℕ) → Bus → List Envelope
waiting channel id b = queue_of id (or_else (get channel b.channels) [])

unfoldable pub receive : (channel id : ℕ) → Bus → Option Envelope × Bus
unfolding waiting
receive channel id b = (
  head? (waiting channel id b),
  record b { channels = put channel (taken id (or_else (get channel b.channels) [])) b.channels },
)

-- The `finally` of a subscription that ends.
abbrev left_channels : ℕ → Table (List Subscriber) → List Subscriber → Table (List Subscriber)
left_channels channel t subs = if is_nil subs then remove channel t else put channel subs t

abbrev dropped :
    ℕ → ℕ → Table (List Subscriber) → Option (List Subscriber) → Table (List Subscriber)
dropped channel id t none = t
dropped channel id t (some subs) = left_channels channel t (select (λ s. not (s.id == id)) subs)

abbrev no_subscriber : ℕ → Table (List Subscriber) → Bool
no_subscriber channel t = elim (get channel t) [ none ↦ true | some subs ↦ false ]

unfoldable pub unsubscribe : (now channel id : ℕ) → Bus → Bus
unsubscribe now channel id b =
    let channels = dropped channel id b.channels (get channel b.channels) in
    let stale = not (any (is_fresh now) (or_else (get channel b.replay) [])) in
    record {
      channels = channels;
      replay =
          if no_subscriber channel channels && stale then remove channel b.replay else b.replay;
    }
