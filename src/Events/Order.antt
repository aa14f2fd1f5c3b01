-- ===== src/Events/Order.antt =====
-- What a subscriber of InProcessBus gets, and how much is kept for it.
use colony_agents.Prelude.{
  ℕ, zero, suc, ◌+◌, ◌-◌, ◌≤◌, ◌<◌, String, Bool, true, false, Option, none, some, List, [], ◌∷◌,
  ◌++◌, map, length, length-append, length-drop, drop, select, leb, ◌==◌, or_else, ◌≡◌, refl, sym,
  ap, subst, ◌∙◌, arith, ◌||◌, Bool-cases, inl, inr, leb→le, leb→gt,
}
use mathlib.Core.List.{append-nil, append_assoc}
use colony_agents.Prelude.Table.{get, get-put_self}
use colony_agents.Events.{
  Envelope, Subscriber, Bus, push, tail, stamped, delivered, publish, subscribe, waiting, queue_of,
  is_fresh, max_queue, replay_maxlen,
}

module _ {ℓ} {A : Type ℓ} where
  -- The last `max` of a list.
  unfoldable pub newest : ℕ → List A → List A
  newest max xs = drop (length xs - max) xs

  tail-drop : (k : ℕ) (xs : List A) → tail (drop k xs) ≡ drop (suc k) xs
  tail-drop zero [] = refl
  tail-drop zero (x ∷ xs) = refl
  tail-drop (suc k) [] = refl
  tail-drop (suc k) (x ∷ xs) = tail-drop k xs

  drop-append : (k : ℕ) (xs ys : List A) → k ≤ length xs → drop k (xs ++ ys) ≡ drop k xs ++ ys
  drop-append zero xs ys h = refl
  drop-append (suc k) [] ys h = absurd (omega arith)
  drop-append (suc k) (x ∷ xs) ys h = drop-append k xs ys (omega arith)

  push-newest :
      (max : ℕ) (xs : List A) (x : A)
      → 0 < max
      → push max x (newest max xs) ≡ newest max (xs ++ (x ∷ []))
  unfolding push newest
  push-newest max xs x pos = elim (Bool-cases (leb max (length (drop (length xs - max) xs)))) [
    | inl e ↦
        rw (e, tail-drop (length xs - max) xs, length-append xs (x ∷ []))
          (sym (
              drop-append (suc (length xs - max)) xs (x ∷ []) (
                omega (
                  arith,
                  leb→le max (length (drop (length xs - max) xs)) e,
                  length-drop (length xs - max) xs,
                )))
            ∙ ap (λ k. drop k (xs ++ (x ∷ []))) {x = suc (length xs - max)}
                (omega (
                  arith,
                  leb→le max (length (drop (length xs - max) xs)) e,
                  length-drop (length xs - max) xs,
                )))
    | inr e ↦
        let short = leb→gt max (length (drop (length xs - max) xs)) e in
        let none_cut : length xs - max ≡ 0 =
          omega (arith, short, length-drop (length xs - max) xs) in
        let none_cut' : length xs + 1 - max ≡ 0 =
          omega (arith, short, length-drop (length xs - max) xs) in
        rw (e, length-append xs (x ∷ []), none_cut, none_cut') refl
  ]

-- An event to be published: the time, its own "ts" if it has one, and its body.
pub record Posted : Type 0 where
  pub now : ℕ
  pub ts : Option ℕ
  pub body : String

unfoldable pub publish_all : ℕ → List Posted → Bus → Bus
publish_all channel [] b = b
publish_all channel (p ∷ ps) b = publish_all channel ps (publish p.now channel p.ts p.body b)

unfoldable pub envelope : Posted → Envelope
envelope p = stamped p.now p.ts p.body

module _ (channel : ℕ) where
  -- The buffer holds the newest of `es`.
  Holds : List Envelope → Bus → Type 0
  Holds es b = or_else (get channel b.replay) [] ≡ newest replay_maxlen es

  no_replay : (b : Bus) → get channel b.replay ≡ none → Holds [] b
  unfolding Holds newest
  no_replay b h = ap (λ r. or_else r []) h

  publish-replay :
      (p : Posted) (es : List Envelope) (b : Bus)
      → Holds es b
      → Holds (es ++ (envelope p ∷ [])) (publish p.now channel p.ts p.body b)
  unfolding Holds publish envelope
  publish-replay p es b h =
      rw (get-put_self, h) (push-newest replay_maxlen es (envelope p) (omega arith))

  publish_all-replay :
      (ps : List Posted) (es : List Envelope) (b : Bus)
      → Holds es b
      → Holds (es ++ map envelope ps) (publish_all channel ps b)
  unfolding Holds publish_all
  publish_all-replay [] es b h = rw (append-nil es) h
  publish_all-replay (p ∷ ps) es b h =
      subst (λ xs. Holds xs (publish_all channel (p ∷ ps) b))
        (append_assoc es (envelope p ∷ []) (map envelope ps))
        (publish_all-replay ps (es ++ (envelope p ∷ [])) (publish p.now channel p.ts p.body b)
          (publish-replay p es b h))

unfoldable pub has_id : ℕ → List Subscriber → Bool
has_id id [] = false
has_id id (s ∷ subs) = s.id == id || has_id id subs

queue_of-delivered :
    (id : ℕ) (e : Envelope) (subs : List Subscriber)
    → has_id id subs ≡ true
    → queue_of id (map (delivered e) subs) ≡ push max_queue e (queue_of id subs)
unfolding has_id
queue_of-delivered id e [] h = ground (arith, h)
queue_of-delivered id e (s ∷ subs) h = ground (arith, h, queue_of-delivered id e subs)

has_id-delivered :
    (id : ℕ) (e : Envelope) (subs : List Subscriber)
    → has_id id (map (delivered e) subs) ≡ has_id id subs
unfolding has_id
has_id-delivered id e [] = refl
has_id-delivered id e (s ∷ subs) = ap (λ b. s.id == id || b) (has_id-delivered id e subs)

queue_of-append :
    (id : ℕ) (subs : List Subscriber) (s : Subscriber)
    → has_id id subs ≡ false
    → s.id ≡ id
    → queue_of id (subs ++ (s ∷ [])) ≡ s.queue
unfolding has_id
queue_of-append id [] s h e = ground arith
queue_of-append id (t ∷ subs) s h e = ground (arith, h, queue_of-append id subs s)

has_id-append :
    (id : ℕ) (subs : List Subscriber) (s : Subscriber)
    → s.id ≡ id
    → has_id id (subs ++ (s ∷ [])) ≡ true
unfolding has_id
has_id-append id [] s e = ground arith
has_id-append id (t ∷ subs) s e = ground (arith, has_id-append id subs s e)

module _ (channel id : ℕ) where
  -- A registered subscriber whose queue holds the newest of `es`.
  record Waits (es : List Envelope) (b : Bus) : Type 0 where
    subs : List Subscriber
    registered : get channel b.channels ≡ some subs
    known : has_id id subs ≡ true
    newest_first : queue_of id subs ≡ newest max_queue es

  publish-Waits :
      (p : Posted) (es : List Envelope) (b : Bus)
      → Waits es b
      → Waits (es ++ (envelope p ∷ [])) (publish p.now channel p.ts p.body b)
  unfolding publish envelope
  publish-Waits p es b h = record {
    subs = map (delivered (envelope p)) h.subs;
    registered = rw h.registered (get-put_self channel _ b.channels);
    known = has_id-delivered id (envelope p) h.subs ∙ h.known;
    newest_first =
        queue_of-delivered id (envelope p) h.subs h.known
        ∙ rw h.newest_first (push-newest max_queue es (envelope p) (omega arith));
  }

  publish_all-Waits :
      (ps : List Posted) (es : List Envelope) (b : Bus)
      → Waits es b
      → Waits (es ++ map envelope ps) (publish_all channel ps b)
  unfolding publish_all
  publish_all-Waits [] es b h = rw (append-nil es) h
  publish_all-Waits (p ∷ ps) es b h =
      subst (λ xs. Waits xs (publish_all channel (p ∷ ps) b))
        (append_assoc es (envelope p ∷ []) (map envelope ps))
        (publish_all-Waits ps (es ++ (envelope p ∷ [])) (publish p.now channel p.ts p.body b)
          (publish-Waits p es b h))

  Waits-waiting :
      (es : List Envelope) (b : Bus) → Waits es b → waiting channel id b ≡ newest max_queue es
  unfolding waiting
  Waits-waiting es b h = rw h.registered h.newest_first

  subscribe-Waits :
      (now : ℕ) (b : Bus)
      → has_id id (or_else (get channel b.channels) []) ≡ false
      → Waits [] (subscribe now channel id b).1
  unfolding subscribe newest
  subscribe-Waits now b fresh =
      let s : Subscriber = record { id = id; queue = [] } in
      record {
        subs = or_else (get channel b.channels) [] ++ (s ∷ []);
        registered = get-put_self channel _ b.channels;
        known = has_id-append id (or_else (get channel b.channels) []) s refl;
        newest_first = queue_of-append id (or_else (get channel b.channels) []) s fresh refl;
      }

  -- Of the events published on a channel whose replay buffer was empty, those before a subscription
  -- are replayed to it, in order and but for the ones that have expired or that are more than 256
  -- events old, and those after it wait in its queue, in order, the newest 256 if it reads none:
  -- each on one of the two sides, where the subscription's number is not in use.
  pub subscriber_sees :
      (now : ℕ) (before after : List Posted) (b : Bus)
      → get channel b.replay ≡ none
      → has_id id (or_else (get channel (publish_all channel before b).channels) []) ≡ false
      → let (replayed, b') = subscribe now channel id (publish_all channel before b) in
        (replayed ≡ select (is_fresh now) (newest replay_maxlen (map envelope before)))
        × (waiting channel id (publish_all channel after b')
            ≡ newest max_queue (map envelope after))
  unfolding subscribe Holds
  subscriber_sees now before after b empty fresh =
      let b' = (subscribe now channel id (publish_all channel before b)).1 in
      (
        ap (select (is_fresh now))
            (publish_all-replay channel before [] b (no_replay channel b empty)),
        Waits-waiting (map envelope after) (publish_all channel after b') (
            publish_all-Waits after [] b'
              (subscribe-Waits now (publish_all channel before b) fresh)),
      )
