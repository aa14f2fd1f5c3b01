-- ===== src/Llm/Retry/Once.antt =====
-- Which attempt a call of `_astream_once` shows.
use colony_agents.Prelude.{
  ℕ, zero, suc, ◌+◌, ◌≤◌, ◌<◌, Bool, true, false, Option, none, some, List, [], ◌∷◌, ◌≡◌, refl, sym,
  subst, arith, ◌⊎◌, inl, inr, Bool-cases,
}
use colony_agents.Llm.Chunk.{Chunk, Exc, is_retryable_exc}
use colony_agents.Llm.Retry.{
  Attempt, times_out, empty, fails, streams, Streamed, timeout_exc, on_attempt, exhausted,
  attempts_from, astream_once,
}

-- An attempt that showed nothing and is retried.
unfoldable pub is_retried : Attempt → Bool
is_retried times_out = true
is_retried empty = false
is_retried (fails e) = is_retryable_exc e
is_retried (streams c cs e) = false

-- What the attempt alone shows.
unfoldable pub shown : ℕ → Attempt → List Chunk × Option Exc
shown n times_out = ([], some (timeout_exc n))
shown n empty = ([], none)
shown n (fails e) = ([], some e)
shown n (streams c cs e) = (c ∷ cs, e)

-- The attempt `k` is the one that is shown: it is one of those allowed, those before it were
-- retried, and so was it only if no attempt was left.
pub record IsShown (provider : ℕ → Attempt) (first last : ℕ) (s : Streamed) : Type 0 where
  pub not_before : first ≤ s.attempts
  pub not_after : s.attempts ≤ last
  pub retried : (j : ℕ) → first ≤ j → j < s.attempts → is_retried (provider j) ≡ true
  pub decided : (s.attempts ≡ last) ⊎ (is_retried (provider s.attempts) ≡ false)
  pub result : (s.chunks, s.raised) ≡ shown s.attempts (provider s.attempts)

module _ (n : ℕ) (again : Exc → Streamed) where
  stays :
      (a : Attempt)
      → is_retried a ≡ false
      → ((on_attempt n again a).attempts ≡ n)
        × (((on_attempt n again a).chunks, (on_attempt n again a).raised) ≡ shown n a)
  unfolding is_retried shown
  stays times_out h = ground (arith, h)
  stays empty h = (refl, refl)
  stays (fails e) h = rw h (refl, refl)
  stays (streams c cs e) h = (refl, refl)

  goes_on :
      (a : Attempt)
      → is_retried a ≡ true
      → (e : Exc) × (on_attempt n again a ≡ again e) × (shown n a ≡ ([], some e))
  unfolding is_retried shown
  goes_on times_out h = (timeout_exc n, refl, refl)
  goes_on empty h = ground (arith, h)
  goes_on (fails e) h = (e, rw h refl, refl)
  goes_on (streams c cs e) h = ground (arith, h)

module _ (provider : ℕ → Attempt) where
  stays-IsShown :
      (n last : ℕ) (again : Exc → Streamed)
      → n ≤ last
      → is_retried (provider n) ≡ false
      → IsShown provider n last (on_attempt n again (provider n))
  stays-IsShown n last again le h =
      let (same, res) = stays n again (provider n) h in
      record {
        not_before = omega arith;
        not_after = omega arith;
        retried = λ j a b. absurd (omega (arith, same));
        decided = inr (rw same h);
        result = rw same res;
      }

  first_left : (n j : ℕ) → n ≤ j → (j ≡ n) ⊎ (n + 1 ≤ j)
  first_left n j h = omega arith

  later-IsShown :
      (n last : ℕ) (s : Streamed)
      → is_retried (provider n) ≡ true
      → IsShown provider (n + 1) last s
      → IsShown provider n last s
  later-IsShown n last s again h = record {
    not_before = omega (arith, h.not_before);
    not_after = h.not_after;
    retried = λ j a b. elim (first_left n j a) [ inl e ↦ rw e again | inr le ↦ h.retried j le b ];
    decided = h.decided;
    result = h.result;
  }

  attempts_from-IsShown :
      (left n : ℕ) → IsShown provider n (n + left) (attempts_from provider left n)
  unfolding attempts_from
  attempts_from-IsShown zero n = elim (Bool-cases (is_retried (provider n))) [
    | inl t ↦
        let (e, eq, sh) = goes_on n (exhausted n) (provider n) t in
        rw eq record {
          not_before = omega arith;
          not_after = omega arith;
          retried = λ j a b. absurd (omega arith);
          decided = inl (omega arith);
          result = sym sh;
        }
    | inr f ↦ stays-IsShown n (n + 0) (exhausted n) (omega arith) f
  ]
  attempts_from-IsShown (suc left) n = elim (Bool-cases (is_retried (provider n))) [
    | inl t ↦
        let (e, eq, sh) = goes_on n (λ e. attempts_from provider left (n + 1)) (provider n) t in
        rw eq (
          later-IsShown n (n + suc left) _ t (
            subst (λ last. IsShown provider (n + 1) last (attempts_from provider left (n + 1)))
              (omega arith) (attempts_from-IsShown left (n + 1))))
    | inr f ↦
        stays-IsShown n (n + suc left) (λ e. attempts_from provider left (n + 1)) (omega arith) f
  ]

  -- A call shows exactly one attempt, whole: its chunks and how it ended. It is one of the first
  -- `max_retries + 1`; every attempt before it showed no chunk and failed in a way that is retried;
  -- and it is itself one of these only where it is the last one allowed.
  pub astream_once-IsShown :
      (max_retries : ℕ) → IsShown provider 1 (1 + max_retries) (astream_once max_retries provider)
  unfolding astream_once
  astream_once-IsShown max_retries = attempts_from-IsShown max_retries 1
