-- ===== src/Daemon/Tick/Guard.antt =====
-- What the guards of `run_once` in backend/app/services/mission_daemon.py keep.
use colony_agents.Prelude.{
  ℕ, String, Text, Bool, true, false, ◌&&◌, none, some, List, [], ◌∷◌, ◌==◌, ◌≢◌, ◌++◌, ◌≡◌, refl,
  sym, ap, arith, str_eq, leb, if◌then◌else◌, Bool-cases, or_else, any, ◌+◌, inl, inr, eq_iff,
  or_text,
}
use colony_agents.Prelude.Table.{get, member, member-discard, discard, get-put_self, get-put_ne}
use colony_agents.World.{World, Mission, lifecycle, lifecycle_of, runtime}
use colony_agents.Mission.Lifecycle.{
  stopped, from_value, paused_idle, pause_idle, Outcome, transition, stop as stop_action,
}
use colony_agents.Mission.Service.{write, updated, current_of, force_target, runtime_for}
use colony_agents.Mission.Service.Writes.{apply_forced, apply_moved}
use colony_agents.Mission.Policy.{should_pause_idle_after_tick}
use colony_agents.Queue.{count_pending}
use colony_agents.Daemon.State.{run_state, edit_run_state}
use colony_agents.Daemon.Control.{start, Started}
use colony_agents.Daemon.Control.Running.{member-append_last, start_registered}
use colony_agents.Daemon.Tick.{Payload, is_trigger, gate, token_guard, should_skip_tick}
use colony_agents.Daemon.Tick.Run.{
  Parts, tick_in_progress, skipped, run_once, run_once_body, guarded, pause_idle_after,
  token_reason, phase_done,
}

-- The human gates and "stopped".
abbrev pub is_gated : String → Bool
is_gated s =
    any (λ t. str_eq s t) ("paused_waiting_capability" ∷ "paused_clarification" ∷ "stopped" ∷ [])

running_pauses :
    (m : Mission)
    → m.lifecycle_status ≡ "running"
    → transition (current_of m) pause_idle ≡ Outcome.moved paused_idle
unfolding transition current_of from_value
running_pauses m h = ap (λ s. transition (or_else (from_value s) stopped) pause_idle) h

named :
    (m : Mission) (status : String)
    → str_eq m.lifecycle_status status ≡ true
    → (reason : Text) → some (gate status reason) ≡ some (gate m.lifecycle_status reason)
named m status h reason =
    ap (λ s. some (gate s reason)) (sym ((eq_iff m.lifecycle_status status).0 h))

discard-append_last : (k : ℕ) (s : List ℕ) → member k s ≡ false → discard k (s ++ (k ∷ [])) ≡ s
unfolding member discard
discard-append_last k [] h = let same : (k == k) ≡ true = ground arith in rw same refl
discard-append_last k (j ∷ s) h = elim (Bool-cases (j == k)) [
  | inl e ↦ let bad : true ≡ false = rw e at h in cc
  | inr e ↦ rw e (ap (λ t. j ∷ t) (discard-append_last k s (rw e at h)))
]

module _ (parts : Parts) (pid task : ℕ) (p : Payload) where
  abbrev pub ticking_in : World → World
  ticking_in w = record w { ticking = w.ticking ++ (pid ∷ []) }

  -- A call of `run_once` inside a tick of the mission returns `tick_in_progress` and changes
  -- nothing; and whatever a call does, however its tick ends, the mission is marked as ticking after
  -- it just if it was before.
  pub run_once_serial :
      (w : World)
      → (run_once parts pid task p (ticking_in w) ≡ (tick_in_progress, ticking_in w))
        × (member pid (run_once parts pid task p w).1.ticking ≡ member pid w.ticking)
  unfolding run_once
  run_once_serial w = (
    rw (member-append_last pid w.ticking) refl,
    elim (Bool-cases (member pid w.ticking)) [
      | inl e ↦ rw e e
      | inr e ↦ rw e (
          ground (
            arith,
            member-discard pid pid (run_once_body parts pid task p (ticking_in w)).1.ticking,
          ))
    ],
  )

  skip_of_gate :
      (m : Mission) (w : World)
      → is_gated m.lifecycle_status ≡ true
      → (reason : Text) × (should_skip_tick parts.max_ticks pid p m w
          ≡ some (gate m.lifecycle_status reason))
  unfolding should_skip_tick
  skip_of_gate m w h = elim (Bool-cases (str_eq m.lifecycle_status "paused_waiting_capability")) [
    | inl a ↦ rw a (_, named m "paused_waiting_capability" a _)
    | inr a ↦ elim (Bool-cases (str_eq m.lifecycle_status "paused_clarification")) [
      | inl b ↦ rw (a, b) (_, named m "paused_clarification" b _)
      | inr b ↦ elim (Bool-cases (str_eq m.lifecycle_status "stopped")) [
        | inl c ↦ rw (a, b, c) (_, named m "stopped" c _)
        | inr c ↦ ground (arith, h, a, b, c)
      ]
    ]
  ]

  body_lem :
      (m : Mission) (w : World)
      → get pid w.missions ≡ some m
      → m.runtime_status ≡ "running"
      → is_trigger p.trigger "worker_health_scan" ≡ false
      → run_once_body parts pid task p w
        ≡ guarded parts pid task p m w (should_skip_tick parts.max_ticks pid p m w)
  unfolding run_once_body
  body_lem m w stored run plain = rw (stored, plain, run) refl

  -- A mission whose lifecycle is one of the two human gates or "stopped" takes no turn: with a
  -- running runtime and a trigger other than the health scan, `run_once` returns `skipped` with the
  -- lifecycle's name, counts the tick in the mission's row of the run state, and writes nothing else:
  -- the other rows of the run state, and the set of the missions that tick, are as they were.
  pub gated_tick :
      (m : Mission) (w : World) (other : ℕ)
      → member pid w.ticking ≡ false
      → get pid w.missions ≡ some m
      → m.runtime_status ≡ "running"
      → is_trigger p.trigger "worker_health_scan" ≡ false
      → is_gated m.lifecycle_status ≡ true
      → other ≢ pid
      → let (res, w') = run_once parts pid task p w in
        ((reason : Text) × (res ≡ skipped m.lifecycle_status reason))
        × ((run_state pid w').run_count ≡ (run_state pid w).run_count + 1)
        × (get other w'.run_states ≡ get other w.run_states)
        × (w' ≡ record w { run_states = w'.run_states })
  unfolding run_once guarded edit_run_state
  gated_tick m w other free stored run plain gated distinct =
      let (reason, skip) = skip_of_gate m (ticking_in w) gated in
      let same = discard-append_last pid w.ticking free in
      rw (free, body_lem m (ticking_in w) stored run plain, skip)
        (
          (or_text m.paused_reason reason, refl),
          rw get-put_self refl,
          get-put_ne other pid _ w.run_states distinct,
          rw same refl,
        )

  -- The token guard, of a registered mission whose row is there: the mission ends with lifecycle and
  -- runtime "stopped" and is registered still, so that a later `start` returns "running" and
  -- changes nothing, and the mission stays stopped.
  pub token_guard_sticks :
      (m : Mission) (w : World) (max ticks : ℕ) (kickoff : Bool)
      → get pid w.missions ≡ some m
      → member pid w.daemons ≡ true
      → let w' = (guarded parts pid task p m w (some (token_guard max ticks))).1 in
        (lifecycle pid w' ≡ "stopped")
        × (runtime pid w' ≡ "stopped")
        × (start pid kickoff w' ≡ (Started.running, w'))
  unfolding guarded edit_run_state write updated force_target runtime_for
  token_guard_sticks m w max ticks kickoff stored known =
      rw (apply_forced pid stop_action (some (token_reason ticks max)) w m stored)
        (rw get-put_self refl, rw get-put_self refl, start_registered pid kickoff _ known)

  -- The end of a turn without an error, for a mission whose row is there: a running mission with
  -- an empty queue becomes `paused_idle`, and every other mission, one that the turn has sent to a
  -- human gate say, keeps its lifecycle.
  pub pause_idle_after_lem :
      (m : Mission) (w : World)
      → get pid w.missions ≡ some m
      → lifecycle pid (pause_idle_after parts pid task p none w) ≡ (
          if str_eq m.lifecycle_status "running" && leb (count_pending pid w) 0
          then "paused_idle"
          else m.lifecycle_status)
  unfolding pause_idle_after should_pause_idle_after_tick write updated
  pause_idle_after_lem m w stored = elim (Bool-cases (str_eq m.lifecycle_status "running")) [
    | inl e ↦ elim (Bool-cases (leb (count_pending pid w) 0)) [
      | inl z ↦
          rw
            (
              stored,
              e,
              z,
              apply_moved pid pause_idle (some phase_done) w m paused_idle stored
                  (running_pauses m ((eq_iff _ _).0 e)),
            )
            (rw get-put_self refl)
      | inr z ↦ rw (stored, e, z) (ap lifecycle_of stored)
    ]
    | inr e ↦ rw (stored, e) (ap lifecycle_of stored)
  ]
