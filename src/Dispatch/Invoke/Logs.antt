-- ===== src/Dispatch/Invoke/Logs.antt =====
-- What a call of a worker leaves in the log, of
-- backend/app/skills_builtin/super/super_dispatch_skills.py.
use colony_agents.Prelude.{
  ℕ, Text, Bool, true, false, not, ◌&&◌, Option, none, some, is_some, ◌≡◌, refl, ◌⊎◌, sym, subst,
  inl, inr, Bool-cases, if◌then◌else◌,
}
use colony_agents.Prelude.Table.{get, get-put_self}
use colony_agents.Dispatch.{Envelope, Refusal, precheck_invocation}
use colony_agents.Dispatch.Invoke.{
  Agent, ActionSpec, LogRow, Bench, Call, Outside, Resolved, worker, RunEnd, cancelled, timed_out,
  raised, returned, resolve_worker, action_spec, finalized, is_log_status, finalize_log, status_of,
  ended, concluded, after_run, started, built, allowed, logged, gated, tell, not_empty, resolved,
  checked, run_worker, started_row, invoke_worker,
}

-- The row of a call is finished and holds the status of the envelope that the call returned, if the
-- log takes that status; if it does not, the row still says that the call started.
abbrev pub IsLogged : ℕ → Envelope × Bench → Type 0
IsLogged id (e, b) =
    (r : LogRow) × (get id b.log ≡ some r)
    × (r.status ≡ (if is_log_status (status_of e) then status_of e else "started"))
    × (r.finished ≡ is_log_status (status_of e))

-- The call was refused, and wrote neither the log nor a message.
abbrev pub IsRefused : Bench → Envelope × Bench → Type 0
IsRefused before (e, b) = (b.log ≡ before.log) × (b.world.messages ≡ before.world.messages)

finalize-IsLogged :
    (id : ℕ) (e : Envelope) (ti to : ℕ) (b : Bench) (r : LogRow)
    → get id b.log ≡ some r
    → r.status ≡ "started"
    → r.finished ≡ false
    → IsLogged id (e, finalize_log id e ti to b)
unfolding finalize_log finalized
finalize-IsLogged id e ti to b r h begun open_still =
    elim (Bool-cases (is_log_status (status_of e))) [
      | inl taken ↦
          rw (h, taken, finalize_log)
            (finalized e ti to r, get-put_self id (finalized e ti to r) b.log, refl, refl)
      | inr refused ↦ rw (h, refused, finalize_log) (r, h, begun, open_still)
    ]

module _ (o : Outside) (c : Call) where
  after_run-IsLogged :
      (a : Agent) (e : RunEnd) (b : Bench) (r : LogRow)
      → get o.log_id b.log ≡ some r
      → r.status ≡ "started"
      → r.finished ≡ false
      → IsLogged o.log_id (after_run o c a e b)
  unfolding after_run ended concluded
  after_run-IsLogged a cancelled b r h s f = finalize-IsLogged o.log_id _ 0 0 b r h s f
  after_run-IsLogged a timed_out b r h s f = finalize-IsLogged o.log_id _ 0 0 b r h s f
  after_run-IsLogged a (raised message) b r h s f = finalize-IsLogged o.log_id _ 0 0 b r h s f
  after_run-IsLogged a (returned ms) b r h s f = finalize-IsLogged o.log_id _ _ _ _ r h s f

  started-IsLogged :
      (a : Agent) (cancel : Bool) (b : Bench) (r : LogRow)
      → get o.log_id b.log ≡ some r
      → r.status ≡ "started"
      → r.finished ≡ false
      → IsLogged o.log_id (started o c a cancel b)
  unfolding ended
  started-IsLogged a true b r h s f = finalize-IsLogged o.log_id _ 0 0 b r h s f
  started-IsLogged a false b r h s f = after_run-IsLogged a o.run (run_worker o c b) r h s f

  module _ (builds : o.build_error ≡ none) (before : Bench) where
    abbrev Ends : Envelope × Bench → Type 0
    Ends result = IsRefused before result ⊎ IsLogged o.log_id result

    allowed-Ends :
        (a : Agent) (missing : Bool) (b : Bench)
        → b.log ≡ before.log
        → b.world.messages ≡ before.world.messages
        → Ends (allowed o c a missing b)
    allowed-Ends a true b same_log same_messages = inl (same_log, same_messages)
    allowed-Ends a false b same_log same_messages = inr (
        subst (λ error. IsLogged o.log_id (built o c a error (logged o c a b))) (sym builds)
          (started-IsLogged a o.cancel_is_set (logged o c a b) (started_row c a)
            (get-put_self o.log_id (started_row c a) b.log) refl refl))

    gated-Ends :
        (a : Agent) (spec : Option ActionSpec) (b : Bench)
        → b.log ≡ before.log
        → b.world.messages ≡ before.world.messages
        → Ends (gated o c a spec b)
    gated-Ends a none b same_log same_messages = inl (same_log, same_messages)
    gated-Ends a (some spec) b same_log same_messages = allowed-Ends a _ b same_log same_messages

    resolved-Ends : (r : Resolved) → Ends (resolved o c r before)
    resolved-Ends (worker a) = gated-Ends a (action_spec c.action a.advertises) _ refl refl
    resolved-Ends _ = inl (refl, refl)

    checked-Ends : (r : Option Refusal) → Ends (checked o c r before)
    checked-Ends (some r) = inl (refl, refl)
    checked-Ends none = resolved-Ends (resolve_worker o.read_id before.agents c.worker_ref)

  -- Where the worker's executor can be built, a call of a worker either is refused and writes neither
  -- the log nor a message, or ends, whatever its run does, with its row of the log in one of two
  -- forms: finished and holding the status of the envelope that it returns, where the log takes that
  -- status; still "started" and not finished, where it does not, as it does not take "cancelled".
  pub invoke_closes :
      (b : Bench)
      → o.build_error ≡ none
      → IsRefused b (invoke_worker o c b) ⊎ IsLogged o.log_id (invoke_worker o c b)
  unfolding invoke_worker
  invoke_closes b builds =
      checked-Ends builds b (
        precheck_invocation c.call_stack c.clarification_round c.super_id o.max_nesting
          o.max_rounds)

  -- The row is left as it was written at the start, and the call failed.
  abbrev pub IsLeft : Agent → Envelope × Bench → Type 0
  IsLeft a (e, b) = (get o.log_id b.log ≡ some (started_row c a)) × (e.status ≡ some "failed")

  -- Where the call passes its tests, for an action that needs no approval, and the worker's executor
  -- cannot be built, the call returns a failure, and its row of the log says that it started and is
  -- not finished.
  pub build_failure_stays_started :
      (b : Bench) (a : Agent) (spec : ActionSpec) (message : Text)
      → precheck_invocation c.call_stack c.clarification_round c.super_id o.max_nesting o.max_rounds
        ≡ none
      → resolve_worker o.read_id b.agents c.worker_ref ≡ worker a
      → action_spec c.action a.advertises ≡ some spec
      → spec.requires_approval ≡ false
      → o.build_error ≡ some message
      → IsLeft a (invoke_worker o c b)
  unfolding invoke_worker
  build_failure_stays_started b a spec message passes known offered free fails =
      let resolving = tell c.mission_id "worker_resolve" c.action none b in
      subst (λ r. IsLeft a (checked o c r b)) (sym passes)
        (subst (λ r. IsLeft a (resolved o c r b)) (sym known)
          (subst (λ s. IsLeft a (gated o c a s resolving)) (sym offered)
            (subst
              (λ m.
                IsLeft a
                  (allowed o c a (m && not (is_some (not_empty c.approval_ticket))) resolving))
              (sym free)
              (subst (λ error. IsLeft a (built o c a error (logged o c a resolving))) (sym fails)
                (get-put_self o.log_id (started_row c a) b.log, refl)))))
