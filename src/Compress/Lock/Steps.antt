-- ===== src/Compress/Lock/Steps.antt =====
-- Any sequence of the steps of the compression lock of backend/app/services/compression_service.py.
use colony_agents.Prelude.{
  ℕ, ◌+◌, ◌≤◌, ◌<◌, Text, Bool, true, false, Option, none, some, leb, ltb, ltb→lt, ◌≡◌, refl, sym,
  subst, arith, inl, inr, Bool-cases, or_else, ◌∙◌,
}
use colony_agents.Compress.Lock.{
  State, Guard, new_state, enter, ensure_state_row, can_take, take_row, take, start_task, leave,
  reported, report, report_fails, call_back, restart,
}

-- A step of one of the calls or tasks that are so far, in any order.
pub data Step : Guard → Guard → Type 0 where
  enters : (g : Guard) → Step g (enter g).1
  ensures : (g : Guard) → 0 < g.entered → Step g (ensure_state_row g)
  takes : (g : Guard) → 0 < g.ready → Step g (take g).1
  starts : (g : Guard) → 0 < g.taken → Step g (start_task g)
  leaves : (g : Guard) → 0 < g.tasks → Step g (leave g)
  reports : (error : Option Text) (g : Guard) → 0 < g.ending → Step g (report error g)
  loses : (g : Guard) → 0 < g.ending → Step g (report_fails g)
  calls_back : (g : Guard) → 0 < g.ended → Step g (call_back g)
  restarted : (g : Guard) → Step g (restart g)

pub data Reach (g : Guard) : Guard → Type 0 where
  here : Reach g g
  then_step : {h k : Guard} → Reach g h → Step h k → Reach g k

abbrev pub fresh : Guard
fresh = restart (record {
  state = none;
  local = false;
  entered = 0;
  ready = 0;
  taken = 0;
  tasks = 0;
  ending = 0;
  ended = 0;
})

abbrev in_progress : Option State → Bool
in_progress none = false
in_progress (some s) = s.compression_in_progress

-- The calls and tasks between setting the flag and clearing it.
abbrev held : Guard → ℕ
held g = g.taken + g.tasks + g.ending

-- At most one holds the flag, and while one does, the row says so.
pub record IsLocked (g : Guard) : Type 0 where
  pub one_holds : held g ≤ 1
  pub stored : 0 < held g → in_progress g.state ≡ true

none_holds-IsLocked : (g : Guard) → held g ≡ 0 → IsLocked g
none_holds-IsLocked g e = record {
  one_holds = omega (arith, e);
  stored = λ h. absurd (omega (arith, e, h));
}

-- The holders and the row are as they were.
same-IsLocked :
    (g h : Guard)
    → held h ≡ held g
    → in_progress h.state ≡ in_progress g.state
    → IsLocked g
    → IsLocked h
same-IsLocked g h counts rows l = record {
  one_holds = omega (arith, counts, l.one_holds);
  stored = λ some_hold. rw rows (l.stored (omega (arith, counts, some_hold)));
}

in_progress-ensured : (q : Option State) → in_progress (some (or_else q new_state)) ≡ in_progress q
in_progress-ensured none = refl
in_progress-ensured (some s) = refl

free-can_take : (s : State) → can_take s ≡ true → s.compression_in_progress ≡ false
unfolding can_take
free-can_take s h = ground (arith, h)

take_row-IsLocked :
    (g : Guard) (q : Option State) → g.state ≡ q → IsLocked g → IsLocked (take_row q g).1
take_row-IsLocked g none row l = same-IsLocked g _ refl refl l
take_row-IsLocked g (some s) row l = elim (Bool-cases (can_take s)) [
  | inr n ↦ rw n (same-IsLocked g _ refl refl l)
  | inl y ↦
      let free = free-can_take s y in
      let none_hold : held g ≡ 0 = elim (Bool-cases (ltb 0 (held g))) [
        | inl some_hold ↦
            let busy : in_progress (some s) ≡ true =
              subst (λ q. in_progress q ≡ true) row (l.stored (ltb→lt 0 (held g) some_hold)) in
            absurd (ground (arith, free, busy))
        | inr idle ↦ ground (arith, idle)
      ] in
      rw y (record { one_holds = omega (arith, none_hold); stored = λ some_hold. refl })
]

Step-IsLocked : {g h : Guard} → Step g h → IsLocked g → IsLocked h
unfolding enter ensure_state_row take start_task leave report report_fails call_back restart
Step-IsLocked (enters g) l = elim (Bool-cases g.local) [
  | inl e ↦ let same : (enter g).1 ≡ g = rw (enter, e) refl in rw same l
  | inr e ↦ rw (enter, e) (same-IsLocked g _ refl refl l)
]
Step-IsLocked (ensures g some_entered) l =
    same-IsLocked g (ensure_state_row g) refl (in_progress-ensured g.state) l
Step-IsLocked (takes g some_ready) l = take_row-IsLocked g g.state refl l
Step-IsLocked (starts g some_taken) l =
    same-IsLocked g (start_task g) (omega (arith, some_taken)) refl l
Step-IsLocked (leaves g some_work) l = same-IsLocked g (leave g) (omega (arith, some_work)) refl l
Step-IsLocked (reports error g some_end) l =
    none_holds-IsLocked (report error g) (omega (arith, some_end, l.one_holds))
Step-IsLocked (loses g some_end) l =
    none_holds-IsLocked (report_fails g) (omega (arith, some_end, l.one_holds))
Step-IsLocked (calls_back g some_ended) l = same-IsLocked g (call_back g) refl refl l
Step-IsLocked (restarted g) l = none_holds-IsLocked (restart g) refl

Reach-IsLocked : {g h : Guard} → Reach g h → IsLocked g → IsLocked h
Reach-IsLocked here l = l
Reach-IsLocked (then_step r s) l = Step-IsLocked s (Reach-IsLocked r l)

fresh-IsLocked : IsLocked fresh
unfolding restart
fresh-IsLocked = none_holds-IsLocked fresh refl

-- However the steps of the calls of schedule_compression_if_needed for a thread, those of their tasks,
-- and new starts of the process interleave, at most one of these tasks is at work; and while one has
-- set the flag and not cleared it, no further call is past the update that sets it.
pub one_compression : (g : Guard) → Reach fresh g → g.taken + g.tasks + g.ending ≤ 1
one_compression g r = (Reach-IsLocked r fresh-IsLocked).one_holds

-- A row that says that a compression runs, while no call and no task holds the flag.
pub record IsStuck (g : Guard) : Type 0 where
  pub none_hold : held g ≡ 0
  pub stays : in_progress g.state ≡ true

take_row-IsStuck :
    (g : Guard) (q : Option State)
    → g.state ≡ q
    → IsStuck g
    → ((take_row q g).0 ≡ false) × IsStuck (take_row q g).1
unfolding can_take
take_row-IsStuck g none row u = (refl, record { none_hold = u.none_hold; stays = u.stays })
take_row-IsStuck g (some s) row u =
    let busy : in_progress (some s) ≡ true = subst (λ q. in_progress q ≡ true) row u.stays in
    let shut : can_take s ≡ false = rw (can_take, busy) refl in
    rw shut (refl, record { none_hold = u.none_hold; stays = u.stays })

Step-IsStuck : {g h : Guard} → Step g h → IsStuck g → IsStuck h
unfolding enter ensure_state_row take call_back restart
Step-IsStuck (enters g) u = elim (Bool-cases g.local) [
  | inl e ↦ let same : (enter g).1 ≡ g = rw (enter, e) refl in rw same u
  | inr e ↦ rw (enter, e) (record { none_hold = u.none_hold; stays = u.stays })
]
Step-IsStuck (ensures g some_entered) u = record {
  none_hold = u.none_hold;
  stays = in_progress-ensured g.state ∙ u.stays;
}
Step-IsStuck (takes g some_ready) u = (take_row-IsStuck g g.state refl u).1
Step-IsStuck (starts g some_taken) u = absurd (omega (arith, u.none_hold, some_taken))
Step-IsStuck (leaves g some_work) u = absurd (omega (arith, u.none_hold, some_work))
Step-IsStuck (reports error g some_end) u = absurd (omega (arith, u.none_hold, some_end))
Step-IsStuck (loses g some_end) u = absurd (omega (arith, u.none_hold, some_end))
Step-IsStuck (calls_back g some_ended) u = record { none_hold = u.none_hold; stays = u.stays }
Step-IsStuck (restarted g) u = record { none_hold = refl; stays = u.stays }

Reach-IsStuck : {g h : Guard} → Reach g h → IsStuck g → IsStuck h
Reach-IsStuck here u = u
Reach-IsStuck (then_step r s) u = Step-IsStuck s (Reach-IsStuck r u)

-- If the process starts anew while a task of schedule_compression_if_needed is at work on a thread, then
-- however its later calls, their tasks and further starts of the process interleave, none of these
-- calls sets the flag, and none of their tasks is at work.
pub restart_blocks :
    (g h : Guard)
    → Reach fresh g
    → 0 < g.tasks
    → Reach (restart g) h
    → ((take h).0 ≡ false) × (h.tasks ≡ 0)
unfolding restart take
restart_blocks g h r some_work later =
    let stuck = Reach-IsStuck later (record {
      none_hold = refl;
      stays = (Reach-IsLocked r fresh-IsLocked).stored (omega (arith, some_work));
    }) in
    ((take_row-IsStuck h h.state refl stuck).0, omega (arith, stuck.none_hold))

-- A row whose compression is disabled.
pub record IsOff (g : Guard) : Type 0 where
  pub row : State
  pub stored : g.state ≡ some row
  pub off : row.compression_disabled ≡ true

take_row-IsOff :
    (g : Guard) (u : IsOff g)
    → ((take_row (some u.row) g).0 ≡ false) × IsOff (take_row (some u.row) g).1
unfolding can_take
take_row-IsOff g u =
    let shut : can_take u.row ≡ false = rw (can_take, u.off) (ground arith) in
    rw shut (refl, record { row = u.row; stored = u.stored; off = u.off })

take-IsOff : (g : Guard) → IsOff g → ((take g).0 ≡ false) × IsOff (take g).1
unfolding take
take-IsOff g u =
    subst (λ q. ((take_row q g).0 ≡ false) × IsOff (take_row q g).1) (sym u.stored)
      (take_row-IsOff g u)

report-IsOff : (error : Option Text) (g : Guard) → IsOff g → IsOff (report error g)
unfolding report reported
report-IsOff none g u = record { row = reported none u.row; stored = rw u.stored refl; off = u.off }
report-IsOff (some error) g u = record {
  row = reported (some error) u.row;
  stored = rw u.stored refl;
  off = rw u.off (ground arith);
}

Step-IsOff : {g h : Guard} → Step g h → IsOff g → IsOff h
unfolding enter ensure_state_row start_task leave report_fails call_back restart
Step-IsOff (enters g) u = elim (Bool-cases g.local) [
  | inl e ↦ let same : (enter g).1 ≡ g = rw (enter, e) refl in rw same u
  | inr e ↦ rw (enter, e) (record { row = u.row; stored = u.stored; off = u.off })
]
Step-IsOff (ensures g some_entered) u = record {
  row = u.row;
  stored = rw u.stored refl;
  off = u.off;
}
Step-IsOff (takes g some_ready) u = (take-IsOff g u).1
Step-IsOff (starts g some_taken) u = record { row = u.row; stored = u.stored; off = u.off }
Step-IsOff (leaves g some_work) u = record { row = u.row; stored = u.stored; off = u.off }
Step-IsOff (reports error g some_end) u = report-IsOff error g u
Step-IsOff (loses g some_end) u = record { row = u.row; stored = u.stored; off = u.off }
Step-IsOff (calls_back g some_ended) u = record { row = u.row; stored = u.stored; off = u.off }
Step-IsOff (restarted g) u = record { row = u.row; stored = u.stored; off = u.off }

Reach-IsOff : {g h : Guard} → Reach g h → IsOff g → IsOff h
Reach-IsOff here u = u
Reach-IsOff (then_step r s) u = Step-IsOff s (Reach-IsOff r u)

-- Where a task reports an error after two or more that failed in a row, no later call sets the flag,
-- whatever happens in between.
pub breaker_stays :
    (error : Text) (s : State) (g h : Guard)
    → g.state ≡ some s
    → 2 ≤ s.consecutive_failures
    → Reach (report (some error) g) h
    → (take h).0 ≡ false
unfolding report reported
breaker_stays error s g h stored twice later =
    let third : leb 3 (s.consecutive_failures + 1) ≡ true = ground (arith, twice) in
    (take-IsOff h (
      Reach-IsOff later
        (record { row = reported (some error) s; stored = rw stored refl; off = rw third refl }))).0
