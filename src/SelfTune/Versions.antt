-- ===== src/SelfTune/Versions.antt =====
-- The version numbers that the tools of backend/app/skills_builtin/builder/self_tune_skills.py give to
-- the rows of an agent's history.
use colony_agents.Prelude.{
  ℕ, suc, ◌-◌, Bool, false, ◌||◌, Option, none, some, is_some, or_else, List, [], ◌∷◌, ◌++◌, any,
  select, length, ltb, leb, ◌==◌, str_eq, ◌≡◌, ◌<◌, refl, arith, subst, sym, inl, inr, Bool-cases,
}
use colony_agents.Prelude.Table.{get, get-put, member}
use colony_agents.SelfTune.{
  quality_gate_pass_rate, day, apply_quota, Tuned, Version, Proposal, Proposing, Shop, rows_of,
  set_rows, max_version, version_row, current_protocol_version, seeded, prune_history, kept_ids,
  sort_desc, retention, is_same, has_pending, factory_row, propose_to, agent_protocol_propose,
}
use colony_agents.SelfTune.Apply.{
  recent_tunes, rows_after, apply_proposal, apply_row, agent_protocol_apply, agent_protocol_revert,
  revert_agent, revert_row,
}

abbrev has_version : ℕ → List Version → Bool
has_version v = any (λ (r : Version). r.version == v)

-- No two rows of a history have one number.
unfoldable pub IsDistinct : List Version → Type 0
IsDistinct [] = Unit
IsDistinct (r ∷ rows) = (has_version r.version rows ≡ false) × IsDistinct rows

-- No two rows of an agent's history have one number.
unfoldable pub IsNumbered : Shop → Type 0
IsNumbered s = (aid : ℕ) → IsDistinct (rows_of aid s)

has_version-append :
    (v : ℕ) (r : Version) (rows : List Version)
    → has_version v (rows ++ (r ∷ [])) ≡ (has_version v rows || (r.version == v))
has_version-append v r [] = ground arith
has_version-append v r (q ∷ rows) = ground (arith, has_version-append v r rows)

append-IsDistinct :
    (r : Version) (rows : List Version)
    → has_version r.version rows ≡ false
    → IsDistinct rows
    → IsDistinct (rows ++ (r ∷ []))
unfolding IsDistinct
append-IsDistinct r [] new h = (refl, tt)
append-IsDistinct r (q ∷ rows) new h = (
  ground (arith, has_version-append q.version r rows, h.0),
  append-IsDistinct r rows (ground arith) h.1,
)

has_version-select :
    (v : ℕ) (p : Version → Bool) (rows : List Version)
    → has_version v rows ≡ false
    → has_version v (select p rows) ≡ false
has_version-select v p [] h = refl
has_version-select v p (r ∷ rows) h = ground (arith, has_version-select v p rows)

select-IsDistinct :
    (p : Version → Bool) (rows : List Version) → IsDistinct rows → IsDistinct (select p rows)
unfolding IsDistinct
select-IsDistinct p [] h = tt
select-IsDistinct p (r ∷ rows) h = elim (Bool-cases (p r)) [
  | inl e ↦ rw e (has_version-select r.version p rows h.0, select-IsDistinct p rows h.1)
  | inr e ↦ rw e (select-IsDistinct p rows h.1)
]

has_version-above :
    (v : ℕ) (rows : List Version) → max_version rows < v → has_version v rows ≡ false
has_version-above v [] h = refl
has_version-above v (r ∷ rows) h = ground (arith, has_version-above v rows)

has_version-version_row :
    (v : ℕ) (rows : List Version)
    → is_some (version_row v rows) ≡ false
    → has_version v rows ≡ false
has_version-version_row v [] h = refl
has_version-version_row v (r ∷ rows) h = ground (arith, has_version-version_row v rows)

prune_history-IsDistinct : (rows : List Version) → IsDistinct rows → IsDistinct (prune_history rows)
unfolding prune_history
prune_history-IsDistinct rows h = elim (Bool-cases (leb (length rows) retention)) [
  | inl e ↦ rw e h
  | inr e ↦ rw e (select-IsDistinct (λ r. member r.id (kept_ids retention (sort_desc rows))) rows h)
]

-- The next version, and what is left of the history behind it.
next-IsDistinct :
    (r : Version) (rows : List Version)
    → r.version ≡ suc (max_version rows)
    → IsDistinct rows
    → IsDistinct (prune_history (rows ++ (r ∷ [])))
next-IsDistinct r rows e h =
    prune_history-IsDistinct (rows ++ (r ∷ []))
      (append-IsDistinct r rows (has_version-above r.version rows (omega (arith, e))) h)

seeded-IsDistinct :
    (id : ℕ) (t : Tuned) (now : ℕ) (rows : List Version)
    → IsDistinct rows
    → IsDistinct (seeded id t now rows)
unfolding seeded
seeded-IsDistinct id t now rows h =
    elim (Bool-cases (ltb 0 (max_version rows) || is_some (version_row 0 rows))) [
      | inl e ↦ rw e h
      | inr e ↦ rw e (
          append-IsDistinct (factory_row id t now) rows
            (has_version-version_row 0 rows (ground arith)) h)
    ]

set_rows-IsNumbered :
    (aid : ℕ) (rows : List Version) (s : Shop)
    → IsDistinct rows
    → IsNumbered s
    → IsNumbered (set_rows aid rows s)
unfolding IsNumbered
set_rows-IsNumbered aid rows s d h j =
    subst (λ q. IsDistinct (or_else q [])) (sym (get-put j aid rows s.history))
      (elim (Bool-cases (aid == j)) [ inl e ↦ rw e d | inr e ↦ rw e (h j) ])

propose-IsNumbered :
    (fresh_id row_id : ℕ) (p : Proposing) (s : Shop) (row : Option Tuned)
    → IsNumbered s
    → IsNumbered (propose_to fresh_id row_id p s row).1
unfolding IsNumbered
propose-IsNumbered fresh_id row_id p s none h = h
propose-IsNumbered fresh_id row_id p s (some t) h =
    let rows = seeded row_id t s.world.clock (rows_of p.agent_id s) in
    let there =
      set_rows-IsNumbered p.agent_id rows s
        (seeded-IsDistinct row_id t s.world.clock (rows_of p.agent_id s) (h p.agent_id)) h in
    elim (Bool-cases (is_same t p.new_soul_md p.new_protocol_md)) [
      | inl e ↦ rw e there
      | inr e ↦ elim (Bool-cases (has_pending p.agent_id s.proposals)) [
        | inl g ↦ rw (e, g) there
        | inr g ↦ rw (e, g) there
      ]
    ]

apply_row-IsNumbered :
    (seed_id id pid : ℕ) (p : Proposal) (row : Option Tuned) (s : Shop)
    → IsNumbered s
    → IsNumbered (apply_row seed_id id pid p row s).1
unfolding IsNumbered
apply_row-IsNumbered seed_id id pid p none s h = h
apply_row-IsNumbered seed_id id pid p (some t) s h =
    let now = s.world.clock in
    let rows = rows_of p.agent_id s in
    set_rows-IsNumbered p.agent_id
      (rows_after seed_id id p t now s.mission_id (quality_gate_pass_rate s.verdicts) rows) s
      (next-IsDistinct _ (seeded seed_id t now rows) refl
        (seeded-IsDistinct seed_id t now rows (h p.agent_id)))
      h

apply_proposal-IsNumbered :
    (seed_id id pid : ℕ) (row : Option Proposal) (s : Shop)
    → IsNumbered s
    → IsNumbered (apply_proposal seed_id id pid row s).1
unfolding IsNumbered
apply_proposal-IsNumbered seed_id id pid none s h = h
apply_proposal-IsNumbered seed_id id pid (some p) s h =
    let quota = recent_tunes (s.world.clock - day) (rows_of p.agent_id s) in
    elim (Bool-cases (str_eq p.status "pending")) [
      | inr e ↦ rw e h
      | inl e ↦ elim (Bool-cases (ltb p.expires_at s.world.clock)) [
        | inl g ↦ rw (e, g) h
        | inr g ↦ elim (Bool-cases (leb apply_quota quota)) [
          | inl k ↦ rw (e, g, k) h
          | inr k ↦
              rw (e, g, k) (apply_row-IsNumbered seed_id id pid p (get p.agent_id s.agents) s h)
        ]
      ]
    ]

revert_row-IsNumbered :
    (id aid target : ℕ) (t : Tuned) (base : Option Version) (s : Shop)
    → IsNumbered s
    → IsNumbered (revert_row id aid target t base s).1
unfolding IsNumbered current_protocol_version
revert_row-IsNumbered id aid target t none s h = h
revert_row-IsNumbered id aid target t (some b) s h =
    let rows = rows_of aid s in set_rows-IsNumbered aid _ s (next-IsDistinct _ rows refl (h aid)) h

revert_agent-IsNumbered :
    (id aid : ℕ) (to_version : Option ℕ) (row : Option Tuned) (s : Shop)
    → IsNumbered s
    → IsNumbered (revert_agent id aid to_version row s).1
revert_agent-IsNumbered id aid to_version none s h = h
revert_agent-IsNumbered id aid to_version (some t) s h =
    let target = or_else to_version (current_protocol_version aid s - 1) in
    revert_row-IsNumbered id aid target t (version_row target (rows_of aid s)) s h

-- Whatever the three tools answer, no two rows of an agent's history have one number afterwards, if
-- none had before: so the query for a version's row finds at most one.
pub tools-IsNumbered :
    (s : Shop)
    → IsNumbered s
    → (seed_id id pid aid : ℕ) (self to_version : Option ℕ) (p : Proposing) (confirmed : Bool)
    → IsNumbered (agent_protocol_propose self id seed_id p s).1
      × IsNumbered (agent_protocol_apply seed_id id pid confirmed s).1
      × IsNumbered (agent_protocol_revert id aid to_version s).1
unfolding agent_protocol_propose agent_protocol_apply agent_protocol_revert
tools-IsNumbered s h seed_id id pid aid self to_version p confirmed =
    let applied_one = apply_proposal-IsNumbered seed_id id pid (get pid s.proposals) s h in
    let proposed = propose-IsNumbered id seed_id p s (get p.agent_id s.agents) h in
    let own : Bool = elim self [ none ↦ false | some a ↦ a == p.agent_id ] in
    (
      elim (Bool-cases own) [ inl e ↦ rw e h | inr e ↦ rw e proposed ],
      elim (Bool-cases confirmed) [ inl e ↦ rw e applied_one | inr e ↦ rw e h ],
      revert_agent-IsNumbered id aid to_version (get aid s.agents) s h,
    )
