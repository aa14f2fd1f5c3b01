-- ===== src/Optimize/Orders.antt =====
-- `spawn_or_attach_work_order` of backend/app/services/worker_optimization_service.py: one open work
-- order for a worker, and whose order a report goes to.
use colony_agents.Prelude.{
  ℕ, Text, codes, Bool, true, false, Option, none, some, List, All, [], ◌∷◌, ◌++◌, find, str_eq,
  leb, ◌==◌, if◌then◌else◌, ◌≡◌, refl, arith, inl, inr, Bool-cases, Option-cases, ==_iff,
}
use colony_agents.Prelude.Table.{Table, get}
use colony_agents.Prelude.Dict.{Dict}
use colony_agents.World.{World, Mission, MetaValue}
use colony_agents.Messages.{append_message}
use colony_agents.Queue
use colony_agents.Queue.{enqueue_user_message, insert_row, count_pending}
use colony_agents.Optimize.{
  work_order_capability, wo_slug_prefix, is_open_like, open_order, new_order, Drawn, report_to,
  insert_mission, spawn_or_attach_work_order,
}
use colony_agents.Optimize.Slugs.{order_slug_like}

-- A row of `agent` that is not archived, for the given worker.
unfoldable pub IsOpenFor : ℕ → Text → Option Mission → Type 0
IsOpenFor agent capability none = ⊥
IsOpenFor agent capability (some m) =
    (m.supervisor_agent_id ≡ some agent)
    × (str_eq m.status "archived" ≡ false)
    × (work_order_capability m ≡ capability)
    × ((tag : Text) × (m.slug ≡ wo_slug_prefix capability ++ (codes "-" ++ tag)))

-- An agent has at most one open work order for a worker.
unfoldable pub IsSingle : ℕ → World → Type 0
IsSingle agent w =
    (capability : Text) (j k : ℕ)
    → IsOpenFor agent capability (get j w.missions)
    → IsOpenFor agent capability (get k w.missions)
    → j ≡ k

module _ (o : Queue.Outside) (max_pending max_content_kb : ℕ) where
  enqueue-missions :
      (pid agent : ℕ) (content : Text) (meta : Dict MetaValue) (w : World)
      → (enqueue_user_message o pid agent content meta max_pending max_content_kb w).1.missions
        ≡ w.missions
  unfolding enqueue_user_message insert_row
  enqueue-missions pid agent content meta w =
      elim (Bool-cases (leb max_pending (count_pending pid w))) [
        | inl e ↦ rw e refl
        | inr e ↦ rw e refl
      ]

  report-missions :
      (pid agent : ℕ) (capability worker_agent_id report : Text) (w : World)
      → (report_to o max_pending max_content_kb pid agent capability worker_agent_id report
          w).missions
        ≡ w.missions
  unfolding append_message
  report-missions pid agent capability worker_agent_id report w =
      enqueue-missions pid agent report _ (append_message pid "main" "user" report _ w)

get-insert :
    (j id : ℕ) (m : Mission) (t : Table Mission)
    → get id t ≡ none
    → get j (t ++ ((id, m) ∷ [])) ≡ (if id == j then some m else get j t)
unfolding get
get-insert j id m [] h = refl
get-insert j id m ((i, n) ∷ t) h = elim (Bool-cases (i == id)) [
  | inl e ↦ let bad : some n ≡ none = rw e at h in cc
  | inr e ↦
      let rest : get id t ≡ none = rw e at h in
      rw (get-insert j id m t rest) (elim (Bool-cases (id == j)) [
        | inl s ↦ let other : (i == j) ≡ false = rw ((==_iff id j).0 s) at e in rw (s, other) refl
        | inr s ↦ rw s refl
      ])
]

find-none-get :
    (p : ℕ × Mission → Bool) (k : ℕ) (n : Mission) (t : Table Mission)
    → find p t ≡ none
    → get k t ≡ some n
    → p (k, n) ≡ false
unfolding get
find-none-get p k n [] h e = cc
find-none-get p k n ((i, m) ∷ t) h e = elim (Bool-cases (p (i, m))) [
  | inl y ↦ let bad : ◌≡◌ {A = Option (ℕ × Mission)} (some (i, m)) none = rw y at h in cc
  | inr y ↦
      let rest : find p t ≡ none = rw y at h in
      elim (Bool-cases (i == k)) [
        | inl s ↦
            let same : some m ≡ some n = rw s at e in
            let eq : m ≡ n = ground (arith, same) in rw (← (==_iff i k).0 s, ← eq) y
        | inr d ↦ find-none-get p k n t rest (rw d at e)
      ]
]

find-append_none {ℓ} :
    {A : Type ℓ} (p : A → Bool) (x : A) (older newer : List A)
    → All (λ y. p y ≡ false) older
    → p x ≡ true
    → find p (older ++ (x ∷ newer)) ≡ some x
find-append_none p x [] newer h e = rw e refl
find-append_none p x (y ∷ older) newer h e = rw h.0 (find-append_none p x older newer h.1 e)

module _ (agent : ℕ) (capability : Text) (w : World)
    (none_open : open_order agent capability w ≡ none) where
  -- Where no open work order for the worker is found, none is there.
  none_open_for : (j : ℕ) → IsOpenFor agent capability (get j w.missions) → ⊥
  unfolding open_order IsOpenFor is_open_like
  none_open_for j h = elim (Option-cases (get j w.missions)) [
    | inl e ↦ rw e at h
    | inr (m, e) ↦
        let (sup, open_status, for_it, (tag, slug)) = rw e at h in
        let missed =
          find-none-get (λ row. is_open_like agent (wo_slug_prefix capability ++ codes "-%") row.1)
            j m w.missions none_open e in
        let own : (agent == agent) ≡ true = ground arith in
        let bad : true ≡ false =
          rw (sup, slug, order_slug_like capability tag, open_status, own) at missed in
        cc
  ]

module _ (o : Queue.Outside) (max_pending max_content_kb agent : ℕ)
    (capability worker_agent_id report : Text) (drawn : Drawn) (w : World) where
  abbrev after_spawn : World
  after_spawn =
      (spawn_or_attach_work_order o max_pending max_content_kb agent capability worker_agent_id
        report drawn w).1

  -- The mission that a report goes to, where an open work order is found: it is the oldest one, and
  -- no mission is added.
  attached_missions :
      (pid : ℕ) (m : Mission)
      → open_order agent capability w ≡ some (pid, m)
      → after_spawn.missions ≡ w.missions
  unfolding spawn_or_attach_work_order
  attached_missions pid m e =
      rw (e, after_spawn, spawn_or_attach_work_order)
        (report-missions o max_pending max_content_kb pid agent capability worker_agent_id report w)

  spawned_missions :
      (j : ℕ)
      → open_order agent capability w ≡ none
      → get drawn.id w.missions ≡ none
      → get j after_spawn.missions ≡ (
          if drawn.id == j
          then some (new_order agent capability worker_agent_id drawn.tag)
          else get j w.missions)
  unfolding spawn_or_attach_work_order
  spawned_missions j e fresh =
      rw
        (
          e,
          after_spawn,
          spawn_or_attach_work_order,
          report-missions o max_pending max_content_kb drawn.id agent capability worker_agent_id
              report
              (insert_mission drawn.id (new_order agent capability worker_agent_id drawn.tag) w),
        )
        (get-insert j drawn.id _ w.missions fresh)

  new_order_for :
      (c : Text)
      → IsOpenFor agent c (some (new_order agent capability worker_agent_id drawn.tag))
      → capability ≡ c
  unfolding IsOpenFor new_order work_order_capability
  new_order_for c (sup, open_status, for_it, slug) = for_it

  new_is_first :
      (c : Text) (j : ℕ)
      → open_order agent capability w ≡ none
      → IsOpenFor agent c (some (new_order agent capability worker_agent_id drawn.tag))
      → IsOpenFor agent c (get j w.missions)
      → ⊥
  new_is_first c j e h old = none_open_for agent capability w e j (rw (← new_order_for c h) at old)

  -- If an agent has at most one open work order for each worker, and the new mission's id is not
  -- taken, it has at most one after a report is spawned or attached.
  pub spawn-IsSingle :
      get drawn.id w.missions ≡ none → IsSingle agent w → IsSingle agent after_spawn
  unfolding IsSingle
  spawn-IsSingle fresh single c j k hj hk = elim (Option-cases (open_order agent capability w)) [
    | inr ((pid, m), e) ↦
        let same = attached_missions pid m e in single c j k (rw same at hj) (rw same at hk)
    | inl e ↦
        let pj = rw (spawned_missions j e fresh) at hj in
        let pk = rw (spawned_missions k e fresh) at hk in
        elim (Bool-cases (drawn.id == j)) [
          | inl sj ↦ elim (Bool-cases (drawn.id == k)) [
            | inl sk ↦ ground (arith, sj, sk)
            | inr sk ↦ absurd (new_is_first c k e (rw sj at pj) (rw sk at pk))
          ]
          | inr sj ↦ elim (Bool-cases (drawn.id == k)) [
            | inl sk ↦ absurd (new_is_first c j e (rw sk at pk) (rw sj at pj))
            | inr sk ↦ single c j k (rw sj at pj) (rw sk at pk)
          ]
        ]
  ]

  -- A report for a worker is attached to the oldest of the agent's missions that are not archived and
  -- whose slug is like the worker's prefix followed by a dash, whatever worker that mission is for and
  -- whatever missions are older, and no mission is added.
  pub attaches_to_prefix :
      (pid : ℕ) (m : Mission) (older newer : Table Mission) (tail : Text)
      → w.missions ≡ older ++ ((pid, m) ∷ newer)
      → All
          (λ (row : ℕ × Mission).
            is_open_like agent (wo_slug_prefix capability ++ codes "-%") row.1 ≡ false)
          older
      → m.supervisor_agent_id ≡ some agent
      → str_eq m.status "archived" ≡ false
      → m.slug ≡ wo_slug_prefix capability ++ (codes "-" ++ tail)
      → ((spawn_or_attach_work_order o max_pending max_content_kb agent capability worker_agent_id
            report drawn w).0
          ≡ (pid, false))
        × (after_spawn.missions ≡ w.missions)
  unfolding is_open_like open_order spawn_or_attach_work_order
  attaches_to_prefix pid m older newer tail rows closed sup open_status slug =
      let own : (agent == agent) ≡ true = ground arith in
      let liked : is_open_like agent (wo_slug_prefix capability ++ codes "-%") m ≡ true =
        rw (is_open_like, sup, slug, order_slug_like capability tail, open_status, own) refl in
      let found : open_order agent capability w ≡ some (pid, m) =
        rw (open_order, rows)
          (find-append_none
            (λ row. is_open_like agent (wo_slug_prefix capability ++ codes "-%") row.1) (pid, m)
            older newer closed liked) in
      (rw (spawn_or_attach_work_order, found) refl, attached_missions pid m found)
