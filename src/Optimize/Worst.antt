-- ===== src/Optimize/Worst.antt =====
-- The order of `scan_worker_health` of backend/app/domain/optimization/health_scan.py.
use colony_agents.Prelude.{
  true, false, List, [], ◌∷◌, All, ltb, ◌≡◌, ◌≤◌, arith, inl, inr, Bool-cases,
}
use colony_agents.Prelude.Float.{Floats}
use colony_agents.Optimize.Decide.{
  WorkerHealthInput, WorkerHealthThresholds, WorkerHealthCandidate, is_candidate, candidates,
  detect_regression, insert_by_rate, sort_by_rate, scan_worker_health,
}

-- The order of floating-point numbers that are no NaN.
unfoldable pub IsOrder : Floats → Type 0
IsOrder F =
    ((x y : F.Float) → F.less x y ≡ true → F.less y x ≡ false)
    × ((x y z : F.Float) → F.less y x ≡ false → F.less z y ≡ false → F.less z x ≡ false)

module _ (F : Floats) where
  unfoldable pub IsWorstFirst : List (WorkerHealthCandidate F) → Type 0
  IsWorstFirst [] = Unit
  IsWorstFirst (c ∷ cs) =
      All (λ (d : WorkerHealthCandidate F). F.less d.success_rate c.success_rate ≡ false) cs
      × IsWorstFirst cs

  module _ (order : IsOrder F) where
    All-above :
        (c d : WorkerHealthCandidate F) (cs : List (WorkerHealthCandidate F))
        → F.less d.success_rate c.success_rate ≡ false
        → All (λ (e : WorkerHealthCandidate F). F.less e.success_rate d.success_rate ≡ false) cs
        → All (λ (e : WorkerHealthCandidate F). F.less e.success_rate c.success_rate ≡ false) cs
    unfolding IsOrder
    All-above c d [] h hs = tt
    All-above c d (e ∷ cs) h hs =
        (order.1 c.success_rate d.success_rate e.success_rate h hs.0, All-above c d cs h hs.1)

    All-insert_by_rate {κ} :
        (P : WorkerHealthCandidate F → Type κ) (c : WorkerHealthCandidate F)
        (cs : List (WorkerHealthCandidate F))
        → P c
        → All P cs
        → All P (insert_by_rate F c cs)
    All-insert_by_rate P c [] h hs = (h, tt)
    All-insert_by_rate P c (d ∷ cs) h hs =
        elim (Bool-cases (F.less d.success_rate c.success_rate)) [
          | inl e ↦ rw e (hs.0, All-insert_by_rate P c cs h hs.1)
          | inr e ↦ rw e (h, hs)
        ]

    insert_by_rate-IsWorstFirst :
        (c : WorkerHealthCandidate F) (cs : List (WorkerHealthCandidate F))
        → IsWorstFirst cs
        → IsWorstFirst (insert_by_rate F c cs)
    unfolding IsWorstFirst IsOrder
    insert_by_rate-IsWorstFirst c [] h = (tt, tt)
    insert_by_rate-IsWorstFirst c (d ∷ cs) h =
        elim (Bool-cases (F.less d.success_rate c.success_rate)) [
          | inl e ↦
              let after = order.0 d.success_rate c.success_rate e in
              rw e (
                All-insert_by_rate
                    (λ (x : WorkerHealthCandidate F). F.less x.success_rate d.success_rate ≡ false)
                    c cs after h.0,
                insert_by_rate-IsWorstFirst c cs h.1,
              )
          | inr e ↦ rw e ((e, All-above c d cs e h.0), h)
        ]

    sort_by_rate-IsWorstFirst :
        (cs : List (WorkerHealthCandidate F)) → IsWorstFirst (sort_by_rate F cs)
    unfolding IsWorstFirst
    sort_by_rate-IsWorstFirst [] = tt
    sort_by_rate-IsWorstFirst (c ∷ cs) =
        insert_by_rate-IsWorstFirst c (sort_by_rate F cs) (sort_by_rate-IsWorstFirst cs)

    All-sort_by_rate {κ} :
        (P : WorkerHealthCandidate F → Type κ) (cs : List (WorkerHealthCandidate F))
        → All P cs
        → All P (sort_by_rate F cs)
    All-sort_by_rate P [] h = tt
    All-sort_by_rate P (c ∷ cs) h =
        All-insert_by_rate P c (sort_by_rate F cs) h.0 (All-sort_by_rate P cs h.1)

    All-candidates :
        (t : WorkerHealthThresholds F) (inputs : List WorkerHealthInput)
        → All (λ (c : WorkerHealthCandidate F). t.min_samples ≤ c.total) (candidates F t inputs)
    unfolding detect_regression
    All-candidates t [] = tt
    All-candidates t (w ∷ inputs) = elim (Bool-cases (ltb w.total t.min_samples)) [
      | inl few ↦ rw few (All-candidates t inputs)
      | inr many ↦
          let enough : t.min_samples ≤ w.total = ground (arith, many) in
          elim (Bool-cases (is_candidate F t w)) [
            | inl e ↦ rw e (enough, All-candidates t inputs)
            | inr e ↦ rw e (All-candidates t inputs)
          ]
    ]

    -- The workers that a scan finds come in the order of their rates, the worst first, and each of them
    -- has at least min_samples calls.
    pub scan-IsWorstFirst :
        (inputs : List WorkerHealthInput) (t : WorkerHealthThresholds F)
        → IsWorstFirst (scan_worker_health F inputs t)
          × All
              (λ (c : WorkerHealthCandidate F). t.min_samples ≤ c.total)
              (scan_worker_health F inputs t)
    unfolding scan_worker_health
    scan-IsWorstFirst inputs t = (
      sort_by_rate-IsWorstFirst (candidates F t inputs),
      All-sort_by_rate (λ (c : WorkerHealthCandidate F). t.min_samples ≤ c.total)
          (candidates F t inputs) (All-candidates t inputs),
    )
