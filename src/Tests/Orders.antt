-- ===== src/Tests/Orders.antt =====
-- Work orders: one for the worker `data-fetcher`, a mission that waits for it, and an idle one.
use colony_agents.Prelude.{
  ℕ, Text, sym, ◌∙◌, inl, inr, Bool-cases, ==_iff, ◌==◌, codes, true, false, some, [], ◌∷◌, ◌≡◌,
  refl,
}
use colony_agents.Prelude.Table.{get}
use colony_agents.World.{World, Mission, lifecycle}
use colony_agents.Optimize.{
  Desk, Drawn, new_order, wo_slug_prefix, spawn_or_attach_work_order, safe_name, dashed,
  strip_dashes_left, strip_dashes_right, is_open_like, work_order_capability, schedules_of,
}
use colony_agents.Prelude.Like.{like, tokens, matches}
use colony_agents.Optimize.Waiters.{waits_for}
use colony_agents.Optimize.Close.{fixed, close_work_order, maybe_cap_work_order}
use colony_agents.Optimize.Closes.{close_wakes, capped_once}
use colony_agents.Optimize.Orders.{IsSingle, spawn-IsSingle, attaches_to_prefix, IsOpenFor}
use colony_agents.Tests.Samples.{sample, runner, idle, upload_fails}

prefix_runs : wo_slug_prefix (codes "Data_Fetcher!") ≡ codes "wo-data-fetcher"
unfolding wo_slug_prefix safe_name dashed strip_dashes_left strip_dashes_right
prefix_runs = refl

like_runs : like (codes "a_c%") (codes "abcde") ≡ true
unfolding like tokens matches
like_runs = refl

abbrev order : Mission
order = new_order 7 (codes "data-fetcher") (codes "w1") (codes "0a1b2c3d")

abbrev waiting : Mission
waiting = record runner {
  lifecycle_status = "paused_waiting_capability";
  paused_reason = some (codes "worker_issue:data-fetcher: broken");
}

abbrev desk : Desk
desk = record {
  schedules = [];
  world = record sample { missions = (1, order) ∷ (2, waiting) ∷ (3, idle) ∷ [] };
}

close_wakes_example :
    (lifecycle 2 (close_work_order 1 fixed desk).1.world ≡ "running")
    × (schedules_of 1 (close_work_order 1 fixed desk).1.schedules ≡ [])
unfolding get work_order_capability new_order waits_for like tokens matches
close_wakes_example = close_wakes 1 fixed desk order refl refl 2

capped_now : (maybe_cap_work_order 1 12 12 desk).0 ≡ true
unfolding maybe_cap_work_order get work_order_capability new_order
capped_now = refl

capped_once_example :
    maybe_cap_work_order 1 13 12 (maybe_cap_work_order 1 12 12 desk).1
    ≡ (false, (maybe_cap_work_order 1 12 12 desk).1)
capped_once_example = capped_once 1 12 12 desk 13 12 capped_now

abbrev drawn : Drawn
drawn = record { id = 9; tag = codes "ffffffff" }

abbrev one_order : World
one_order = record sample { missions = (1, order) ∷ [] }

only_order : (c : Text) (j : ℕ) → IsOpenFor 7 c (get j one_order.missions) → 1 ≡ j
unfolding get IsOpenFor
only_order c j h = elim (Bool-cases (1 == j)) [
  | inl e ↦ (==_iff 1 j).0 e
  | inr e ↦ absurd (rw e at h)
]

one_order-IsSingle : IsSingle 7 one_order
unfolding IsSingle
one_order-IsSingle c j k hj hk = sym (only_order c j hj) ∙ only_order c k hk

-- The report opens a second order, for another worker.
spawn-IsSingle_example :
    IsSingle 7
      (spawn_or_attach_work_order upload_fails 100 20 7
        (codes "poster")
        (codes "w2")
        (codes "slow")
        drawn
        one_order).1
unfolding get
spawn-IsSingle_example =
    spawn-IsSingle upload_fails 100 20 7 (codes "poster") (codes "w2") (codes "slow") drawn
      one_order refl one_order-IsSingle

-- A mission of the agent is older than its order for `data-fetcher`.
abbrev older_first : World
older_first = record sample { missions = (3, idle) ∷ (1, order) ∷ (2, waiting) ∷ [] }

attaches_to_prefix_example :
    let (res, w') =
      spawn_or_attach_work_order upload_fails 100 20 7
        (codes "data")
        (codes "w2")
        (codes "slow")
        drawn
        older_first in
    (res ≡ (1, false)) × (w'.missions ≡ older_first.missions)
unfolding new_order wo_slug_prefix safe_name dashed strip_dashes_left strip_dashes_right
    is_open_like like tokens matches
attaches_to_prefix_example =
    attaches_to_prefix upload_fails 100 20 7 (codes "data") (codes "w2") (codes "slow") drawn
      older_first 1 order ((3, idle) ∷ []) ((2, waiting) ∷ []) (codes "fetcher-0a1b2c3d") refl
      (refl, tt) refl refl refl
