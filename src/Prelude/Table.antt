-- ===== src/Prelude/Table.antt =====
-- A database table, or an in-process dictionary, keyed by numbers: rows in the order of insertion.
use Prim.Native.Nat.{ℕ}
use mathlib.Core.Path.{◌≡◌}
use mathlib.Core.Logic.{◌≢◌}
use mathlib.Core.List.{List, [], ◌∷◌}
use mathlib.Core.Bool.{Bool, false, ◌||◌}
use mathlib.Core.Option.{Option, none, some}
use native.Mathlib.Omega.{arith}
use colony_agents.Prelude.Tests.{◌==◌, if◌then◌else◌}

abbrev pub Table {ℓ} : Type ℓ → Type ℓ
Table V = List (ℕ × V)

module _ {ℓ} {V : Type ℓ} where
  -- db.get(Model, k), d.get(k)
  unfoldable pub get : ℕ → Table V → Option V
  get k [] = none
  get k ((j, v) ∷ t) = if j == k then some v else get k t

  -- d[k] = v: a new key comes last.
  unfoldable pub put : ℕ → V → Table V → Table V
  put k v [] = (k, v) ∷ []
  put k v ((j, w) ∷ t) = if j == k then (k, v) ∷ t else (j, w) ∷ put k v t

  -- d.pop(k, None)
  unfoldable pub remove : ℕ → Table V → Table V
  remove k [] = []
  remove k ((j, w) ∷ t) = let rest = remove k t in if j == k then rest else (j, w) ∷ rest

  pub get-put :
      (j k : ℕ) (v : V) (t : Table V) → get j (put k v t) ≡ (if k == j then some v else get j t)
  unfolding get put
  get-put j k v [] = ground arith
  get-put j k v ((i, w) ∷ t) = ground (arith, get-put j k v t)

  pub get-put_self : (k : ℕ) (v : V) (t : Table V) → get k (put k v t) ≡ some v
  get-put_self k v t = ground (arith, get-put k k v t)

  pub get-put_ne : (j k : ℕ) (v : V) (t : Table V) → j ≢ k → get j (put k v t) ≡ get j t
  get-put_ne j k v t h = ground (arith, get-put j k v t)

  pub get-remove : (j k : ℕ) (t : Table V) → get j (remove k t) ≡ (if k == j then none else get j t)
  unfolding get remove
  get-remove j k [] = ground arith
  get-remove j k ((i, w) ∷ t) = ground (arith, get-remove j k t)

-- A Python set of numbers, and a list's `in`.
unfoldable pub member : ℕ → List ℕ → Bool
member k [] = false
member k (j ∷ s) = j == k || member k s

unfoldable pub discard : ℕ → List ℕ → List ℕ
discard k [] = []
discard k (j ∷ s) = let rest = discard k s in if j == k then rest else j ∷ rest

pub member-discard :
    (j k : ℕ) (s : List ℕ) → member j (discard k s) ≡ (if k == j then false else member j s)
unfolding member discard
member-discard j k [] = ground arith
member-discard j k (i ∷ s) = ground (arith, member-discard j k s)
