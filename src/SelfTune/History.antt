-- ===== src/SelfTune/History.antt =====
-- The rows of an agent's history under `_prune_history` and a row that is appended.
use colony_agents.Prelude.{
  ℕ, zero, suc, max, Bool, true, false, not, ◌&&◌, ◌||◌, some, List, [], ◌∷◌, ◌++◌, all, any,
  select, length, ltb, leb, ◌==◌, ◌≡◌, ◌≤◌, ◌<◌, refl, sym, ◌∙◌, arith, inl, inr, Bool-cases,
}
use colony_agents.Prelude.Table.{member}
use colony_agents.SelfTune.{
  Version, retention, max_version, version_row, insert_desc, sort_desc, is_protected, add_if,
  kept_ids, prune_history,
}

pub max_version-append :
    (xs ys : List Version) → max_version (xs ++ ys) ≡ max (max_version xs) (max_version ys)
max_version-append [] ys = ground arith
max_version-append (r ∷ xs) ys = ground (arith, max_version-append xs ys)

pub version_row-append :
    (v : ℕ) (b : Version) (xs ys : List Version)
    → version_row v xs ≡ some b
    → version_row v (xs ++ ys) ≡ some b
version_row-append v b [] ys h = cc
version_row-append v b (r ∷ xs) ys h = elim (Bool-cases (r.version == v)) [
  | inl e ↦ rw e (rw e at h)
  | inr e ↦ rw e (version_row-append v b xs ys (rw e at h))
]

pub short-prune_history :
    (rows : List Version) → length rows ≤ retention → prune_history rows ≡ rows
unfolding prune_history
short-prune_history rows h = ground arith

-- A row's version, or 0 of no row.
abbrev top : List Version → ℕ
top [] = 0
top (r ∷ rows) = r.version

top-insert_desc :
    (r : Version) (rows : List Version) → top (insert_desc r rows) ≡ max r.version (top rows)
top-insert_desc r [] = ground arith
top-insert_desc r (q ∷ rows) = elim (Bool-cases (ltb q.version r.version)) [
  | inl e ↦ rw e (ground arith)
  | inr e ↦ rw e (ground arith)
]

top-sort_desc : (rows : List Version) → top (sort_desc rows) ≡ max_version rows
top-sort_desc [] = refl
top-sort_desc (r ∷ rows) = rw (top-insert_desc r (sort_desc rows), top-sort_desc rows) refl

and_swap : (a b c : Bool) → (a && (b && c)) ≡ (b && (a && c))
and_swap a b c = ground arith

or_swap : (a b c : Bool) → (a || (b || c)) ≡ (b || (a || c))
or_swap a b c = ground arith

module _ (p : Version → Bool) where
  all-insert_desc :
      (r : Version) (rows : List Version) → all p (insert_desc r rows) ≡ (p r && all p rows)
  all-insert_desc r [] = refl
  all-insert_desc r (q ∷ rows) = elim (Bool-cases (ltb q.version r.version)) [
    | inl e ↦ rw e refl
    | inr e ↦ rw (e, all-insert_desc r rows) (and_swap (p q) (p r) (all p rows))
  ]

  all-sort_desc : (rows : List Version) → all p (sort_desc rows) ≡ all p rows
  all-sort_desc [] = refl
  all-sort_desc (r ∷ rows) = rw (all-insert_desc r (sort_desc rows), all-sort_desc rows) refl

  any-insert_desc :
      (r : Version) (rows : List Version) → any p (insert_desc r rows) ≡ (p r || any p rows)
  any-insert_desc r [] = refl
  any-insert_desc r (q ∷ rows) = elim (Bool-cases (ltb q.version r.version)) [
    | inl e ↦ rw e refl
    | inr e ↦ rw (e, any-insert_desc r rows) (or_swap (p q) (p r) (any p rows))
  ]

  any-sort_desc : (rows : List Version) → any p (sort_desc rows) ≡ any p rows
  any-sort_desc [] = refl
  any-sort_desc (r ∷ rows) = rw (any-insert_desc r (sort_desc rows), any-sort_desc rows) refl

-- A protected row's id is among the given ones.
abbrev stays : List ℕ → Version → Bool
stays kept r = not (is_protected r) || member r.id kept

all-stays-more :
    (k : ℕ) (kept : List ℕ) (rows : List Version)
    → all (stays kept) rows ≡ true
    → all (stays (k ∷ kept)) rows ≡ true
unfolding member
all-stays-more k kept [] h = refl
all-stays-more k kept (r ∷ rows) h = ground (arith, all-stays-more k kept rows)

all-stays-add_if :
    (b : Bool) (k : ℕ) (kept : List ℕ) (rows : List Version)
    → all (stays kept) rows ≡ true
    → all (stays (add_if b k kept)) rows ≡ true
all-stays-add_if true k kept rows h = all-stays-more k kept rows h
all-stays-add_if false k kept rows h = h

member-add_if : (b : Bool) (k : ℕ) (kept : List ℕ) → (not b || member k (add_if b k kept)) ≡ true
unfolding member
member-add_if true k kept = ground arith
member-add_if false k kept = refl

all-stays-kept_ids : (room : ℕ) (rows : List Version) → all (stays (kept_ids room rows)) rows ≡ true
unfolding kept_ids member
all-stays-kept_ids room [] = refl
all-stays-kept_ids zero (r ∷ rows) =
    rw
      (
        member-add_if (is_protected r) r.id (kept_ids zero rows),
        all-stays-add_if (is_protected r) r.id (kept_ids zero rows) rows
            (all-stays-kept_ids zero rows),
      )
      refl
all-stays-kept_ids (suc room) (r ∷ rows) =
    let rest = all-stays-more r.id (kept_ids room rows) rows (all-stays-kept_ids room rows) in
    ground (arith, rest)

select_both :
    (p q : Version → Bool) (rows : List Version)
    → all (λ r. not (p r) || q r) rows ≡ true
    → select p (select q rows) ≡ select p rows
select_both p q [] h = refl
select_both p q (r ∷ rows) h = ground (arith, select_both p q rows)

-- The newest row is kept.
any-kept_ids :
    (room : ℕ) (rows : List Version) (r : Version)
    → any
        (λ (q : Version).
          q.version == top (r ∷ rows) && member q.id (kept_ids (suc room) (r ∷ rows)))
        (r ∷ rows)
      ≡ true
unfolding kept_ids member
any-kept_ids room rows r = ground arith

max_version-select-le :
    (q : Version → Bool) (rows : List Version) → max_version (select q rows) ≤ max_version rows
max_version-select-le q [] = omega arith
max_version-select-le q (r ∷ rows) = ground (arith, max_version-select-le q rows)

le-max_version-select :
    (v : ℕ) (q : Version → Bool) (rows : List Version)
    → any (λ (r : Version). r.version == v && q r) rows ≡ true
    → v ≤ max_version (select q rows)
le-max_version-select v q [] h = cc
le-max_version-select v q (r ∷ rows) h = ground (arith, le-max_version-select v q rows)

any-top :
    (xs : List Version)
    → any (λ (q : Version). true) xs ≡ true
    → any (λ (q : Version). q.version == top xs && member q.id (kept_ids retention xs)) xs ≡ true
any-top [] h = cc
any-top (r ∷ rows) h = any-kept_ids 19 rows r

any_some : (rows : List Version) → 0 < length rows → any (λ (q : Version). true) rows ≡ true
any_some [] h = absurd (omega arith)
any_some (r ∷ rows) h = refl

-- Pruning keeps every row of the factory and of an administrator, in their order, and the newest
-- version: the next one is never a number that was given before.
pub prune_history-protected :
    (rows : List Version)
    → (select is_protected (prune_history rows) ≡ select is_protected rows)
      × (max_version (prune_history rows) ≡ max_version rows)
unfolding prune_history
prune_history-protected rows = elim (Bool-cases (leb (length rows) retention)) [
  | inl e ↦ rw e (refl, refl)
  | inr e ↦
      let kept = kept_ids retention (sort_desc rows) in
      let by_kind : all (stays kept) rows ≡ true =
        sym (all-sort_desc (stays kept) rows) ∙ all-stays-kept_ids retention (sort_desc rows) in
      let there : any (λ (q : Version). true) (sort_desc rows) ≡ true =
        any-sort_desc (λ q. true) rows ∙ any_some rows (ground arith) in
      let newest : any (λ (q : Version). q.version == top (sort_desc rows) && member q.id kept) rows
          ≡ true =
        sym (any-sort_desc (λ q. q.version == top (sort_desc rows) && member q.id kept) rows)
        ∙ any-top (sort_desc rows) there in
      let least =
        le-max_version-select (top (sort_desc rows)) (λ q. member q.id kept) rows newest in
      let most = max_version-select-le (λ q. member q.id kept) rows in
      let largest = top-sort_desc rows in
      rw e (select_both is_protected (λ q. member q.id kept) rows by_kind, omega arith)
]
