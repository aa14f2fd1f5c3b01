-- ===== src/Wechat/Intent/Picks.antt =====
-- What backend/app/domain/wechat/intent_parser.py can decide, and for which card.
use colony_agents.Prelude.{
  ℕ, suc, String, Text, Bool, not, ◌&&◌, Option, none, some, List, [], ◌∷◌, find, get_elem?, length,
  last?, strip, lower, contains_any, leb, ◌≡◌, refl, ◌⊎◌, inl, inr, sym, ap, ◌∙◌, arith, Bool-cases,
  Option-cases,
}
use colony_agents.World.{PendingApproval}
use colony_agents.Wechat.Intent.{
  Reply, decide_approval, decides, or_pick, given, first, by_option, by_core, by_head, by_words,
  is_positive, is_negative, pick_for_pending, direct_hits, named, of_named, by_hits, no_hit,
  short_code, fallback_classify, positive_marks, negative_marks,
}

abbrev pub IsIn {ℓ} : {A : Type ℓ} → A → List A → Type ℓ
IsIn x xs = (i : ℕ) × (get_elem? xs i ≡ some x)

module _ {ℓ} {A : Type ℓ} where
  find-IsIn : (p : A → Bool) (xs : List A) (x : A) → find p xs ≡ some x → IsIn x xs
  find-IsIn p [] x h = absurd (ground (arith, h))
  find-IsIn p (y ∷ ys) x h = elim (Bool-cases (p y)) [
    | inl e ↦ (0, rw e at h)
    | inr e ↦ let (i, at) = find-IsIn p ys x (rw e at h) in (suc i, at)
  ]

  last-IsIn : (xs : List A) (x : A) → last? xs ≡ some x → IsIn x xs
  last-IsIn [] x h = absurd (ground (arith, h))
  last-IsIn (y ∷ []) x h = (0, h)
  last-IsIn (y ∷ z ∷ zs) x h = let (i, at) = last-IsIn (z ∷ zs) x h in (suc i, at)

-- Of two picks, the one that is made.
abbrev IsPick : List Text → Option Text → Type 0
IsPick opts pick = (o : Text) → pick ≡ some o → IsIn o opts

or_pick-IsPick :
    (opts : List Text) (a b : Option Text)
    → IsPick opts a
    → IsPick opts b
    → IsPick opts (or_pick a b)
or_pick-IsPick opts none b ha hb = hb
or_pick-IsPick opts (some x) b ha hb = ha

first-IsPick : (opts : List Text) → IsPick opts (first opts)
first-IsPick [] o h = absurd (ground (arith, h))
first-IsPick (x ∷ opts) o h = (0, h)

by_head-IsPick : (opts : List Text) (text : Text) → IsPick opts (by_head opts text)
unfolding by_head
by_head-IsPick opts text o h = elim (Bool-cases (leb 2 (length text))) [
  | inl e ↦ find-IsIn _ opts o (rw e at h)
  | inr e ↦ let bad : none ≡ some o = rw e at h in cc
]

by_words-IsPick : (opts : List Text) (text low : Text) → IsPick opts (by_words opts text low)
unfolding by_words
by_words-IsPick opts text low o h =
    elim (Bool-cases (is_positive text low && not (is_negative text low))) [
      | inl e ↦
          or_pick-IsPick opts (find (contains_any positive_marks) opts) (first opts)
            (find-IsIn (contains_any positive_marks) opts) (first-IsPick opts) o (rw e at h)
      | inr e ↦ elim (Bool-cases (is_negative text low && not (is_positive text low))) [
        | inl n ↦
            or_pick-IsPick opts (find (contains_any negative_marks) opts) (last? opts)
              (find-IsIn (contains_any negative_marks) opts) (last-IsIn opts) o (rw (e, n) at h)
        | inr n ↦ let bad : none ≡ some o = rw (e, n) at h in cc
      ]
    ]

pick_for_pending-IsPick :
    (p : PendingApproval) (text low : Text) → IsPick p.options (pick_for_pending p text low)
unfolding pick_for_pending by_option by_core
pick_for_pending-IsPick p text low =
    or_pick-IsPick p.options (by_option p.options text) _ (find-IsIn _ p.options) (
      or_pick-IsPick p.options (by_core p.options text) _ (find-IsIn _ p.options) (
        or_pick-IsPick p.options (by_head p.options text) _ (by_head-IsPick p.options text)
          (by_words-IsPick p.options text low)))

given_inv : (pick : Option Text) (o : Text) → given pick ≡ some o → pick ≡ some o
given_inv none o h = absurd (ground (arith, h))
given_inv (some []) o h = absurd (ground (arith, h))
given_inv (some (c ∷ cs)) o h = h

decides_inv :
    (p : PendingApproval) (o' o : Text) (rid : String) (r : Reply)
    → decides p o' ≡ decide_approval rid o r
    → (p.request_id ≡ rid) × (o' ≡ o)
decides_inv p o' o rid r h = (cc, cc)

module _ (text low : Text) where
  abbrev pub picked : PendingApproval → Option Text
  picked p = given (pick_for_pending p text low)

  pub direct_hits_cons :
      (p : PendingApproval) (ps : List PendingApproval)
      → direct_hits (p ∷ ps) text low ≡ elim (picked p) [
        | none ↦ direct_hits ps text low
        | some o ↦ (p, o) ∷ direct_hits ps text low
      ]
  unfolding direct_hits
  direct_hits_cons p ps = refl

  single_hit :
      (ps : List PendingApproval) (p : PendingApproval) (o : Text)
      → direct_hits ps text low ≡ (p, o) ∷ []
      → IsIn p ps × (picked p ≡ some o)
  unfolding direct_hits
  single_hit [] p o h = absurd (ground (arith, h))
  single_hit (q ∷ ps) p o h = elim (Option-cases (picked q)) [
    | inl e ↦
        let rest : direct_hits ps text low ≡ (p, o) ∷ [] =
          rw e at (sym (direct_hits_cons q ps) ∙ h) in
        let ((i, at), pick) = single_hit ps p o rest in ((suc i, at), pick)
    | inr (x, e) ↦
        let all_hits : (q, x) ∷ direct_hits ps text low ≡ (p, o) ∷ [] =
          rw e at (sym (direct_hits_cons q ps) ∙ h) in
        let same : q ≡ p = cc in
        let picks : x ≡ o = cc in ((0, ap some same), rw (← same, ← picks) e)
  ]

  -- Where no card is picked, none is decided.
  no_hit_decides_none :
      (ps : List PendingApproval) (rid : String) (o : Text) (r : Reply)
      → direct_hits ps text low ≡ []
      → no_hit ps text low ≡ decide_approval rid o r
      → ⊥
  unfolding direct_hits
  no_hit_decides_none [] rid o r none_hit h = absurd (ground (arith, h))
  no_hit_decides_none (p ∷ []) rid o r none_hit h = elim (Option-cases (picked p)) [
    | inl e ↦ absurd (ground (arith, rw (e, no_hit) at h))
    | inr (x, e) ↦ absurd (ground (arith, rw (e, direct_hits) at none_hit))
  ]
  no_hit_decides_none (p ∷ q ∷ ps) rid o r none_hit h = absurd (ground (arith, h))

  by_hits_decides :
      (ps : List PendingApproval) (rid : String) (o : Text) (r : Reply)
      → by_hits ps text low (direct_hits ps text low) ≡ decide_approval rid o r
      → (p : PendingApproval) × (direct_hits ps text low ≡ (p, o) ∷ []) × (p.request_id ≡ rid)
  by_hits_decides ps rid o r h = hits (direct_hits ps text low) refl h
    where
      hits :
          (found : List (PendingApproval × Text))
          → direct_hits ps text low ≡ found
          → by_hits ps text low found ≡ decide_approval rid o r
          → (p : PendingApproval) × (direct_hits ps text low ≡ (p, o) ∷ []) × (p.request_id ≡ rid)
      hits [] e g = absurd (no_hit_decides_none ps rid o r e g)
      hits ((p, x) ∷ []) e g =
          let (same, picks) = decides_inv p x o rid r g in (p, rw picks at e, same)
      hits (a ∷ b ∷ more) e g = absurd (ground (arith, g))

named-IsIn :
    (ps : List PendingApproval) (code : Option Text) (p : PendingApproval)
    → named ps code ≡ some p
    → IsIn p ps
named-IsIn ps none p h = absurd (ground (arith, h))
named-IsIn ps (some code) p h = find-IsIn _ ps p h

of_named_inv :
    (p : PendingApproval) (pick : Option Text) (rid : String) (o : Text) (r : Reply)
    → of_named p pick ≡ decide_approval rid o r
    → (p.request_id ≡ rid) × (pick ≡ some o)
of_named_inv p none rid o r h = absurd (ground (arith, h))
of_named_inv p (some x) rid o r h =
    let (same, picks) = decides_inv p x o rid r h in (same, ap some picks)

-- What the rules decide without a model is an option of one of the given cards, and that card is the
-- one whose id the text names, or, where it names none of them, the only one of which the text picks
-- an option.
pub fallback_decides :
    (user_text : Text) (ps : List PendingApproval) (rid : String) (o : Text) (r : Reply)
    → fallback_classify user_text ps ≡ decide_approval rid o r
    → let text = strip user_text in
      let low = lower text in
      (p : PendingApproval) × (p.request_id ≡ rid)
      × IsIn p ps
      × IsIn o p.options
      × ((named ps (short_code low) ≡ some p)
          ⊎ ((named ps (short_code low) ≡ none) × (direct_hits ps text low ≡ (p, o) ∷ [])))
unfolding fallback_classify
fallback_decides user_text ps rid o r h =
    let text = strip user_text in
    let low = lower text in
    elim (Option-cases (named ps (short_code low))) [
      | inl e ↦
          let (p, hit, same) =
            by_hits_decides text low ps rid o r (rw (e, fallback_classify) at h) in
          let (at, pick) = single_hit text low ps p o hit in
          (p, same, at, pick_for_pending-IsPick p text low o (given_inv _ o pick), inr (e, hit))
      | inr (p, e) ↦
          let (same, pick) =
            of_named_inv p (picked text low p) rid o r (rw (e, fallback_classify) at h) in
          (
            p,
            same,
            named-IsIn ps (short_code low) p e,
            pick_for_pending-IsPick p text low o (given_inv _ o pick),
            inl e,
          )
    ]
