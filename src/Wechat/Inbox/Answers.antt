-- ===== src/Wechat/Inbox/Answers.antt =====
-- The answers that arrive by WeChat, of backend/app/services/wechat_intent.py and wechat_poller.py.
use colony_agents.Prelude.{
  ℕ, zero, suc, All, String, Text, Bool, true, false, none, some, List, [], ◌∷◌, map, select,
  str_eq, ◌≡◌, refl, arith, inl, inr, Bool-cases, ◌==◌, ==_iff,
}
use mathlib.Core.List.{reverse_aux}
use colony_agents.Prelude.Table.{member}
use colony_agents.World.{World, Mission, PendingApproval, Account, approval_resolved, publish}
use colony_agents.Approval.Cards.{Outside}
use colony_agents.Approval.Answer.{get_by_request_id}
use colony_agents.Approval.Decide.{decide_closed}
use colony_agents.Wechat.Intent.{Reply, decide_approval, fallback_classify}
use colony_agents.Wechat.Intent.Picks.{IsIn, fallback_decides}
use colony_agents.Wechat.Inbox.{
  reviewed_ids, list_reviewer_projects, is_waiting_of, list_pending_for_reviewer, by_rules,
  classify_and_reply, answer_card, reply, by_wechat,
}

-- An answer to a card that has been answered changes no card and no mission, yet it is announced on
-- the card's channel as the answer that resolved it.
pub late_answer_announced :
    (o : Outside) (rid : String) (option uid said : Text) (w : World) (row : PendingApproval)
    → get_by_request_id rid w ≡ some row
    → str_eq row.status "pending" ≡ false
    → answer_card o rid option uid said w ≡ (
      reply said,
      publish row.mission_id (approval_resolved row.request_id option (by_wechat uid)) w,
    )
unfolding answer_card
late_answer_announced o rid option uid said w row stored closed =
    rw (decide_closed o rid option (by_wechat uid) w row stored closed) refl

module _ {ℓ} {A : Type ℓ} where
  -- What `select` keeps stood in the list and passes the test.
  select-All {κ} :
      (Q : A → Type κ) (p : A → Bool) (xs : List A)
      → ((x : A) → p x ≡ true → IsIn x xs → Q x)
      → All Q (select p xs)
  select-All Q p [] each = tt
  select-All Q p (x ∷ xs) each = elim (Bool-cases (p x)) [
    | inl e ↦ rw e (each x e (0, refl), select-All Q p xs (λ y h at. each y h (suc at.0, at.1)))
    | inr e ↦ rw e (select-All Q p xs (λ y h at. each y h (suc at.0, at.1)))
  ]

  All-IsIn {κ} : (Q : A → Type κ) (xs : List A) (x : A) → All Q xs → IsIn x xs → Q x
  All-IsIn Q [] x h (i, at) = absurd (ground (arith, at))
  All-IsIn Q (y ∷ ys) x (h, hs) (zero, at) = let same : y ≡ x = ground (arith, at) in rw (← same) h
  All-IsIn Q (y ∷ ys) x (h, hs) (suc i, at) = All-IsIn Q ys x hs (i, at)

  All-reverse_aux {κ} :
      (Q : A → Type κ) (xs ys : List A) → All Q xs → All Q ys → All Q (reverse_aux xs ys)
  All-reverse_aux Q [] ys h k = k
  All-reverse_aux Q (x ∷ xs) ys (h, hs) k = All-reverse_aux Q xs (x ∷ ys) hs (h, k)

member-select :
    (ids : List ℕ) (j : ℕ) (rows : List (ℕ × Mission))
    → member j
        (map (λ (row : ℕ × Mission). row.0) (select (λ (row : ℕ × Mission). member row.0 ids) rows))
      ≡ true
    → member j ids ≡ true
unfolding member
member-select ids j [] h = absurd (ground (arith, h))
member-select ids j ((i, m) ∷ rows) h = elim (Bool-cases (member i ids)) [
  | inl e ↦ elim (Bool-cases (i == j)) [
    | inl s ↦ rw ((==_iff i j).0 s) at e
    | inr s ↦ member-select ids j rows (rw (e, s) at h)
  ]
  | inr e ↦ member-select ids j rows (rw e at h)
]

module _ (account : ℕ) (acc : Account) (uid : Text) (w : World) where
  -- A card that the user may answer.
  pub record IsAnswerable (p : PendingApproval) : Type 0 where
    pub stored : IsIn p w.approvals
    pub waits : str_eq p.status "pending" ≡ true
    pub reviewed : member p.mission_id (reviewed_ids account acc uid w) ≡ true

  answerable :
      (p : PendingApproval)
      → is_waiting_of (list_reviewer_projects account acc uid w) p ≡ true
      → IsIn p w.approvals
      → IsAnswerable p
  unfolding is_waiting_of list_reviewer_projects
  answerable p h at = record {
    stored = at;
    waits = ground (arith, h);
    reviewed =
        member-select (reviewed_ids account acc uid w) p.mission_id w.missions (ground (arith, h));
  }

  listed-IsAnswerable :
      All IsAnswerable (list_pending_for_reviewer (list_reviewer_projects account acc uid w) w)
  unfolding list_pending_for_reviewer
  listed-IsAnswerable =
      let projects = list_reviewer_projects account acc uid w in
      All-reverse_aux IsAnswerable (select (is_waiting_of projects) w.approvals) []
        (select-All IsAnswerable (is_waiting_of projects) w.approvals answerable) tt

  -- Where the model fails, a reply can only decide a card that waits, of a mission that the user
  -- reviews, and only for one of the card's options.
  pub rules_decide_own :
      (text : Text) (rid : String) (option : Text) (r : Reply)
      → classify_and_reply account acc uid text none w ≡ by_rules (decide_approval rid option r)
      → (p : PendingApproval) × (p.request_id ≡ rid) × IsAnswerable p × IsIn option p.options
  unfolding classify_and_reply
  rules_decide_own text rid option r h =
      let cards = list_pending_for_reviewer (list_reviewer_projects account acc uid w) w in
      let decided : fallback_classify text cards ≡ decide_approval rid option r = cc in
      let (p, same, at, offered, how) = fallback_decides text cards rid option r decided in
      (p, same, All-IsIn IsAnswerable cards p listed-IsAnswerable at, offered)
