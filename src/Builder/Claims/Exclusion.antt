-- ===== src/Builder/Claims/Exclusion.antt =====
-- Two builder sessions and one target.
use colony_agents.Prelude.{
  ℕ, ◌+◌, ◌≤◌, Text, true, false, Option, none, some, [], ◌∷◌, ◌≡◌, ◌≢◌, refl, arith, ◌==◌, ltb,
  ◌-◌, text_eq,
}
use colony_agents.Builder.Claims.{
  Claim, Claims, row_of, write_row, Decision, grant, reuse, reject, carry_out, existing_of, granted,
  rejected, Request, key_of, granted_row, decide_claim, acquire_claim, not_own, release_claim,
}

text_eq_refl : (s : Text) → text_eq s s ≡ true
text_eq_refl [] = refl
text_eq_refl (c ∷ s) = ground (arith, text_eq_refl s)

row_of-write_row :
    (key : Text) (c : Claim) (rows : Claims) → row_of key (write_row key c rows) ≡ some c
unfolding row_of write_row
row_of-write_row key c [] = rw (text_eq_refl key) refl
row_of-write_row key c ((k, d) ∷ rows) = ground (arith, row_of-write_row key c rows)

-- A row that its session holds from `since` on.
record IsHeld (c : Claim) (holder since : ℕ) : Type 0 where
  session : c.session_id ≡ holder
  active : c.status ≡ "active"
  claimed : c.claimed_at ≡ some since

granted_row-IsHeld :
    (now : ℕ) (r : Request) (row : Option Claim) → IsHeld (granted_row now r row) r.session_id now
unfolding granted_row
granted_row-IsHeld now r none = record { session = refl; active = refl; claimed = refl }
granted_row-IsHeld now r (some c) = record { session = refl; active = refl; claimed = refl }

not_stale : (since now ttl : ℕ) → now ≤ since + ttl → ltb ttl (now - since) ≡ false
not_stale since now ttl h = ground arith

not_holder : (a b : ℕ) → a ≢ b → (a == b) ≡ false
not_holder a b h = ground arith

carried :
    (now : ℕ) (r : Request) (rows : Claims) (row : Option Claim) (d : Decision)
    → (carry_out now r rows row d).0 ≡ granted
    → (c : Claim) × (row_of (key_of r) (carry_out now r rows row d).1 ≡ some c)
      × IsHeld c r.session_id now
carried now r rows row (grant reason) h = (
  granted_row now r row,
  row_of-write_row (key_of r) (granted_row now r row) rows,
  granted_row-IsHeld now r row,
)
carried now r rows row reuse h = absurd (ground (arith, h))
carried now r rows row (reject holder) h = absurd (ground (arith, h))

granted_stored :
    (now : ℕ) (r : Request) (rows : Claims)
    → (acquire_claim now r rows).0 ≡ granted
    → (c : Claim) × (row_of (key_of r) (acquire_claim now r rows).1 ≡ some c)
      × IsHeld c r.session_id now
unfolding acquire_claim
granted_stored now r rows h =
    carried now r rows (row_of (key_of r) rows)
      (decide_claim (existing_of now (row_of (key_of r) rows)) r.session_id r.ttl_seconds) h

held_keeps :
    (r : Request) (rows : Claims) (c : Claim) (holder since now : ℕ)
    → row_of (key_of r) rows ≡ some c
    → IsHeld c holder since
    → holder ≢ r.session_id
    → release_claim now r.target_type r.target_id (some r.session_id) rows ≡ (not_own, rows)
unfolding release_claim
held_keeps r rows c holder since now stored held other =
    rw (stored, held.active, held.session, not_holder holder r.session_id other) refl

held_rejects :
    (r : Request) (rows : Claims) (c : Claim) (holder since now : ℕ)
    → row_of (key_of r) rows ≡ some c
    → IsHeld c holder since
    → holder ≢ r.session_id
    → now ≤ since + r.ttl_seconds
    → acquire_claim now r rows ≡ (rejected holder, rows)
unfolding acquire_claim decide_claim
held_rejects r rows c holder since now stored held other young =
    rw
      (
        stored,
        held.active,
        held.claimed,
        held.session,
        not_stale since now r.ttl_seconds young,
        not_holder holder r.session_id other,
      )
      refl

-- After a grant, whatever the row was before, the target is the session's alone for the time that
-- the other session's own call allows: a call by another session for the same key, at a time that
-- is not past the grant's time and that allowance, is rejected with the holder's number and changes
-- no row, and a release by another session is refused and changes no row.
pub grant_excludes :
    (now later : ℕ) (r s : Request) (rows : Claims)
    → (acquire_claim now r rows).0 ≡ granted
    → key_of s ≡ key_of r
    → r.session_id ≢ s.session_id
    → later ≤ now + s.ttl_seconds
    → let rows' = (acquire_claim now r rows).1 in
      (acquire_claim later s rows' ≡ (rejected r.session_id, rows'))
      × (release_claim later s.target_type s.target_id (some s.session_id) rows' ≡ (not_own, rows'))
grant_excludes now later r s rows ok same other young =
    let (c, stored, held) = granted_stored now r rows ok in
    let stored' : row_of (key_of s) (acquire_claim now r rows).1 ≡ some c = rw same stored in
    (
      held_rejects s (acquire_claim now r rows).1 c r.session_id now later stored' held other young,
      held_keeps s (acquire_claim now r rows).1 c r.session_id now later stored' held other,
    )
