-- ===== src/Builder/Claims.antt =====
-- backend/app/domain/builder/work_claim.py and backend/app/services/builder_claim_service.py: the
-- lock that a builder session takes before it changes a worker, a super or a skill. The rows of
-- `builder_work_claims` are by their unique key; a session and a mission are numbers.
pub mod Exclusion
use colony_agents.Prelude.{
  ℕ, ◌+◌, ◌-◌, String, Text, codes, Bool, true, false, not, ◌&&◌, Option, none, some, List, [], ◌∷◌,
  ◌++◌, str_eq, text_eq, ltb, ◌==◌, if◌then◌else◌, strip, lower,
}

-- A row of `builder_work_claims`, but for its key.
pub record Claim : Type 0 where
  pub target_type : Text
  pub target_id : Text
  pub session_id : ℕ
  pub mission_id : Option ℕ
  pub status : String
  pub claimed_at : Option ℕ
  pub released_at : Option ℕ

abbrev pub Claims : Type 0
Claims = List (Text × Claim)

-- SELECT … WHERE key = :key
unfoldable pub row_of : Text → Claims → Option Claim
row_of key [] = none
row_of key ((k, c) ∷ rows) = if text_eq k key then some c else row_of key rows

-- The row is written where it stands, and added where there is none.
unfoldable pub write_row : Text → Claim → Claims → Claims
write_row key c [] = (key, c) ∷ []
write_row key c ((k, d) ∷ rows) =
    if text_eq k key then (k, c) ∷ rows else (k, d) ∷ write_row key c rows

unfoldable pub claim_key : Text → Text → Text
claim_key target_type target_id =
    lower (strip target_type) ++ (codes ":" ++ lower (strip target_id))

pub data Reason : Type 0 where
  no_existing prev_released stale_takeover same_session held_by_other : Reason

pub data Decision : Type 0 where
  grant : Reason → Decision
  reuse : Decision
  reject : (holder_session_id : ℕ) → Decision

-- The row's session, status and age.
pub record Existing : Type 0 where
  pub session_id : ℕ
  pub status : String
  pub age_seconds : Option ℕ

abbrev is_stale : ℕ → Option ℕ → Bool
is_stale ttl_seconds none = false
is_stale ttl_seconds (some age) = ltb ttl_seconds age

unfoldable pub decide_claim : Option Existing → (requester_session_id ttl_seconds : ℕ) → Decision
decide_claim none requester ttl_seconds = grant no_existing
decide_claim (some e) requester ttl_seconds =
    if not (str_eq e.status "active")
    then grant prev_released
    else if is_stale ttl_seconds e.age_seconds
    then grant stale_takeover
    else if e.session_id == requester
    then reuse
    else reject e.session_id

abbrev age_of : ℕ → Option ℕ → Option ℕ
age_of now none = none
age_of now (some claimed) = some (now - claimed)

abbrev existing_of : ℕ → Option Claim → Option Existing
existing_of now none = none
existing_of now (some c) =
    some (record {
      session_id = c.session_id;
      status = c.status;
      age_seconds = age_of now c.claimed_at;
    })

-- A call for a target: by whom, and for how long a claim is taken to be alive.
pub record Request : Type 0 where
  pub target_type : Text
  pub target_id : Text
  pub session_id : ℕ
  pub mission_id : Option ℕ
  pub ttl_seconds : ℕ

abbrev pub key_of : Request → Text
key_of r = claim_key r.target_type r.target_id

pub data Acquired : Type 0 where
  granted reused : Acquired
  rejected : (holder_session_id : ℕ) → Acquired

-- A new row, or the row that is there taken over.
unfoldable pub granted_row : ℕ → Request → Option Claim → Claim
granted_row now r none = record {
  target_type = lower (strip r.target_type);
  target_id = r.target_id;
  session_id = r.session_id;
  mission_id = r.mission_id;
  status = "active";
  claimed_at = some now;
  released_at = none;
}
granted_row now r (some c) = record c {
  session_id = r.session_id;
  mission_id = r.mission_id;
  status = "active";
  claimed_at = some now;
  released_at = none;
}

abbrev pub carry_out : ℕ → Request → Claims → Option Claim → Decision → Acquired × Claims
carry_out now r rows row (grant reason) =
    (granted, write_row (key_of r) (granted_row now r row) rows)
carry_out now r rows row reuse = (reused, rows)
carry_out now r rows row (reject holder) = (rejected holder, rows)

unfoldable pub acquire_claim : ℕ → Request → Claims → Acquired × Claims
unfolding decide_claim granted_row
acquire_claim now r rows =
    let row = row_of (key_of r) rows in
    carry_out now r rows row (decide_claim (existing_of now row) r.session_id r.ttl_seconds)

pub data Released : Type 0 where
  released not_active not_own : Released

-- str(row.session_id) != str(session_id), where a session is given
abbrev is_other : Option ℕ → ℕ → Bool
is_other none holder = false
is_other (some session_id) holder = not (holder == session_id)

abbrev release_row : ℕ → Text → Option ℕ → Claims → Option Claim → Released × Claims
release_row now key session_id rows none = (not_active, rows)
release_row now key session_id rows (some c) =
    if not (str_eq c.status "active")
    then (not_active, rows)
    else if is_other session_id c.session_id
    then (not_own, rows)
    else (released, write_row key (record c { status = "released"; released_at = some now }) rows)

unfoldable pub release_claim :
    ℕ → (target_type target_id : Text) → Option ℕ → Claims → Released × Claims
release_claim now target_type target_id session_id rows =
    let key = claim_key target_type target_id in
    release_row now key session_id rows (row_of key rows)
