-- ===== src/Database/Idempotency/Spec.antt =====
-- What a stored idempotency record must look like, said without the validator's tests.
use safety_grounded_agent.Prelude.{
  ℕ, ◌<◌, String, ◌≡◌, refl, ◌≢◌, ◌↔◌, true, Option, none, some, string_has_eq, eq_iff, arith,
  is_some,
}
use safety_grounded_agent.Time.{Datetime, Offset, is_utc}
use safety_grounded_agent.Json.{Json}
use safety_grounded_agent.Database.Errors.{ok}
use safety_grounded_agent.Database.Records.{
  StoredIdempotencyRecord, IdempotencyStatus, active, completed, failed, status_of, status_value,
}
use safety_grounded_agent.Database.Idempotency.{
  require_time, has_owner, valid_version, terminal_state_ok, validate,
}

-- A column that holds a time in UTC.
abbrev pub HoldsUtc : Option Datetime → Type 0
HoldsUtc column = (t : Datetime) × (column ≡ some t) × (t.utcoffset ≡ some (Offset.east 0))

-- The result columns of a record: a completed one has a run and a versioned snapshot, the others
-- have none of the three.
abbrev pub HasResult : IdempotencyStatus → Option ℕ → Option Json → Option ℕ → Type 0
HasResult completed run snapshot version = (run ≢ none) × (snapshot ≢ none) × (version ≢ none)
HasResult _ run snapshot version = (run ≡ none) × (snapshot ≡ none) × (version ≡ none)

pub record IsWellFormed (s : IdempotencyStatus) (r : StoredIdempotencyRecord) : Type 0 where
  pub state : r.status ≡ status_value s
  pub version : (v : ℕ) × (r.claim_version ≡ some v) × (0 < v)
  pub owner : (o : String) × (r.owner_request_id ≡ some o) × (o ≢ "")
  pub claimed_at : HoldsUtc r.claimed_at
  pub lease_expires_at : HoldsUtc r.lease_expires_at
  pub expires_at : HoldsUtc r.expires_at
  pub result : HasResult s r.completed_run_record_id r.response_snapshot r.response_snapshot_version

status_of_sound : (w : String) (s : IdempotencyStatus) → status_of w ≡ some s → w ≡ status_value s
status_of_sound w s h =
    ground (arith, eq_iff w "in_progress", eq_iff w "completed", eq_iff w "failed")

pub status_of-status_value : (s : IdempotencyStatus) → status_of (status_value s) ≡ some s
status_of-status_value active = refl
status_of-status_value completed = refl
status_of-status_value failed = refl

is_utc_sound : (t : Datetime) → is_utc t ≡ true → t.utcoffset ≡ some (Offset.east 0)
is_utc_sound t h = ground arith

require_time_sound : (column : Option Datetime) → require_time column ≡ true → HoldsUtc column
unfolding require_time
require_time_sound none h = cc
require_time_sound (some t) h = (t, refl, is_utc_sound t h)

pub require_time_complete :
    (column : Option Datetime) → HoldsUtc column → require_time column ≡ true
unfolding require_time
require_time_complete column (t, e, u) = ground arith

has_owner_sound : (o : Option String) → has_owner o ≡ true → (s : String) × (o ≡ some s) × (s ≢ "")
unfolding has_owner
has_owner_sound none h = cc
has_owner_sound (some s) h = (s, refl, ground (arith, eq_iff s ""))

has_owner_complete : (s : String) → s ≢ "" → has_owner (some s) ≡ true
unfolding has_owner
has_owner_complete s h = ground (arith, eq_iff s "")

valid_version_sound : (o : Option ℕ) → valid_version o ≡ true → (v : ℕ) × (o ≡ some v) × (0 < v)
unfolding valid_version
valid_version_sound none h = cc
valid_version_sound (some v) h = (v, refl, ground arith)

valid_version_complete : (v : ℕ) → 0 < v → valid_version (some v) ≡ true
unfolding valid_version
valid_version_complete v h = ground arith

-- The validator's two tests on the result columns say together what `HasResult` says.
module _ (r : StoredIdempotencyRecord) where
  columns_complete :
      (s : IdempotencyStatus)
      → HasResult s r.completed_run_record_id r.response_snapshot r.response_snapshot_version
      → terminal_state_ok s r ≡ true
  unfolding terminal_state_ok
  columns_complete active h = ground arith
  columns_complete completed h = ground arith
  columns_complete failed h = ground arith

  paired :
      (s : IdempotencyStatus)
      → HasResult s r.completed_run_record_id r.response_snapshot r.response_snapshot_version
      → is_some r.response_snapshot ≡ is_some r.response_snapshot_version
  paired active h = ground arith
  paired completed h = ground arith
  paired failed h = ground arith

  columns_sound :
      (s : IdempotencyStatus)
      → terminal_state_ok s r ≡ true
      → is_some r.response_snapshot ≡ is_some r.response_snapshot_version
      → HasResult s r.completed_run_record_id r.response_snapshot r.response_snapshot_version
  unfolding terminal_state_ok
  columns_sound active h p = (ground arith, ground arith, ground arith)
  columns_sound completed h p = (ground arith, ground arith, ground arith)
  columns_sound failed h p = (ground arith, ground arith, ground arith)

  validate_sound : (s : IdempotencyStatus) → validate r ≡ ok s → IsWellFormed s r
  unfolding validate
  validate_sound s h = record {
    state = status_of_sound r.status s (ground arith);
    version = valid_version_sound r.claim_version (ground arith);
    owner = has_owner_sound r.owner_request_id (ground arith);
    claimed_at = require_time_sound r.claimed_at (ground arith);
    lease_expires_at = require_time_sound r.lease_expires_at (ground arith);
    expires_at = require_time_sound r.expires_at (ground arith);
    result = columns_sound s (ground arith) (ground arith);
  }

  pub validate_complete : (s : IdempotencyStatus) → IsWellFormed s r → validate r ≡ ok s
  unfolding validate
  validate_complete s w =
      let (v, has_v, pos) = w.version in
      let (o, has_o, named) = w.owner in
      ground (
        arith,
        w.state,
        status_of-status_value s,
        valid_version_complete v pos,
        has_owner_complete o named,
        require_time_complete r.claimed_at w.claimed_at,
        require_time_complete r.lease_expires_at w.lease_expires_at,
        require_time_complete r.expires_at w.expires_at,
        columns_complete s w.result,
        paired s w.result,
      )

-- The validator accepts a record with status `s` exactly when the record is well formed for it.
pub validate_iff :
    (s : IdempotencyStatus) (r : StoredIdempotencyRecord) → (validate r ≡ ok s) ↔ IsWellFormed s r
validate_iff s r = (validate_sound r s, validate_complete r s)
