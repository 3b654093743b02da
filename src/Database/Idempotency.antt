-- ===== src/Database/Idempotency.antt =====
-- `IdempotencyStateValidator` of src/conversation_agent/database/idempotency.py.
pub mod Spec
use safety_grounded_agent.Prelude.{
  ℕ, String, Bool, true, false, not, ◌&&◌, ◌||◌, Option, none, some, ◌==◌, string_has_eq, ltb,
  is_some, if◌then◌else◌,
}
use safety_grounded_agent.Time.{Datetime, is_utc}
use safety_grounded_agent.Database.Errors.{Error, Result, ok, err}
use safety_grounded_agent.Database.Records.{
  StoredIdempotencyRecord, IdempotencyStatus, active, completed, failed, status_of,
}

-- `_require_time`
unfoldable pub require_time : Option Datetime → Bool
require_time none = false
require_time (some t) = is_utc t

-- `not record.owner_request_id` is true of `None` and of the empty text.
unfoldable pub has_owner : Option String → Bool
has_owner none = false
has_owner (some s) = not (s == "")

unfoldable pub valid_version : Option ℕ → Bool
valid_version none = false
valid_version (some v) = ltb 0 v

-- The tests on the result columns, for each status.
unfoldable pub terminal_state_ok : IdempotencyStatus → StoredIdempotencyRecord → Bool
terminal_state_ok active r = not (is_some r.completed_run_record_id || is_some r.response_snapshot)
terminal_state_ok completed r =
    is_some r.completed_run_record_id
    && (is_some r.response_snapshot && is_some r.response_snapshot_version)
terminal_state_ok failed r = not (
    is_some r.completed_run_record_id
    || (is_some r.response_snapshot || is_some r.response_snapshot_version))

abbrev same : Bool → Bool → Bool
same true b = b
same false b = not b

abbrev invalid : Result IdempotencyStatus
invalid = err Error.invalid_idempotency_state

unfoldable pub validate : StoredIdempotencyRecord → Result IdempotencyStatus
validate r = elim (status_of r.status) [
  | none ↦ invalid
  | some status ↦
      if not (valid_version r.claim_version)
      then invalid
      else if not (has_owner r.owner_request_id)
      then invalid
      else if not (require_time r.claimed_at)
      then invalid
      else if not (require_time r.lease_expires_at)
      then invalid
      else if not (require_time r.expires_at)
      then invalid
      else if not (same (is_some r.response_snapshot) (is_some r.response_snapshot_version))
      then invalid
      else if terminal_state_ok status r
      then ok status
      else invalid
]
