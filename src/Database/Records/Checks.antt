-- ===== src/Database/Records/Checks.antt =====
-- What the constructors of src/conversation_agent/database/records.py refuse, and how
-- database/idempotency.py makes a scope.
use safety_grounded_agent.Prelude.{
  String, Bool, true, false, not, ◌&&◌, Option, none, some, is_some, ltb,
}
use safety_grounded_agent.Time.{Datetime, is_utc}
use safety_grounded_agent.Database.Errors.{Error, Result, ok, err}
use safety_grounded_agent.Database.Records.{
  NewAgentRequest, NewAgentRun, NewAuditEvent, IdempotencyPolicy, IdempotencyClaimToken,
  IdempotencyScope,
}

-- A check returns, or it raises a `ValueError`.
abbrev checked : Bool → Result (Unit {0})
checked true = ok tt
checked false = err Error.value_error

-- `require_utc(value, field_name)` returns: a naive value and one in another zone are refused.
abbrev pub require_utc : Datetime → Bool
require_utc value = is_utc value

abbrev require_utc_if_set : Option Datetime → Bool
require_utc_if_set none = true
require_utc_if_set (some value) = require_utc value

-- `NewAgentRequest.__post_init__`
abbrev pub check_request : NewAgentRequest → Result (Unit {0})
check_request r = checked (require_utc r.created_at && require_utc_if_set r.completed_at)

abbrev paired : Bool → Bool → Bool
paired true version = version
paired false version = not version

-- `NewAgentRun.__post_init__`
abbrev pub check_run : NewAgentRun → Result (Unit {0})
check_run r = checked (
    require_utc r.started_at
    && (require_utc r.completed_at
        && (paired (is_some r.result_snapshot) (is_some r.result_snapshot_schema_version)
            && paired (is_some r.trace_snapshot) (is_some r.trace_snapshot_schema_version))))

-- `NewAuditEvent.__post_init__`
abbrev pub check_event : NewAuditEvent → Result (Unit {0})
check_event e = checked (require_utc e.created_at)

-- `IdempotencyPolicy.__post_init__`, of whole numbers.
abbrev pub check_policy : IdempotencyPolicy → Result (Unit {0})
check_policy p = checked (
    ltb 0 p.lease_duration_seconds
    && (ltb 0 p.replay_ttl_seconds
        && (ltb 0 p.failure_ttl_seconds && ltb 0 p.max_replay_snapshot_bytes)))

-- `IdempotencyPolicy()`
abbrev pub default_policy : IdempotencyPolicy
default_policy = record {
  lease_duration_seconds = 60;
  replay_ttl_seconds = 3600;
  failure_ttl_seconds = 300;
  max_replay_snapshot_bytes = 262144;
}

-- `IdempotencyClaimToken.__post_init__`
abbrev pub check_token : IdempotencyClaimToken → Result (Unit {0})
check_token t = checked (require_utc t.claimed_at && require_utc t.lease_expires_at)

module _ (sha256 : String → String) where
  -- `hash_idempotency_key`
  abbrev pub hash_idempotency_key : String → String
  hash_idempotency_key raw_key = sha256 raw_key

  -- `scope_from_values`
  abbrev pub scope_from_values : String → String → String → String → String → IdempotencyScope
  scope_from_values tenant_id organization_id principal_user_id operation raw_key = record {
    tenant_id = tenant_id;
    organization_id = organization_id;
    principal_user_id = principal_user_id;
    operation = operation;
    key_hash = hash_idempotency_key raw_key;
  }
