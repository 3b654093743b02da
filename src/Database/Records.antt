-- ===== src/Database/Records.antt =====
-- src/conversation_agent/database/records.py: the immutable records of the persistence layer.
pub mod Checks
use safety_grounded_agent.Prelude.{
  ℕ, String, Bool, true, false, Option, none, some, arith, ◌≡◌, ◌&&◌, Eq, ◌==◌, eq_iff,
  if◌then◌else◌, ◌↔◌, string_has_eq,
}
use safety_grounded_agent.Time.{Datetime}
use safety_grounded_agent.Json.{Json}

pub record NewAgentRequest : Type 0 where
  pub request_id : String
  pub trace_id : String
  pub session_id : Option String
  pub operation : String
  pub principal_user_id : String
  pub tenant_id : String
  pub organization_id : String
  pub user_text_hash : String
  pub user_text_length : ℕ
  pub request_fingerprint : String
  pub fingerprint_version : ℕ
  pub authorization_snapshot : Json
  pub authorization_snapshot_schema_version : ℕ
  pub created_at : Datetime
  pub status : String
  pub idempotency_key_hash : Option String
  pub replayed_from_request_record_id : Option ℕ
  pub completed_at : Option Datetime
  pub failure_code : Option String

pub record PersistedAgentRequestRef : Type 0 where
  pub database_id : ℕ
  pub request_id : String
  pub status : String
  pub trace_id : Option String
  pub session_id : Option String

pub record NewAgentRun : Type 0 where
  pub run_id : String
  pub original_request_record_id : ℕ
  pub session_id : Option String
  pub status : String
  pub routed_task : Option String
  pub policy_outcome : Option String
  pub result_snapshot : Option Json
  pub result_snapshot_schema_version : Option ℕ
  -- in millionths
  pub confidence : Option ℕ
  pub trace_snapshot : Option Json
  pub trace_snapshot_schema_version : Option ℕ
  pub rag_provider : Option String
  pub started_at : Datetime
  pub completed_at : Datetime

pub record NewAuditEvent : Type 0 where
  pub event_id : String
  pub request_id : Option String
  pub trace_id : Option String
  pub tenant_id : String
  pub organization_id : String
  pub event_type : String
  pub principal_user_id : Option String
  pub outcome : String
  pub details_json : Option Json
  pub created_at : Datetime

pub data IdempotencyStatus : Type 0 where
  active completed failed : IdempotencyStatus

-- `IdempotencyStatus.X.value`
abbrev pub status_value : IdempotencyStatus → String
status_value active = "in_progress"
status_value completed = "completed"
status_value failed = "failed"

-- `IdempotencyStatus(value)`; `none` is the `ValueError`.
abbrev pub status_of : String → Option IdempotencyStatus
status_of s =
    if s == "in_progress"
    then some active
    else if s == "completed"
    then some completed
    else if s == "failed"
    then some failed
    else none

pub data ClaimOutcome : Type 0 where
  acquired reclaimed replay in_progress conflict previous_failure : ClaimOutcome

-- `ClaimOutcome.X.value`
abbrev pub outcome_value : ClaimOutcome → String
outcome_value acquired = "acquired"
outcome_value reclaimed = "reclaimed"
outcome_value replay = "replay"
outcome_value in_progress = "in_progress"
outcome_value conflict = "conflict"
outcome_value previous_failure = "previous_failure"

pub record IdempotencyPolicy : Type 0 where
  pub lease_duration_seconds : ℕ
  pub replay_ttl_seconds : ℕ
  pub failure_ttl_seconds : ℕ
  pub max_replay_snapshot_bytes : ℕ

pub record IdempotencyScope : Type 0 where
  pub tenant_id : String
  pub organization_id : String
  pub principal_user_id : String
  pub operation : String
  pub key_hash : String

pub record IdempotencyClaimRequest : Type 0 where
  pub scope : IdempotencyScope
  pub request_fingerprint : String
  pub fingerprint_version : ℕ
  pub owner_request_id : String
  pub lease_duration_seconds : ℕ

pub record IdempotencyClaimToken : Type 0 where
  pub idempotency_record_id : ℕ
  pub scope : IdempotencyScope
  pub owner_request_id : String
  pub claim_version : ℕ
  pub claimed_at : Datetime
  pub lease_expires_at : Datetime

pub record StoredIdempotencyRecord : Type 0 where
  pub database_id : ℕ
  pub scope : IdempotencyScope
  pub request_fingerprint : String
  pub fingerprint_version : ℕ
  pub status : String
  pub claim_version : Option ℕ
  pub owner_request_id : Option String
  pub claimed_at : Option Datetime
  pub lease_expires_at : Option Datetime
  pub completed_run_record_id : Option ℕ
  pub response_snapshot : Option Json
  pub response_snapshot_version : Option ℕ
  pub expires_at : Option Datetime

pub record IdempotencyClaimDecision : Type 0 where
  pub outcome : ClaimOutcome
  pub token : Option IdempotencyClaimToken
  pub original_request_record_id : Option ℕ
  pub original_request_id : Option String
  pub replay_snapshot : Option Json
  pub replay_snapshot_version : Option ℕ
  pub previous_failure_code : Option String
  pub reclaimed_request : Option PersistedAgentRequestRef
  pub expired_reuse : Bool

-- A decision with an outcome alone; the other fields are the class's defaults.
abbrev pub decision_of : ClaimOutcome → IdempotencyClaimDecision
decision_of o = record {
  outcome = o;
  token = none;
  original_request_record_id = none;
  original_request_id = none;
  replay_snapshot = none;
  replay_snapshot_version = none;
  previous_failure_code = none;
  reclaimed_request = none;
  expired_reuse = false;
}

-- Scopes are compared field by field, as the tuples that `_key` makes of them.
abbrev pub scope_beq : IdempotencyScope → IdempotencyScope → Bool
scope_beq a b =
    a.tenant_id == b.tenant_id
    && (a.organization_id == b.organization_id
        && (a.principal_user_id == b.principal_user_id
            && (a.operation == b.operation && a.key_hash == b.key_hash)))

pub scope_beq_iff : (a b : IdempotencyScope) → (scope_beq a b ≡ true) ↔ (a ≡ b)
scope_beq_iff a b = (
  λ h. ground (
    arith,
    eq_iff a.tenant_id b.tenant_id,
    eq_iff a.organization_id b.organization_id,
    eq_iff a.principal_user_id b.principal_user_id,
    eq_iff a.operation b.operation,
    eq_iff a.key_hash b.key_hash,
  ),
  λ h. ground (
    arith,
    eq_iff a.tenant_id b.tenant_id,
    eq_iff a.organization_id b.organization_id,
    eq_iff a.principal_user_id b.principal_user_id,
    eq_iff a.operation b.operation,
    eq_iff a.key_hash b.key_hash,
  ),
)

instance abbrev pub scope_has_eq : Eq IdempotencyScope
scope_has_eq = record { equal = scope_beq; agrees = scope_beq_iff }
