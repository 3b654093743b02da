-- ===== src/Database/State.antt =====
-- `FakeExecutionState` of src/conversation_agent/database/fake_execution.py: the tables that the
-- repositories work on.
use safety_grounded_agent.Prelude.{ℕ, String, Option, List, []}
use safety_grounded_agent.Dict.{Dict}
use safety_grounded_agent.Time.{Datetime}
use safety_grounded_agent.Json.{Json}
use safety_grounded_agent.Database.Records.{
  NewAgentRequest, NewAgentRun, NewAuditEvent, IdempotencyScope,
}

pub record RequestItem : Type 0 where
  pub database_id : ℕ
  pub new_record : NewAgentRequest
  pub status : String
  pub completed_at : Option Datetime
  pub failure_code : Option String

pub record RunItem : Type 0 where
  pub database_id : ℕ
  pub new_record : NewAgentRun

pub record AuditItem : Type 0 where
  pub database_id : ℕ
  pub new_record : NewAuditEvent

pub record IdempotencyItem : Type 0 where
  pub database_id : ℕ
  pub scope : IdempotencyScope
  pub request_fingerprint : String
  pub fingerprint_version : ℕ
  pub status : String
  pub claim_version : ℕ
  pub owner_request_id : String
  pub claimed_at : Datetime
  pub lease_expires_at : Datetime
  pub completed_run_record_id : Option ℕ
  pub response_snapshot : Option Json
  pub response_snapshot_version : Option ℕ
  pub created_at : Datetime
  pub updated_at : Datetime
  pub expires_at : Datetime

pub record ExecutionState : Type 0 where
  pub requests : Dict String RequestItem
  pub runs : Dict String RunItem
  pub audits : List AuditItem
  pub next_request_id : ℕ
  pub next_run_id : ℕ
  pub next_audit_id : ℕ
  pub idempotency : Dict IdempotencyScope IdempotencyItem
  pub next_idempotency_id : ℕ

-- `FakeExecutionState()`
abbrev pub empty_state : ExecutionState
empty_state = record {
  requests = [];
  runs = [];
  audits = [];
  next_request_id = 1;
  next_run_id = 1;
  next_audit_id = 1;
  idempotency = [];
  next_idempotency_id = 1;
}
