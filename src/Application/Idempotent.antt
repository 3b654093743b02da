-- ===== src/Application/Idempotent.antt =====
-- src/conversation_agent/application/idempotent_durable_service.py: the service that runs a request once
-- for each idempotency key. The clocks' and the factories' values are arguments (`Readings`), the
-- chat service is a function to what its thread comes to, and what other requests do to the tables while
-- it runs is the argument `between`.
use safety_grounded_agent.Prelude.{
  ℕ, String, Bool, true, false, Option, none, some, string_has_eq, if◌then◌else◌,
}
use safety_grounded_agent.Text.{Text, codes}
use safety_grounded_agent.Time.{Datetime, is_utc}
use safety_grounded_agent.Json.{Json}
use safety_grounded_agent.Runtime.{RequestContext}
use safety_grounded_agent.Orchestration.TaskRouter.{TaskName, task_value}
use safety_grounded_agent.Database.Errors.{
  Error, Result, ok, err, Action, pure, lift, or_raise, ◌>>=◌, ◌>>◌,
}
use safety_grounded_agent.Database.Records.{
  NewAgentRequest, PersistedAgentRequestRef, IdempotencyScope, IdempotencyPolicy,
  IdempotencyClaimRequest, IdempotencyClaimToken, IdempotencyClaimDecision, ClaimOutcome, acquired,
  reclaimed, replay, in_progress, conflict, outcome_value,
}
use safety_grounded_agent.Database.Records.Checks.{scope_from_values}
use safety_grounded_agent.Database.Execution.{
  create_request, create_run, finalize_request_failed, create_audit_event,
}
use safety_grounded_agent.Database.Claims.{claim}
use safety_grounded_agent.Database.UnitOfWork.{
  UnitOfWork, on_repository, on_claims, commit, rollback,
}
use safety_grounded_agent.Application.Models.{
  UserRequest, ApplicationResult, ChatOutcome, IdempotentApplicationResult, result_of, replayed,
  still_running, conflicting, failed_before,
}
use safety_grounded_agent.Application.Mappers.{Codec, plain, map_request, reclaimed_run, require}
use safety_grounded_agent.Application.Mappers.Audit.{
  ClaimDetails, request_accepted, request_replayed, lease_reclaimed,
}

-- `ReplaySnapshotMapper`, as the service uses it.
pub record ReplayMapper : Type 0 where
  pub snapshot : ApplicationResult → Result Json
  pub restore : Json → ℕ → RequestContext → Text → Datetime → Datetime → Result ApplicationResult

pub record Service : Type 0 where
  pub codec : Codec
  pub policy : IdempotencyPolicy
  pub replay_mapper : ReplayMapper
  pub chat : UserRequest → RequestContext → Option TaskName → ChatOutcome

-- What a call of `execute` reads: the service's clock, its two factories of identifiers, and the
-- database's clock, `claimed_at` where it claims and `finished_at` where it ends the claim; `restored_at` is
-- what the clock gives where a replay is restored.
pub record Readings : Type 0 where
  pub accepted_at : Datetime
  pub claimed_at : Datetime
  pub reclaim_run_id : String
  pub reclaim_event_id : String
  pub accept_event_id : String
  pub restored_at : Datetime
  pub run_id : String
  pub run_started_at : Datetime
  pub run_completed_at : Datetime
  pub finish_event_id : String
  pub finished_at : Datetime

-- The arguments of `execute`.
pub record Call : Type 0 where
  pub request : UserRequest
  pub context : RequestContext
  pub operation : String
  pub idempotency_key : String
  pub forced_task : Option TaskName

-- `_now`
abbrev pub now : Datetime → Result Datetime
now t = if is_utc t then ok t else err Error.value_error

abbrev pub or_else : Option TaskName → Option TaskName → Option TaskName
or_else none other = other
or_else (some task) other = some task

abbrev pub task_text : Option TaskName → Option String
task_text none = none
task_text (some task) = some (task_value task)

-- `forced_task or request.task_override`, as a text.
abbrev pub override_of : Call → Option String
override_of call = task_text (or_else call.forced_task call.request.task_override)

-- What `_claim_and_accept` returns.
pub data Accepted : Type 0 where
  owner : IdempotencyClaimToken → PersistedAgentRequestRef → Accepted
  answered : IdempotentApplicationResult → Accepted

abbrev pub is_reclaimed : ClaimOutcome → Bool
is_reclaimed reclaimed = true
is_reclaimed _ = false

-- `_finalize_reclaimed_owner`
unfoldable pub finalize_reclaimed_owner :
    RequestContext
    → Readings
    → IdempotencyClaimToken
    → PersistedAgentRequestRef
    → Action UnitOfWork Unit
unfolding require
finalize_reclaimed_owner context r token old_request = do
  on_repository (create_run (reclaimed_run old_request r.reclaim_run_id r.accepted_at))
  failure_code ← lift (require "idempotency_lease_reclaimed")
  on_repository (finalize_request_failed old_request r.accepted_at failure_code)
  on_repository (
      create_audit_event (
        lease_reclaimed context old_request r.reclaim_event_id r.reclaim_run_id token.claim_version
          r.accepted_at))
  pure tt

abbrev pub settle_former :
    RequestContext
    → Readings
    → IdempotencyClaimToken
    → IdempotencyClaimDecision
    → Action UnitOfWork Unit
settle_former context r token d =
    if is_reclaimed d.outcome
    then or_raise d.reclaimed_request Error.assertion_failed
      >>= finalize_reclaimed_owner context r token
    else pure tt

-- What the audit event of a granted claim says of it.
abbrev pub claim_details : IdempotencyClaimDecision → IdempotencyClaimToken → ClaimDetails
claim_details d token = record {
  idempotency_outcome = some (outcome_value d.outcome);
  claim_version = some token.claim_version;
  reclaimed = is_reclaimed d.outcome;
  expired_reuse = d.expired_reuse;
}

-- The claim is granted: the request is stored with its audit event.
unfoldable pub accept_owner :
    Call → Readings → NewAgentRequest → IdempotencyClaimDecision → Action UnitOfWork Accepted
unfolding finalize_reclaimed_owner
accept_owner call r request_record d = do
  token ← or_raise d.token Error.assertion_failed
  settle_former call.context r token d
  request_ref ← on_repository (create_request request_record)
  on_repository (
      create_audit_event (
        request_accepted call.context r.accept_event_id call.operation r.accepted_at (record {
          idempotency_outcome = some (outcome_value d.outcome);
          claim_version = some token.claim_version;
          reclaimed = is_reclaimed d.outcome;
          expired_reuse = d.expired_reuse;
        })))
  commit
  pure (owner token request_ref)

-- `_restore_replay`
abbrev pub restore_replay :
    ReplayMapper → Call → Datetime → Datetime → IdempotencyClaimDecision → Result ApplicationResult
restore_replay mapper call replayed_at restored_at d = elim d.replay_snapshot [
  | none ↦ err Error.request_initialization
  | some snapshot ↦ elim d.replay_snapshot_version [
    | none ↦ err Error.request_initialization
    | some version ↦
        mapper.restore snapshot version call.context call.request.text replayed_at restored_at
  ]
]

-- The record of a request that is answered by a replay. Its task is that of the request alone.
abbrev pub replay_record :
    Codec → Call → Readings → IdempotencyScope → IdempotencyClaimDecision → NewAgentRequest
replay_record codec call r scope d =
    map_request codec call.context call.operation call.request.text
      (task_text call.request.task_override) call.request.session_id r.accepted_at
      (record {
        idempotency_key_hash = some scope.key_hash;
        status = "completed";
        replayed_from_request_record_id = d.original_request_record_id;
        completed_at = some r.accepted_at;
      })

-- The claim is completed: its snapshot is restored, and the replay is stored.
unfoldable pub answer_replay :
    Service
    → Call
    → Readings
    → IdempotencyScope
    → IdempotencyClaimDecision
    → Action UnitOfWork Accepted
unfolding map_request
answer_replay service call r scope d = do
  result ← lift (restore_replay service.replay_mapper call r.accepted_at r.restored_at d)
  on_repository (create_request (replay_record service.codec call r scope d))
  on_repository (
      create_audit_event
        (request_replayed call.context r.accept_event_id call.operation r.accepted_at))
  commit
  pure (
      answered (record (result_of replayed call.context.request_id) {
        original_request_id = d.original_request_id;
        application_result = some result;
      }))

abbrev version_of : Option IdempotencyClaimToken → Option ℕ
version_of none = none
version_of (some token) = some token.claim_version

-- The answers that store nothing.
abbrev pub refusal : Call → IdempotencyClaimDecision → IdempotentApplicationResult
refusal call d = elim d.outcome [
  | in_progress ↦ record (result_of still_running call.context.request_id) {
    claim_version = version_of d.token;
  }
  | conflict ↦ result_of conflicting call.context.request_id
  | _ ↦ record (result_of failed_before call.context.request_id) {
    safe_failure_code = d.previous_failure_code;
  }
]

unfoldable pub answer_decision :
    Service
    → Call
    → Readings
    → NewAgentRequest
    → IdempotencyScope
    → IdempotencyClaimDecision
    → Action UnitOfWork Accepted
unfolding accept_owner answer_replay
answer_decision service call r request_record scope d = elim d.outcome [
  | acquired ↦ accept_owner call r request_record d
  | reclaimed ↦ accept_owner call r request_record d
  | replay ↦ answer_replay service call r scope d
  | _ ↦ rollback >> pure (answered (refusal call d))
]

-- `scope_from_values(…)` of `execute`.
abbrev pub scope_of : Service → Call → IdempotencyScope
scope_of service call =
    scope_from_values (λ key. service.codec.sha256 (codes key)) call.context.principal.tenant_id
      call.context.principal.organization_id call.context.principal.user_id call.operation
      call.idempotency_key

abbrev pub request_record_of : Service → Call → Datetime → NewAgentRequest
request_record_of service call accepted_at =
    map_request service.codec call.context call.operation call.request.text (override_of call)
      call.request.session_id accepted_at
      (record plain { idempotency_key_hash = some (scope_of service call).key_hash })

abbrev pub claim_request_of : Service → Call → Datetime → IdempotencyClaimRequest
claim_request_of service call accepted_at =
    let request_record = request_record_of service call accepted_at in
    record {
      scope = scope_of service call;
      request_fingerprint = request_record.request_fingerprint;
      fingerprint_version = request_record.fingerprint_version;
      owner_request_id = call.context.request_id;
      lease_duration_seconds = service.policy.lease_duration_seconds;
    }

-- `_claim_and_accept`, the body of its unit of work.
unfoldable pub claim_and_accept : Service → Call → Readings → Action UnitOfWork Accepted
unfolding answer_decision map_request
claim_and_accept service call r =
    on_claims (claim (claim_request_of service call r.accepted_at) r.claimed_at)
    >>= answer_decision service call r (request_record_of service call r.accepted_at)
        (scope_of service call)
