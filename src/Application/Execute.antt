-- ===== src/Application/Execute.antt =====
-- `execute` of src/conversation_agent/application/idempotent_durable_service.py, and how it ends a run
-- that it owns.
pub mod Stale
pub mod Stored
pub mod Replays
pub mod Outcomes
use safety_grounded_agent.Prelude.{String, not, some, ◌==◌, string_has_eq, if◌then◌else◌}
use safety_grounded_agent.Policy.Models.{is_blocked}
use safety_grounded_agent.Runtime.{RequestContext}
use safety_grounded_agent.Database.Errors.{
  Error, Action, pure, raise, lift, modify, raise_if, rescue, ◌>>=◌, ◌>>◌, is_idempotency_error,
}
use safety_grounded_agent.Database.Records.{
  PersistedAgentRequestRef, IdempotencyClaimToken, NewAuditEvent,
}
use safety_grounded_agent.Database.Execution.{
  get_request_for_update, create_run, finalize_request_completed, finalize_request_failed,
  create_audit_event,
}
use safety_grounded_agent.Database.Claims.{assert_current_owner, complete_fenced, fail_fenced}
use safety_grounded_agent.Database.UnitOfWork.{
  Factory, UnitOfWork, on_repository, on_claims, commit, with_uow,
}
use safety_grounded_agent.Application.Models.{
  ApplicationResult, ChatOutcome, finished, service_failed, crashed, IdempotentApplicationResult,
  result_of, executed,
}
use safety_grounded_agent.Application.Mappers.{Codec, completed_run, failed_run, require}
use safety_grounded_agent.Application.Mappers.Audit.{
  request_completed, policy_blocked, request_failed,
}
use safety_grounded_agent.Application.Idempotent.{
  Service, Call, Readings, now, Accepted, owner, answered, claim_and_accept,
}

-- The event that ends a run with a result.
abbrev pub result_audit : Codec → ApplicationResult → Readings → NewAuditEvent
result_audit codec result r =
    if is_blocked result.orchestration.policy
    then policy_blocked codec.of_codes result r.finish_event_id r.run_id r.run_completed_at
    else request_completed result r.finish_event_id r.run_id r.run_completed_at

-- The body of the unit of work of `_finalize_result`.
unfoldable pub finalize_result :
    Service
    → Readings
    → ApplicationResult
    → PersistedAgentRequestRef
    → IdempotencyClaimToken
    → Action UnitOfWork Unit
finalize_result service r result request token = do
  on_claims (assert_current_owner token)
  locked ← on_repository (get_request_for_update request.request_id)
  replay_snapshot ← lift (service.replay_mapper.snapshot result)
  run_record_id ← on_repository (
      create_run
        (completed_run service.codec result request r.run_id r.run_started_at r.run_completed_at))
  on_repository (finalize_request_completed locked r.run_completed_at)
  on_repository (create_audit_event (result_audit service.codec result r))
  on_claims (
      complete_fenced token run_record_id replay_snapshot 1 service.policy.replay_ttl_seconds
        r.finished_at)
  commit

-- The body of the unit of work of `_finalize_failed`.
unfoldable pub finalize_failed :
    Service
    → Readings
    → RequestContext
    → String
    → PersistedAgentRequestRef
    → IdempotencyClaimToken
    → Action UnitOfWork Unit
finalize_failed service r context failure_code request token = do
  on_claims (assert_current_owner token)
  locked ← on_repository (get_request_for_update request.request_id)
  on_repository (
      create_run
        (failed_run context request r.run_id failure_code r.run_started_at r.run_completed_at))
  on_repository (finalize_request_failed locked r.run_completed_at failure_code)
  on_repository (
      create_audit_event
        (request_failed context r.finish_event_id r.run_id failure_code r.run_completed_at))
  on_claims (fail_fenced token service.policy.failure_ttl_seconds r.finished_at)
  commit

-- `except IdempotencyError: raise`, and any other exception becomes a `RequestInitializationError`.
abbrev pub initialization_error : Error → Error
initialization_error e = if is_idempotency_error e then e else Error.request_initialization

-- The run came to a result.
unfoldable pub conclude :
    Service
    → Call
    → Readings
    → PersistedAgentRequestRef
    → IdempotencyClaimToken
    → ApplicationResult
    → Action Factory IdempotentApplicationResult
unfolding finalize_result
conclude service call r request token result =
    lift (now r.run_completed_at)
    >> rescue (λ _. Error.persistence_finalization)
        (with_uow (finalize_result service r result request token))
    >> pure (record (result_of executed call.context.request_id) {
      application_result = some result;
      claim_version = some token.claim_version;
    })

-- The run raised: its failure is stored under an approved code, and an error is raised in any case.
unfoldable pub give_up :
    Service
    → Call
    → Readings
    → PersistedAgentRequestRef
    → IdempotencyClaimToken
    → String
    → Action Factory IdempotentApplicationResult
unfolding finalize_failed require
give_up service call r request token code =
    lift (now r.run_completed_at) >> lift (require code) >>= λ failure_code.
    rescue (λ _. Error.persistence_finalization)
      (with_uow (finalize_failed service r call.context failure_code request token))
    >> raise Error.durable_application_execution

-- What the thread came to is stored.
unfoldable pub end_run :
    Service
    → Call
    → Readings
    → IdempotencyClaimToken
    → PersistedAgentRequestRef
    → ChatOutcome
    → Action Factory IdempotentApplicationResult
unfolding conclude give_up
end_run service call r token request (finished result) =
    conclude service call r request token result
end_run service call r token request service_failed =
    give_up service call r request token "application_service_failed"
end_run service call r token request crashed =
    give_up service call r request token "coordinator_execution_failed"

-- What the owner of a claim does: the chat service runs in a thread, and its outcome is stored.
unfoldable pub run_owner :
    Service
    → (Factory → Factory)
    → Call
    → Readings
    → IdempotencyClaimToken
    → PersistedAgentRequestRef
    → Action Factory IdempotentApplicationResult
unfolding end_run
run_owner service between call r token request =
    lift (now r.run_started_at)
    >> modify between
    >> end_run service call r token request
        (service.chat call.request call.context call.forced_task)

unfoldable pub proceed :
    Service
    → (Factory → Factory)
    → Call
    → Readings
    → Accepted
    → Action Factory IdempotentApplicationResult
unfolding run_owner
proceed service between call r (owner token request) =
    run_owner service between call r token request
proceed service between call r (answered result) = pure result

-- `self._claim_and_accept(…)` in its `try`.
unfoldable pub accept : Service → Call → Readings → Action Factory Accepted
unfolding claim_and_accept
accept service call r = rescue initialization_error (with_uow (claim_and_accept service call r))

-- `execute`
unfoldable pub execute :
    Service → (Factory → Factory) → Call → Readings → Action Factory IdempotentApplicationResult
unfolding accept proceed
execute service between call r =
    raise_if (not call.context.authorization.allowed) Error.request_initialization
    >> raise_if (call.idempotency_key == "") Error.request_initialization
    >> lift (now r.accepted_at)
    >> accept service call r
    >>= proceed service between call r
