-- ===== src/Application/Durable.antt =====
-- src/conversation_agent/application/durable_service.py: the service for requests without an idempotency
-- key. Its readings are those of the idempotent service, without the ones of a claim.
pub mod Outcomes
use safety_grounded_agent.Prelude.{String, false, Option, none}
use safety_grounded_agent.Runtime.{RequestContext}
use safety_grounded_agent.Orchestration.TaskRouter.{TaskName}
use safety_grounded_agent.Database.Errors.{
  Error, Action, pure, raise, lift, modify, rescue, ◌>>=◌, ◌>>◌,
}
use safety_grounded_agent.Database.Records.{NewAgentRequest, PersistedAgentRequestRef}
use safety_grounded_agent.Database.Execution.{
  create_request, get_request_for_update, create_run, finalize_request_completed,
  finalize_request_failed, create_audit_event,
}
use safety_grounded_agent.Database.UnitOfWork.{Factory, UnitOfWork, on_repository, commit, with_uow}
use safety_grounded_agent.Application.Models.{
  UserRequest, ApplicationResult, ChatOutcome, finished, service_failed, crashed,
}
use safety_grounded_agent.Application.Mappers.{
  Codec, plain, map_request, completed_run, failed_run, require,
}
use safety_grounded_agent.Application.Mappers.Audit.{ClaimDetails, request_accepted, request_failed}
use safety_grounded_agent.Application.Idempotent.{Call, Readings, now, override_of}
use safety_grounded_agent.Application.Execute.{result_audit}

pub record Durable : Type 0 where
  pub codec : Codec
  pub chat : UserRequest → RequestContext → Option TaskName → ChatOutcome

-- The defaults of `request_accepted`.
abbrev pub no_claim : ClaimDetails
no_claim = record {
  idempotency_outcome = none;
  claim_version = none;
  reclaimed = false;
  expired_reuse = false;
}

abbrev pub request_record : Codec → Call → Readings → NewAgentRequest
request_record codec call r =
    map_request codec call.context call.operation call.request.text (override_of call)
      call.request.session_id r.accepted_at plain

-- The body of `_accept_request`.
unfoldable pub accept_request : Codec → Call → Readings → Action UnitOfWork PersistedAgentRequestRef
unfolding map_request
accept_request codec call r = do
  request_ref ← on_repository (create_request (request_record codec call r))
  on_repository (
      create_audit_event
        (request_accepted call.context r.accept_event_id call.operation r.accepted_at no_claim))
  commit
  pure request_ref

-- The body of `_finalize_result`.
unfoldable pub finalize_result :
    Codec → Readings → ApplicationResult → PersistedAgentRequestRef → Action UnitOfWork Unit
finalize_result codec r result request = do
  locked ← on_repository (get_request_for_update request.request_id)
  on_repository
      (create_run (completed_run codec result request r.run_id r.run_started_at r.run_completed_at))
  on_repository (finalize_request_completed locked r.run_completed_at)
  on_repository (create_audit_event (result_audit codec result r))
  commit

-- The body of `_finalize_failed`.
unfoldable pub finalize_failed :
    Readings → RequestContext → String → PersistedAgentRequestRef → Action UnitOfWork Unit
finalize_failed r context failure_code request = do
  locked ← on_repository (get_request_for_update request.request_id)
  on_repository (
      create_run
        (failed_run context request r.run_id failure_code r.run_started_at r.run_completed_at))
  on_repository (finalize_request_failed locked r.run_completed_at failure_code)
  on_repository (
      create_audit_event
        (request_failed context r.finish_event_id r.run_id failure_code r.run_completed_at))
  commit

-- The run raised: its failure is stored, and an error is raised in any case.
unfoldable pub give_up :
    Call → Readings → PersistedAgentRequestRef → String → Action Factory ApplicationResult
unfolding finalize_failed require
give_up call r request code =
    lift (now r.run_completed_at) >> lift (require code) >>= λ failure_code.
    rescue (λ _. Error.persistence_finalization)
      (with_uow (finalize_failed r call.context failure_code request))
    >> raise Error.durable_application_execution

-- What the thread came to is stored.
unfoldable pub end_run :
    Codec
    → Call
    → Readings
    → PersistedAgentRequestRef
    → ChatOutcome
    → Action Factory ApplicationResult
unfolding finalize_result give_up
end_run codec call r request (finished result) =
    lift (now r.run_completed_at)
    >> rescue (λ _. Error.persistence_finalization)
        (with_uow (finalize_result codec r result request))
    >> pure result
end_run codec call r request service_failed = give_up call r request "application_service_failed"
end_run codec call r request crashed = give_up call r request "coordinator_execution_failed"

-- `execute`
unfoldable pub execute :
    Durable → (Factory → Factory) → Call → Readings → Action Factory ApplicationResult
unfolding accept_request end_run
execute service between call r =
    lift (now r.accepted_at)
    >> rescue (λ _. Error.request_initialization) (with_uow (accept_request service.codec call r))
    >>= λ request.
        lift (now r.run_started_at)
        >> modify between
        >> end_run service.codec call r request
            (service.chat call.request call.context call.forced_task)
