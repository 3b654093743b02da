-- ===== src/Application/Transactions.antt =====
-- The transactions over the tables that the units of work of the idempotent service stand for.
use safety_grounded_agent.Prelude.{Bool, true, false, String, none, some, if◌then◌else◌}
use safety_grounded_agent.Runtime.{RequestContext}
use safety_grounded_agent.Database.Errors.{Error, Action, pure, lift, or_raise, ◌>>=◌, ◌>>◌}
use safety_grounded_agent.Database.State.{ExecutionState}
use safety_grounded_agent.Database.Records.{
  NewAgentRequest, PersistedAgentRequestRef, IdempotencyScope, IdempotencyClaimToken,
  IdempotencyClaimDecision, acquired, reclaimed, replay,
}
use safety_grounded_agent.Database.Execution.{
  insert_request, select_request, insert_run, finalize, insert_audit,
}
use safety_grounded_agent.Database.Claims.{
  claim, assert_current_owner, complete_fenced, fail_fenced,
}
use safety_grounded_agent.Application.Models.{ApplicationResult, replayed, result_of}
use safety_grounded_agent.Application.Mappers.{completed_run, failed_run, reclaimed_run, require}
use safety_grounded_agent.Application.Mappers.Audit.{
  request_failed, lease_reclaimed, request_accepted, request_replayed,
}
use safety_grounded_agent.Application.Idempotent.{
  Service, Call, Readings, Accepted, owner, answered, claim_details, is_reclaimed, refusal,
  restore_replay, replay_record, claim_request_of, request_record_of, scope_of,
}
use safety_grounded_agent.Application.Execute.{result_audit}

-- The transaction that stores a result: the claim's fence, the request that is read, and four writes.
unfoldable pub store_result :
    Service
    → Readings
    → ApplicationResult
    → PersistedAgentRequestRef
    → IdempotencyClaimToken
    → Action ExecutionState Unit
store_result service r result request token = do
  assert_current_owner token
  locked ← select_request request.request_id
  snapshot ← lift (service.replay_mapper.snapshot result)
  run_id ←
      insert_run
        (completed_run service.codec result request r.run_id r.run_started_at r.run_completed_at)
  finalize locked "completed" r.run_completed_at none
  insert_audit (result_audit service.codec result r)
  complete_fenced token run_id snapshot 1 service.policy.replay_ttl_seconds r.finished_at

-- The transaction that stores a failure.
unfoldable pub store_failure :
    Service
    → Readings
    → RequestContext
    → String
    → PersistedAgentRequestRef
    → IdempotencyClaimToken
    → Action ExecutionState Unit
store_failure service r context code request token = do
  assert_current_owner token
  locked ← select_request request.request_id
  insert_run (failed_run context request r.run_id code r.run_started_at r.run_completed_at)
  finalize locked "failed" r.run_completed_at (some code)
  insert_audit (request_failed context r.finish_event_id r.run_id code r.run_completed_at)
  fail_fenced token service.policy.failure_ttl_seconds r.finished_at

-- What becomes of a former owner whose lease has run out: its request has failed.
unfoldable pub settle_owner :
    RequestContext
    → Readings
    → IdempotencyClaimToken
    → PersistedAgentRequestRef
    → Action ExecutionState Unit
unfolding require
settle_owner context r token former = do
  insert_run (reclaimed_run former r.reclaim_run_id r.accepted_at)
  code ← lift (require "idempotency_lease_reclaimed")
  finalize former "failed" r.accepted_at (some code)
  insert_audit (
      lease_reclaimed context former r.reclaim_event_id r.reclaim_run_id token.claim_version
        r.accepted_at)
  pure tt

abbrev settle_former_owner :
    RequestContext
    → Readings
    → IdempotencyClaimToken
    → IdempotencyClaimDecision
    → Action ExecutionState Unit
settle_former_owner context r token d =
    if is_reclaimed d.outcome
    then or_raise d.reclaimed_request Error.assertion_failed >>= settle_owner context r token
    else pure tt

-- The transaction of an owner: the request and its event, and the end of the former owner's request.
unfoldable pub store_owner :
    Call → Readings → NewAgentRequest → IdempotencyClaimDecision → Action ExecutionState Accepted
unfolding settle_owner
store_owner call r request_record d = do
  token ← or_raise d.token Error.assertion_failed
  settle_former_owner call.context r token d
  request_ref ← insert_request request_record
  insert_audit (
      request_accepted call.context r.accept_event_id call.operation r.accepted_at
        (claim_details d token))
  pure (owner token request_ref)

-- The transaction of a replay: the result is restored, and the answered request stored.
unfoldable pub store_replay :
    Service
    → Call
    → Readings
    → IdempotencyScope
    → IdempotencyClaimDecision
    → Action ExecutionState Accepted
store_replay service call r scope d = do
  result ← lift (restore_replay service.replay_mapper call r.accepted_at r.restored_at d)
  insert_request (replay_record service.codec call r scope d)
  insert_audit (request_replayed call.context r.accept_event_id call.operation r.accepted_at)
  pure (
      answered (record (result_of replayed call.context.request_id) {
        original_request_id = d.original_request_id;
        application_result = some result;
      }))

unfoldable pub store_decision :
    Service
    → Call
    → Readings
    → NewAgentRequest
    → IdempotencyScope
    → IdempotencyClaimDecision
    → Action ExecutionState Accepted
unfolding store_owner store_replay
store_decision service call r request_record scope d = elim d.outcome [
  | acquired ↦ store_owner call r request_record d
  | reclaimed ↦ store_owner call r request_record d
  | replay ↦ store_replay service call r scope d
  | _ ↦ pure (answered (refusal call d))
]

-- The whole transaction by which a request is accepted.
unfoldable pub claim_step : Service → Call → Readings → Action ExecutionState Accepted
unfolding store_decision
claim_step service call r =
    claim (claim_request_of service call r.accepted_at) r.claimed_at
    >>= store_decision service call r (request_record_of service call r.accepted_at)
        (scope_of service call)

-- Only a granted claim and a replay have something to publish.
abbrev pub publishes : Accepted → Bool
publishes (owner token request) = true
publishes (answered result) = elim result.outcome [ replayed ↦ true | _ ↦ false ]
