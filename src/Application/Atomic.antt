-- ===== src/Application/Atomic.antt =====
-- The units of work of the idempotent service as transactions over the tables: what each one does to
-- them, and that it does all of it or nothing.
use safety_grounded_agent.Prelude.{ℕ, ◌≡◌, ap, refl, true, String, some, []}
use safety_grounded_agent.Runtime.{RequestContext}
use safety_grounded_agent.Database.Errors.{Result, ok, rescue}
use safety_grounded_agent.Database.State.{ExecutionState}
use safety_grounded_agent.Database.Records.{
  NewAgentRequest, PersistedAgentRequestRef, IdempotencyScope, IdempotencyClaimToken,
  IdempotencyClaimDecision, ClaimOutcome, acquired, reclaimed, replay, in_progress, conflict,
  previous_failure,
}
use safety_grounded_agent.Database.Execution.{
  finalize, insert_audit, create_request, get_request_for_update, create_run,
  finalize_request_completed, finalize_request_failed, create_audit_event,
}
use safety_grounded_agent.Database.UnitOfWork.{Factory, with_uow}
use safety_grounded_agent.Database.UnitOfWork.Transactions.{
  Implements, Ends, settled, on_repository-Implements, on_claims-Implements, lift-Implements,
  bind-Implements, bind-Ends, or_raise-Implements, if-Implements, commit-Ends, rollback-Ends,
  with_uow-Ends, last-Ends,
}
use safety_grounded_agent.Application.Models.{ApplicationResult}
use safety_grounded_agent.Application.Mappers.{require}
use safety_grounded_agent.Application.Mappers.Audit.{lease_reclaimed}
use safety_grounded_agent.Application.Idempotent.{
  Service, Call, Readings, Accepted, owner, answered, accept_owner, answer_replay, answer_decision,
  claim_and_accept, finalize_reclaimed_owner, is_reclaimed, refusal, request_record_of, scope_of,
}
use safety_grounded_agent.Application.Execute.{
  finalize_result, finalize_failed, accept, initialization_error,
}
use safety_grounded_agent.Application.Transactions.{
  store_result, store_failure, settle_owner, store_owner, store_replay, store_decision, claim_step,
  publishes,
}

module _ (f : Factory) (service : Service) (r : Readings) where
  finalize_result-Ends :
      (result : ApplicationResult) (request : PersistedAgentRequestRef)
      (token : IdempotencyClaimToken)
      → Ends f
          (λ _. true)
          (finalize_result service r result request token)
          (store_result service r result request token)
  unfolding finalize_result store_result get_request_for_update create_run
      finalize_request_completed create_audit_event
  finalize_result-Ends result request token = bind-Ends f (on_claims-Implements f _) (λ _.
      bind-Ends f (on_repository-Implements f _ _) (λ _. bind-Ends f (lift-Implements f _) (λ _.
        bind-Ends f (on_repository-Implements f _ _) (λ _.
          bind-Ends f (on_repository-Implements f _ _) (λ _.
            bind-Ends f (on_repository-Implements f _ _)
              (λ _. last-Ends f (on_claims-Implements f _)))))))

  finalize_failed-Ends :
      (context : RequestContext) (code : String) (request : PersistedAgentRequestRef)
      (token : IdempotencyClaimToken)
      → Ends f
          (λ _. true)
          (finalize_failed service r context code request token)
          (store_failure service r context code request token)
  unfolding finalize_failed store_failure get_request_for_update create_run finalize_request_failed
      create_audit_event
  finalize_failed-Ends context code request token = bind-Ends f (on_claims-Implements f _) (λ _.
      bind-Ends f (on_repository-Implements f _ _) (λ _.
        bind-Ends f (on_repository-Implements f _ _) (λ _.
          bind-Ends f (on_repository-Implements f _ _) (λ _.
            bind-Ends f (on_repository-Implements f _ _)
              (λ _. last-Ends f (on_claims-Implements f _))))))

  settle_owner-Implements :
      (context : RequestContext) (token : IdempotencyClaimToken) (former : PersistedAgentRequestRef)
      → Implements f
          (finalize_reclaimed_owner context r token former)
          (settle_owner context r token former)
  unfolding finalize_reclaimed_owner settle_owner create_run finalize_request_failed
      create_audit_event
  settle_owner-Implements context token former =
      bind-Implements f {A = ℕ} (on_repository-Implements f _ _) (λ _.
        bind-Implements f {A = String} (lift-Implements f (require "idempotency_lease_reclaimed"))
          (λ code.
            bind-Implements f {A = Unit {0}}
              (on_repository-Implements f "finalize_request_failed"
                (finalize former "failed" r.accepted_at (some code)))
              (λ _.
                bind-Implements f {A = ℕ}
                  (on_repository-Implements f "create_audit_event" (
                    insert_audit (
                      lease_reclaimed context former r.reclaim_event_id r.reclaim_run_id
                        token.claim_version r.accepted_at)))
                  (λ _. lift-Implements f (ok tt)))))

  store_owner-Ends :
      (call : Call) (new : NewAgentRequest) (d : IdempotencyClaimDecision)
      → Ends f publishes (accept_owner call r new d) (store_owner call r new d)
  unfolding accept_owner store_owner create_request create_audit_event
  store_owner-Ends call new d = bind-Ends f (or_raise-Implements f _ _) (λ token.
      bind-Ends f
        (if-Implements f (is_reclaimed d.outcome)
          (bind-Implements f (or_raise-Implements f _ _)
            (λ former. settle_owner-Implements call.context token former))
          (lift-Implements f (ok tt)))
        (λ _. bind-Ends f (on_repository-Implements f _ _) (λ ref.
          bind-Ends f (on_repository-Implements f _ _)
            (λ _. commit-Ends f publishes (owner token ref) refl))))

  store_replay-Ends :
      (call : Call) (scope : IdempotencyScope) (d : IdempotencyClaimDecision)
      → Ends f publishes
          (answer_replay service call r scope d)
          (store_replay service call r scope d)
  unfolding answer_replay store_replay create_request create_audit_event
  store_replay-Ends call scope d = bind-Ends f (lift-Implements f _) (λ result.
      bind-Ends f (on_repository-Implements f _ _)
        (λ _. bind-Ends f (on_repository-Implements f _ _) (λ _. commit-Ends f publishes _ refl)))

  store_decision-Ends :
      (call : Call) (new : NewAgentRequest) (scope : IdempotencyScope)
      (d : IdempotencyClaimDecision) (o : ClaimOutcome)
      → Ends f publishes
          (answer_decision service call r new scope (record d { outcome = o }))
          (store_decision service call r new scope (record d { outcome = o }))
  unfolding answer_decision store_decision
  store_decision-Ends call new scope d acquired =
      store_owner-Ends call new (record d { outcome = acquired })
  store_decision-Ends call new scope d reclaimed =
      store_owner-Ends call new (record d { outcome = reclaimed })
  store_decision-Ends call new scope d replay =
      store_replay-Ends call scope (record d { outcome = replay })
  store_decision-Ends call new scope d in_progress =
      rollback-Ends f publishes (answered (refusal call (record d { outcome = in_progress }))) refl
  store_decision-Ends call new scope d conflict =
      rollback-Ends f publishes (answered (refusal call (record d { outcome = conflict }))) refl
  store_decision-Ends call new scope d previous_failure =
      rollback-Ends f publishes (answered (refusal call (record d { outcome = previous_failure })))
        refl

  claim_step-Ends :
      (call : Call) → Ends f publishes (claim_and_accept service call r) (claim_step service call r)
  unfolding claim_and_accept claim_step
  claim_step-Ends call = bind-Ends f (on_claims-Implements f _) (λ d.
      store_decision-Ends call (request_record_of service call r.accepted_at)
        (scope_of service call) d d.outcome)

-- The acceptance of a request is one transaction, where no call of a repository is made to fail:
-- the caller's result and the tables are those of the transaction, settled by the commit. If the claim, the replay
-- or a write raises, or the commit fails, the tables are as before and the exception is an idempotency
-- error or the initialisation error; a refusal leaves the tables as well.
pub accept_atomic :
    (service : Service) (call : Call) (r : Readings) (f : Factory)
    → f.fail_operations ≡ []
    → ((accept service call r f).0, (accept service call r f).1.state)
      ≡ rescue initialization_error
          (λ _. settled publishes f (claim_step service call r f.state))
          f.state
unfolding accept
accept_atomic service call r f quiet =
    ap (λ (out : Result Accepted × ExecutionState). rescue initialization_error (λ _. out) f.state)
      (with_uow-Ends publishes (claim_and_accept service call r) (claim_step service call r) f quiet
        (λ g. claim_step-Ends g service r call))

pub finalizes :
    (service : Service) (r : Readings) (request : PersistedAgentRequestRef)
    (token : IdempotencyClaimToken) (f : Factory)
    → f.fail_operations ≡ []
    → ((result : ApplicationResult)
        → let out = with_uow (finalize_result service r result request token) f in
          (out.0, out.1.state)
          ≡ settled (λ _. true) f (store_result service r result request token f.state))
      × ((context : RequestContext) (code : String)
          → let out = with_uow (finalize_failed service r context code request token) f in
            (out.0, out.1.state)
            ≡ settled (λ _. true) f (store_failure service r context code request token f.state))
finalizes service r request token f quiet = (
  λ result.
      with_uow-Ends _ _ _ f quiet (λ g. finalize_result-Ends g service r result request token),
  λ context code.
      with_uow-Ends _ _ _ f quiet
        (λ g. finalize_failed-Ends g service r context code request token),
)

-- The end of a run, with a result or with a failure, is one transaction as well, where no call of a repository is
-- made to fail: behind the test of the claim's owner and the reading of the request stand four writes
-- (the run, the request's end, the event and the claim's end), which the commit publishes together
-- or not at all.
pub finalize_atomic :
    (service : Service) (r : Readings) (result : ApplicationResult) (context : RequestContext)
    (code : String) (request : PersistedAgentRequestRef) (token : IdempotencyClaimToken)
    (f : Factory)
    → f.fail_operations ≡ []
    → ((
      (with_uow (finalize_result service r result request token) f).0,
      (with_uow (finalize_result service r result request token) f).1.state,
    )
        ≡ settled (λ _. true) f (store_result service r result request token f.state))
      × ((
        (with_uow (finalize_failed service r context code request token) f).0,
        (with_uow (finalize_failed service r context code request token) f).1.state,
      )
          ≡ settled (λ _. true) f (store_failure service r context code request token f.state))
finalize_atomic service r result context code request token f quiet =
    let both = finalizes service r request token f quiet in (both.0 result, both.1 context code)
