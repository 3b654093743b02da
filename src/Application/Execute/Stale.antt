-- ===== src/Application/Execute/Stale.antt =====
-- A run that has lost its claim while the chat service worked.
use safety_grounded_agent.Prelude.{◌≡◌, refl, true, false, String, [], arith, ◌==◌, string_has_eq}
use safety_grounded_agent.Time.{is_utc}
use safety_grounded_agent.Database.Errors.{Error, ok, err}
use safety_grounded_agent.Database.State.{ExecutionState}
use safety_grounded_agent.Database.Records.{
  PersistedAgentRequestRef, IdempotencyClaimToken, scope_has_eq,
}
use safety_grounded_agent.Database.Claims.Ownership.{IsStale, stale_lost}
use safety_grounded_agent.Database.UnitOfWork.{Factory}
use safety_grounded_agent.Runtime.{RequestContext}
use safety_grounded_agent.Application.Models.{
  ApplicationResult, ChatOutcome, finished, service_failed, crashed,
}
use safety_grounded_agent.Application.Mappers.{require}
use safety_grounded_agent.Application.Idempotent.{Service, Call, Readings, owner}
use safety_grounded_agent.Application.Execute.{
  execute, accept, proceed, run_owner, end_run, conclude, give_up,
}
use safety_grounded_agent.Application.Atomic.{finalizes}
use safety_grounded_agent.Application.Transactions.{store_result, store_failure}

-- The request may be executed: it is authorized, it has a key, and the clock is in UTC.
pub record Admitted (call : Call) (r : Readings) : Type 0 where
  pub allowed : call.context.authorization.allowed ≡ true
  pub has_key : (call.idempotency_key == "") ≡ false
  pub accepted_utc : is_utc r.accepted_at ≡ true

module _ (service : Service) (r : Readings) (token : IdempotencyClaimToken) where
  store_result_lost :
      (result : ApplicationResult) (request : PersistedAgentRequestRef) (s : ExecutionState)
      → IsStale token s
      → store_result service r result request token s ≡ (err Error.ownership_lost, s)
  unfolding store_result
  store_result_lost result request s h = rw (stale_lost token s h) refl

  store_failure_lost :
      (context : RequestContext) (code : String) (request : PersistedAgentRequestRef)
      (s : ExecutionState)
      → IsStale token s
      → store_failure service r context code request token s ≡ (err Error.ownership_lost, s)
  unfolding store_failure
  store_failure_lost context code request s h = rw (stale_lost token s h) refl

  -- Both ways to end the run raise, and leave the tables.
  conclude_lost :
      (call : Call) (request : PersistedAgentRequestRef) (result : ApplicationResult) (f : Factory)
      → is_utc r.run_completed_at ≡ true
      → f.fail_operations ≡ []
      → IsStale token f.state
      → let out = conclude service call r request token result f in
        (out.0 ≡ err Error.persistence_finalization) × (out.1.state ≡ f.state)
  unfolding conclude
  conclude_lost call request result f utc quiet stale =
      let e = (finalizes service r request token f quiet).0 result in
      let lost = store_result_lost result request f.state stale in ground (arith, e, lost)

  give_up_lost :
      (call : Call) (request : PersistedAgentRequestRef) (code : String) (f : Factory)
      → require code ≡ ok code
      → is_utc r.run_completed_at ≡ true
      → f.fail_operations ≡ []
      → IsStale token f.state
      → let out = give_up service call r request token code f in
        (out.0 ≡ err Error.persistence_finalization) × (out.1.state ≡ f.state)
  unfolding give_up
  give_up_lost call request code f known utc quiet stale =
      let e = (finalizes service r request token f quiet).1 call.context code in
      let lost = store_failure_lost call.context code request f.state stale in
      ground (arith, e, lost)

  end_run_lost :
      (call : Call) (request : PersistedAgentRequestRef) (o : ChatOutcome) (f : Factory)
      → is_utc r.run_completed_at ≡ true
      → f.fail_operations ≡ []
      → IsStale token f.state
      → let out = end_run service call r token request o f in
        (out.0 ≡ err Error.persistence_finalization) × (out.1.state ≡ f.state)
  unfolding end_run
  end_run_lost call request (finished result) f utc quiet stale =
      conclude_lost call request result f utc quiet stale
  end_run_lost call request service_failed f utc quiet stale =
      give_up_lost call request "application_service_failed" f (unfold require in refl) utc quiet
        stale
  end_run_lost call request crashed f utc quiet stale =
      give_up_lost call request "coordinator_execution_failed" f (unfold require in refl) utc quiet
        stale

-- A request was accepted as the owner of a claim, and while the chat service worked, the scope of the
-- claim was granted anew, where no call of a repository is made to fail. Then, whatever the chat service came
-- to, `execute` raises the finalisation error, and leaves the tables as it found them after the chat
-- service: the late result is neither returned nor stored.
pub stale_execute :
    (service : Service) (between : Factory → Factory) (call : Call) (r : Readings) (f g : Factory)
    (token : IdempotencyClaimToken) (request : PersistedAgentRequestRef)
    → Admitted call r
    → is_utc r.run_started_at ≡ true
    → is_utc r.run_completed_at ≡ true
    → accept service call r f ≡ (ok (owner token request), g)
    → (between g).fail_operations ≡ []
    → IsStale token (between g).state
    → let out = execute service between call r f in
      (out.0 ≡ err Error.persistence_finalization) × (out.1.state ≡ (between g).state)
unfolding execute proceed run_owner
stale_execute service between call r f g token request admitted started_utc completed_utc accepted
      quiet stale =
    let e =
      end_run_lost service r token call request
        (service.chat call.request call.context call.forced_task) (between g) completed_utc quiet
        stale in
    ground
      (arith, e, accepted, admitted.allowed, admitted.has_key, admitted.accepted_utc, started_utc)
